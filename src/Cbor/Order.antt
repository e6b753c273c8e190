-- ===== src/Cbor/Order.antt =====
-- The order of map keys, `Ord for KeyType` of libraries/cbor/src/values.rs.
use open_sk.Common.{ℕ, ◌≡◌, refl, List, [], ◌∷◌, compare, Ordering, arith, ◌↔◌}
use open_sk.Common.Int.{pos, negsuc}
use open_sk.Cbor.Values.{KeyType, unsigned, negative, byte_string, text_string, then_cmp, reverse}
use open_sk.Cbor.Values.{cmp_bytes, cmp}

compare-swap : (a b : ℕ) → compare b a ≡ reverse (compare a b)
compare-swap a b = ground arith

reverse-reverse : (o : Ordering) → reverse (reverse o) ≡ o
reverse-reverse Ordering.lt = refl
reverse-reverse Ordering.eq = refl
reverse-reverse Ordering.gt = refl

reverse-then_cmp : (o p : Ordering) → reverse (then_cmp o p) ≡ then_cmp (reverse o) (reverse p)
reverse-then_cmp Ordering.lt p = refl
reverse-then_cmp Ordering.eq p = refl
reverse-then_cmp Ordering.gt p = refl

cmp_bytes-swap : (xs ys : List ℕ) → cmp_bytes ys xs ≡ reverse (cmp_bytes xs ys)
unfolding cmp_bytes
cmp_bytes-swap [] [] = refl
cmp_bytes-swap [] (y ∷ ys) = refl
cmp_bytes-swap (x ∷ xs) [] = refl
cmp_bytes-swap (x ∷ xs) (y ∷ ys) = ground (arith, cmp_bytes-swap xs ys)

cmp_bytes-eq : (xs ys : List ℕ) → cmp_bytes xs ys ≡ Ordering.eq → xs ≡ ys
unfolding cmp_bytes
cmp_bytes-eq [] [] h = refl
cmp_bytes-eq [] (y ∷ ys) h = cc
cmp_bytes-eq (x ∷ xs) [] h = cc
cmp_bytes-eq (x ∷ xs) (y ∷ ys) h = ground (arith, cmp_bytes-eq xs ys)

cmp_bytes_refl : (xs : List ℕ) → cmp_bytes xs xs ≡ Ordering.eq
unfolding cmp_bytes
cmp_bytes_refl [] = refl
cmp_bytes_refl (x ∷ xs) = ground (arith, cmp_bytes_refl xs)

cmp_bytes_trans :
    (xs ys zs : List ℕ)
    → cmp_bytes xs ys ≡ Ordering.lt
    → cmp_bytes ys zs ≡ Ordering.lt
    → cmp_bytes xs zs ≡ Ordering.lt
unfolding cmp_bytes
cmp_bytes_trans [] [] zs h k = cc
cmp_bytes_trans [] (y ∷ ys) [] h k = cc
cmp_bytes_trans [] (y ∷ ys) (z ∷ zs) h k = refl
cmp_bytes_trans (x ∷ xs) [] zs h k = cc
cmp_bytes_trans (x ∷ xs) (y ∷ ys) [] h k = cc
cmp_bytes_trans (x ∷ xs) (y ∷ ys) (z ∷ zs) h k = ground (arith, cmp_bytes_trans xs ys zs)

-- Swapping the keys reverses the result.
pub cmp-swap : (a b : KeyType) → cmp b a ≡ reverse (cmp a b)
unfolding cmp
cmp-swap (unsigned a) (unsigned b) = ground arith
cmp-swap (negative (pos a)) (negative (pos b)) = ground arith
cmp-swap (negative (pos a)) (negative (negsuc b)) = refl
cmp-swap (negative (negsuc a)) (negative (pos b)) = refl
cmp-swap (negative (negsuc a)) (negative (negsuc b)) = ground arith
cmp-swap (byte_string a) (byte_string b) = ground (arith, cmp_bytes-swap a b)
cmp-swap (text_string a) (text_string b) = ground (arith, cmp_bytes-swap a b)
cmp-swap _ _ = refl

-- Keys that compare as equal are the same key.
pub cmp-eq : (a b : KeyType) → cmp a b ≡ Ordering.eq → a ≡ b
unfolding cmp
cmp-eq (unsigned a) (unsigned b) h = ground arith
cmp-eq (negative (pos a)) (negative (pos b)) h = ground arith
cmp-eq (negative (negsuc a)) (negative (negsuc b)) h = ground arith
cmp-eq (byte_string a) (byte_string b) h = ground (arith, cmp_bytes-eq a b)
cmp-eq (text_string a) (text_string b) h = ground (arith, cmp_bytes-eq a b)
cmp-eq _ _ h = cc

pub cmp_refl : (a : KeyType) → cmp a a ≡ Ordering.eq
unfolding cmp
cmp_refl (unsigned a) = ground arith
cmp_refl (negative (pos a)) = ground arith
cmp_refl (negative (negsuc a)) = ground arith
cmp_refl (byte_string a) = ground (arith, cmp_bytes_refl a)
cmp_refl (text_string a) = ground (arith, cmp_bytes_refl a)

-- A key below a second one that is below a third is below the third.
pub cmp_trans :
    (a b c : KeyType) → cmp a b ≡ Ordering.lt → cmp b c ≡ Ordering.lt → cmp a c ≡ Ordering.lt
unfolding cmp
cmp_trans (unsigned a) (unsigned b) (unsigned c) h k = ground arith
cmp_trans (negative (pos a)) (negative (pos b)) (negative (pos c)) h k = ground arith
cmp_trans (negative (negsuc a)) (negative (negsuc b)) (negative (negsuc c)) h k = ground arith
cmp_trans (byte_string a) (byte_string b) (byte_string c) h k =
    ground (arith, cmp_bytes_trans a b c)
cmp_trans (text_string a) (text_string b) (text_string c) h k =
    ground (arith, cmp_bytes_trans a b c)
cmp_trans _ _ _ h k = ground arith

-- The order of the keys is total: swapping two keys reverses their comparison, and the keys that
-- compare as equal are the same key.
pub cmp_total :
    (a b : KeyType) → (cmp b a ≡ reverse (cmp a b)) × ((cmp a b ≡ Ordering.eq) ↔ (a ≡ b))
cmp_total a b = (cmp-swap a b, (cmp-eq a b, λ e. rw e (cmp_refl b)))
