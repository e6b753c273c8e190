-- ===== src/Cbor/Sound.antt =====
-- reader.rs accepts canonical encodings only: what it reads is what writer.rs would write.
use open_sk.Common.{ℕ, suc, ◌+◌, ◌*◌, ◌/◌, ◌%◌, ◌^◌, ◌≤◌, ◌<◌, ◌≡◌, refl, ap, arith}
use open_sk.Common.{true, List, [], ◌∷◌, ◌++◌, length, some}
use open_sk.Common.{All, take-append-drop, length-take}
use open_sk.Common.{All-append_left, Option-cases, inl, inr, subst}
use open_sk.Common.Bits.{IsByte}
use open_sk.Cbor.Writer.{size_info, size_bytes, size_shift}
use open_sk.Cbor.Values.{Value}
use open_sk.Cbor.Reader.{
  finish, ok, err, ◌>>=◌, Result, read_bytes, size_value, is_minimal, read_size,
}
use open_sk.Cbor.Reader.{read_variadic_length_integer}
use open_sk.Cbor.Size.{top_bytes, pow_eight}
use native.Mathlib.Nat.{div-one, one-le-pow, pow-le-pow_right}

-- A value that a whole read returns, from an item that has been read.
pub item-eq-ok :
    (item : Result (Value × List ℕ)) (v : Value)
    → (item >>= finish) ≡ ok v
    → (read_item : Value × List ℕ) × (item ≡ ok read_item) × (finish read_item ≡ ok v)
item-eq-ok (err failure) v done = cc
item-eq-ok (ok read_item) v done = (read_item, refl, done)

pub read_bytes-eq-some :
    (n : ℕ) (bs left right : List ℕ)
    → read_bytes n bs ≡ some (left, right)
    → (bs ≡ left ++ right) × (length left ≡ n)
unfolding read_bytes
read_bytes-eq-some n bs left right h = ground (arith, take-append-drop n bs, length-take n bs)

no_wrap :
    (acc b k : ℕ)
    → b < 256
    → suc acc * 2 ^ (suc k * 8) ≤ 2 ^ 64
    → ((acc * 2 ^ 8 % 2 ^ 64 + b) % 2 ^ 64 ≡ acc * 256 + b)
      × (suc (acc * 256 + b) * 2 ^ (k * 8) ≤ 2 ^ 64)
no_wrap acc b k hb h = omega (arith, scaled, positive)
  where
    scaled : suc acc * 2 ^ (suc k * 8) ≡ suc acc * (2 ^ (k * 8) * 256)
    scaled = ap (λ (t : ℕ). suc acc * t) (pow_eight k)

    one : 1 ≤ 2 ^ (k * 8)
    one = one-le-pow (k * 8) 2 (omega arith)

    positive : (suc acc ≤ suc acc * 2 ^ (k * 8)) × (b * 2 ^ (k * 8) ≤ 255 * 2 ^ (k * 8))
    positive = grind (arith, one)

-- The size that the reader computes determines the bytes that it came from.
size_value-inverse :
    (bs : List ℕ) (acc : ℕ)
    → All IsByte bs
    → suc acc * 2 ^ (length bs * 8) ≤ 2 ^ 64
    → (size_value acc bs / 2 ^ (length bs * 8) ≡ acc)
      × (size_bytes (length bs) (size_value acc bs) ≡ bs)
unfolding size_value size_bytes
size_value-inverse [] acc all h = (div-one acc, refl)
size_value-inverse (b ∷ bs) acc all h =
    let (value, bound) = no_wrap acc b (length bs) all.0 h in
    let (top, low) = size_value-inverse bs (acc * 256 + b) all.1 bound in
    rw (value, top_bytes (length bs), top, low)
      (omega (arith, all.0), ap (λ t. t ∷ bs) (omega (arith, all.0)))

size_bytes-size_value :
    (left : List ℕ)
    → length left ≤ 8
    → All IsByte left
    → (size_value 0 left / 2 ^ (length left * 8) ≡ 0)
      × (size_bytes (length left) (size_value 0 left) ≡ left)
size_bytes-size_value left h all = size_value-inverse left 0 all (
    omega
      (arith, pow-le-pow_right {n = 2} (omega arith) {i = length left * 8} {j = 64} (omega arith)))

-- What `read_size` has seen when it succeeds.
read_size-inverse :
    (width : ℕ) (bs rest : List ℕ) (size : ℕ)
    → width ≤ 8
    → All IsByte bs
    → read_size width bs ≡ ok (size, rest)
    → (bs ≡ size_bytes width size ++ rest)
      × (size / 2 ^ (width * 8) ≡ 0)
      × (is_minimal width size ≡ true)
unfolding read_size
read_size-inverse width bs rest size hw all h = elim (Option-cases (read_bytes width bs)) [
  | inl e ↦ cc (rw (e, read_size) at h)
  | inr ((left, right), e) ↦
      let (split, len) = read_bytes-eq-some width bs left right e in
      let bytes : All IsByte left =
        All-append_left IsByte left right (subst (All IsByte) split all) in
      let (top, low) = size_bytes-size_value left (omega (arith, len)) bytes in
      ground (arith, e, split, len, top, low)
]

-- The code and the bytes of a size are those that the writer produces for that size.
pub read_variadic-inverse :
    (info : ℕ) (bs rest : List ℕ) (size : ℕ)
    → All IsByte bs
    → read_variadic_length_integer info bs ≡ ok (size, rest)
    → (info ≡ size_info size) × (bs ≡ size_bytes (size_shift size) size ++ rest) × (size < 2 ^ 64)
unfolding read_variadic_length_integer size_info size_shift size_bytes is_minimal
read_variadic-inverse info bs rest size all h = ground (
  arith,
  read_size-inverse 1 bs rest size,
  read_size-inverse 2 bs rest size,
  read_size-inverse 4 bs rest size,
  read_size-inverse 8 bs rest size,
)
