-- ===== src/Cbor/Size.antt =====
-- The size of an item, as writer.rs puts it in the head and reader.rs reads it back.
use open_sk.Common.{ℕ, zero, suc, ◌+◌, ◌*◌, ◌/◌, ◌%◌, ◌^◌, ◌<◌, ◌≡◌, refl, ap, ◌∙◌, sym, arith}
use open_sk.Common.{true, List, ◌++◌, length}
use open_sk.Common.{length-append, take-append, drop-append, some, All}
use open_sk.Common.Bits.{IsByte}
use open_sk.Cbor.Writer.{size_info, size_bytes, size_shift}
use open_sk.Cbor.Reader.{ok, read_bytes, size_value, is_minimal, read_size}
use open_sk.Cbor.Reader.{read_variadic_length_integer}
use native.Mathlib.Nat.{div-le_self, div-div-eq-div-mul, div-one}
use native.Mathlib.Numerals.{towards_suc}

pub length-size_bytes : (k size : ℕ) → length (size_bytes k size) ≡ k
unfolding size_bytes
length-size_bytes zero size = refl
length-size_bytes (suc k) size = ap suc (length-size_bytes k size)

pub size_bytes-IsByte : (k size : ℕ) → All IsByte (size_bytes k size)
unfolding size_bytes
size_bytes-IsByte zero size = tt
size_bytes-IsByte (suc k) size = (omega arith, size_bytes-IsByte k size)

pub pow_eight : (k : ℕ) → 2 ^ (suc k * 8) ≡ 2 ^ (k * 8) * 256
pow_eight k = ap (λ (e : ℕ). 2 ^ e) eight ∙ simp towards_suc (omega arith)
  where
    eight : suc k * 8 ≡ k * 8 + 8
    eight = omega arith

pub top_bytes : (k size : ℕ) → size / 2 ^ (suc k * 8) ≡ size / 2 ^ (k * 8) / 256
top_bytes k size = rw (pow_eight k) (sym (div-div-eq-div-mul size (2 ^ (k * 8)) 256))

-- Each round moves one more byte of `size` into the accumulator.
size_value-size_bytes :
    (k size : ℕ) → size < 2 ^ 64 → size_value (size / 2 ^ (k * 8)) (size_bytes k size) ≡ size
unfolding size_value size_bytes
size_value-size_bytes zero size h = div-one size
size_value-size_bytes (suc k) size h = rw (round, size_value) (size_value-size_bytes k size h)
  where
    bound : size / 2 ^ (k * 8) < 2 ^ 64
    bound = omega (arith, div-le_self size (2 ^ (k * 8)))

    round :
        (size / 2 ^ (suc k * 8) * 2 ^ 8 % 2 ^ 64 + size / 2 ^ (k * 8) % 256) % 2 ^ 64
        ≡ size / 2 ^ (k * 8)
    round = rw (top_bytes k size) (omega (arith, bound))

pub read_bytes-append : (xs ys : List ℕ) → read_bytes (length xs) (xs ++ ys) ≡ some (xs, ys)
unfolding read_bytes
read_bytes-append xs ys = ground (arith, length-append xs ys, take-append xs ys, drop-append xs ys)

pub read_bytes_exact :
    (n : ℕ) (xs ys : List ℕ) → length xs ≡ n → read_bytes n (xs ++ ys) ≡ some (xs, ys)
read_bytes_exact n xs ys e = rw (← e) (read_bytes-append xs ys)

read_size-size_bytes :
    (width size : ℕ) (rest : List ℕ)
    → size < 2 ^ 64
    → size / 2 ^ (width * 8) ≡ 0
    → is_minimal width size ≡ true
    → read_size width (size_bytes width size ++ rest) ≡ ok (size, rest)
unfolding read_size
read_size-size_bytes width size rest h fits minimal =
    rw (read_bytes_exact width _ rest (length-size_bytes width size), value, minimal, read_size)
  where
    value : size_value 0 (size_bytes width size) ≡ size
    value = rw fits at (size_value-size_bytes width size h)

-- The reader takes the size back from the bytes that the writer put behind the first one.
pub read_variadic-size :
    (size : ℕ) (rest : List ℕ)
    → size < 2 ^ 64
    → read_variadic_length_integer (size_info size) (size_bytes (size_shift size) size ++ rest)
      ≡ ok (size, rest)
unfolding read_variadic_length_integer size_info size_shift size_bytes is_minimal
read_variadic-size size rest h = ground (
  arith,
  read_size-size_bytes 1 size rest,
  read_size-size_bytes 2 size rest,
  read_size-size_bytes 4 size rest,
  read_size-size_bytes 8 size rest,
)
