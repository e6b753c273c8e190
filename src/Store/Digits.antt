-- ===== src/Store/Digits.antt =====
-- The binary digits of numbers, under the operations of words of 32 bits.
use Prim.Native.Nat.{digits, bit_and-bitwise}
use native.Mathlib.Nat.{pow-suc}
use open_sk.Common.{
  ℕ, zero, suc, ◌+◌, ◌-◌, ◌*◌, ◌/◌, ◌%◌, ◌^◌, ◌≤◌, ◌<◌, ◌≡◌, refl, ap, arith, min, max, bit_and,
  bit_or,
}
use open_sk.Common.Or.{bit_or_step}
use open_sk.Common.{◌∙◌}

pub bit : ℕ → ℕ → ℕ
bit zero n = n % 2
bit (suc i) n = bit i (n / 2)

-- `!` on a word of `w` bits.
abbrev pub complement : ℕ → ℕ → ℕ
complement w n = 2 ^ w - 1 - n

-- The fuel of the native operation: more than there are digits changes nothing.
and_digits : ℕ → ℕ → ℕ → ℕ
and_digits n a b = digits (λ b. 0) min n a b

and_digits-zero : (n b : ℕ) → and_digits n 0 b ≡ 0
unfolding and_digits
and_digits-zero zero b = refl
and_digits-zero (suc n) b = refl

and_digits_enough : (a b m n : ℕ) → a ≤ n → a ≤ m → and_digits m a b ≡ and_digits n a b
unfolding and_digits
and_digits_enough zero b m n hn hm = omega (arith, and_digits-zero m b, and_digits-zero n b)
and_digits_enough (suc a) b zero n hn hm = absurd (omega arith)
and_digits_enough (suc a) b (suc m) zero hn hm = absurd (omega arith)
and_digits_enough (suc a) b (suc m) (suc n) hn hm =
    omega (arith, and_digits_enough (suc a / 2) (b / 2) m n (omega arith) (omega arith))

bit_and_step : (m n : ℕ) → bit_and m n ≡ min (m % 2) (n % 2) + bit_and (m / 2) (n / 2) * 2
unfolding and_digits
bit_and_step zero n = omega (arith, bit_and-bitwise 0 n, bit_and-bitwise 0 (n / 2))
bit_and_step (suc m) n = omega (
  arith,
  and_digits_enough (suc m / 2) (n / 2) m (suc m / 2) (omega arith) (omega arith),
  bit_and-bitwise (suc m) n,
  bit_and-bitwise (suc m / 2) (n / 2),
)

pub bit-bit_and : (i m n : ℕ) → bit i (bit_and m n) ≡ min (bit i m) (bit i n)
unfolding bit
bit-bit_and zero m n = omega (arith, bit_and_step m n)
bit-bit_and (suc i) m n =
    let half : bit_and m n / 2 ≡ bit_and (m / 2) (n / 2) = omega (arith, bit_and_step m n) in
    ap (bit i) half ∙ bit-bit_and i (m / 2) (n / 2)

pub bit-bit_or : (i m n : ℕ) → bit i (bit_or m n) ≡ max (bit i m) (bit i n)
unfolding bit
bit-bit_or zero m n = omega (arith, bit_or_step m n)
bit-bit_or (suc i) m n =
    let half : bit_or m n / 2 ≡ bit_or (m / 2) (n / 2) = omega (arith, bit_or_step m n) in
    ap (bit i) half ∙ bit-bit_or i (m / 2) (n / 2)

bit-zero : (i : ℕ) → bit i 0 ≡ 0
unfolding bit
bit-zero zero = refl
bit-zero (suc i) = bit-zero i

pub bit-le_one : (i n : ℕ) → bit i n ≤ 1
unfolding bit
bit-le_one zero n = omega arith
bit-le_one (suc i) n = bit-le_one i (n / 2)

-- A shift to the left by one more place.
pub double_pow : (n p : ℕ) → n * 2 ^ suc p ≡ n * 2 ^ p * 2
double_pow n p = grind (arith, pow-suc 2 p)

half_pow : (n p : ℕ) → n * 2 ^ suc p / 2 ≡ n * 2 ^ p
half_pow n p = omega (arith, double_pow n p)

zero_sum : (i j : ℕ) → j ≡ i + 0 → j ≡ i
zero_sum i j e = omega (arith, e)

times_one : (n : ℕ) → n * 1 ≡ n
times_one n = omega arith

pub bit_shift_left : (p i j n : ℕ) → j ≡ i + p → bit j (n * 2 ^ p) ≡ bit i n
unfolding bit
bit_shift_left zero i j n e =
    omega (arith, ap (λ k. bit k (n * 1)) (zero_sum i j e), ap (bit i) (times_one n))
bit_shift_left (suc p) i zero n e = absurd (omega (arith, e))
bit_shift_left (suc p) i (suc j) n e =
    ap (bit j) (half_pow n p) ∙ bit_shift_left p i j n (omega (arith, e))

pub bit_below_shift : (p i n : ℕ) → i < p → bit i (n * 2 ^ p) ≡ 0
unfolding bit
bit_below_shift zero i n h = absurd (omega arith)
bit_below_shift (suc p) zero n h = omega (arith, double_pow n p)
bit_below_shift (suc p) (suc i) n h =
    ap (bit i) (half_pow n p) ∙ bit_below_shift p i n (omega arith)

pub pow_positive : (n : ℕ) → 0 < 2 ^ n
pow_positive zero = omega arith
pow_positive (suc n) = omega (arith, pow-suc 2 n, pow_positive n)

half_mask : (len : ℕ) → (2 ^ suc len - 1) / 2 ≡ 2 ^ len - 1
half_mask len = omega (arith, pow-suc 2 len, pow_positive len)

half_complement : (w n : ℕ) → n < 2 ^ suc w → complement (suc w) n / 2 ≡ complement w (n / 2)
half_complement w n h = omega (arith, pow-suc 2 w)

-- The digits of a mask, and of a complement.
pub bit_mask : (len i : ℕ) → i < len → bit i (2 ^ len - 1) ≡ 1
unfolding bit
bit_mask zero i h = absurd (omega arith)
bit_mask (suc len) zero h = omega (arith, pow-suc 2 len, pow_positive len)
bit_mask (suc len) (suc i) h = ap (bit i) (half_mask len) ∙ bit_mask len i (omega arith)

pub bit_mask_above : (len i : ℕ) → len ≤ i → bit i (2 ^ len - 1) ≡ 0
unfolding bit
bit_mask_above zero i h = bit-zero i
bit_mask_above (suc len) zero h = absurd (omega arith)
bit_mask_above (suc len) (suc i) h = ap (bit i) (half_mask len) ∙ bit_mask_above len i (omega arith)

pub bit-complement : (w i n : ℕ) → i < w → n < 2 ^ w → bit i (complement w n) ≡ 1 - bit i n
unfolding bit
bit-complement zero i n hi hn = absurd (omega arith)
bit-complement (suc w) zero n hi hn = omega (arith, pow-suc 2 w)
bit-complement (suc w) (suc i) n hi hn =
    ap (bit i) (half_complement w n hn)
    ∙ bit-complement w i (n / 2) (omega arith) (omega (arith, pow-suc 2 w))
