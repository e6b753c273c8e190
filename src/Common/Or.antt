-- ===== src/Common/Or.antt =====
-- `|` on numbers whose bits do not overlap is their sum, from the digit recursion that the native
-- operation stands for.
use Prim.Native.Nat.{
  ℕ, zero, suc, ◌+◌, ◌*◌, ◌/◌, ◌%◌, ◌^◌, ◌≤◌, ◌<◌, max, bit_or, digits, bit_or-bitwise,
}
use mathlib.Core.Path.{◌≡◌, refl, ap}
use native.Mathlib.Omega.{arith}
use native.Mathlib.Nat.{pow-suc}

abbrev or_digits : ℕ → ℕ → ℕ → ℕ
or_digits n a b = digits (λ b. b) max n a b

or_digits_fuel : (n m a b : ℕ) → a ≤ n → a ≤ m → or_digits n a b ≡ or_digits m a b
or_digits_fuel zero zero a b p q = refl
or_digits_fuel zero (suc m) zero b p q = refl
or_digits_fuel zero (suc m) (suc a) b p q = absurd (omega arith)
or_digits_fuel (suc n) zero zero b p q = refl
or_digits_fuel (suc n) zero (suc a) b p q = absurd (omega arith)
or_digits_fuel (suc n) (suc m) zero b p q = refl
or_digits_fuel (suc n) (suc m) (suc a) b p q =
    omega (arith, or_digits_fuel n m (suc a / 2) (b / 2) (omega arith) (omega arith))

zero-bit_or : (b : ℕ) → bit_or 0 b ≡ b
zero-bit_or b = bit_or-bitwise 0 b

-- One digit of each operand.
pub bit_or_step : (m n : ℕ) → bit_or m n ≡ max (m % 2) (n % 2) + bit_or (m / 2) (n / 2) * 2
bit_or_step zero n = omega (arith, zero-bit_or n, zero-bit_or (n / 2))
bit_or_step (suc m) n = omega (
  arith,
  or_digits_fuel m (suc m / 2) (suc m / 2) (n / 2) (omega arith) (omega arith),
  bit_or-bitwise (suc m) n,
  bit_or-bitwise (suc m / 2) (n / 2),
)

bit_or-zero_fuel : (n a : ℕ) → a ≤ n → bit_or a 0 ≡ a
bit_or-zero_fuel n zero h = zero-bit_or 0
bit_or-zero_fuel zero (suc a) h = absurd (omega arith)
bit_or-zero_fuel (suc n) (suc a) h =
    omega (arith, bit_or_step (suc a) 0, bit_or-zero_fuel n (suc a / 2) (omega arith))

-- A high part that starts at bit `k`, and a low part below it.
pub bit_or_disjoint :
    (k high low : ℕ) → low < 2 ^ k → bit_or (high * 2 ^ k) low ≡ high * 2 ^ k + low
bit_or_disjoint zero high low h =
    let none : low ≡ 0 = omega arith in
    rw none (omega (arith, bit_or-zero_fuel (high * 1) (high * 1) (omega arith)))
bit_or_disjoint (suc k) high low h = omega (
  arith,
  bit_or_step (high * 2 ^ suc k) low,
  ap (λ (p : ℕ). high * p) (pow-suc 2 k),
  pow-suc 2 k,
  half,
  bit_or_disjoint k high (low / 2) (omega (arith, pow-suc 2 k)),
)
  where
    half : bit_or (high * 2 ^ suc k / 2) (low / 2) ≡ bit_or (high * 2 ^ k) (low / 2)
    half =
        ap (λ (t : ℕ). bit_or t (low / 2)) (omega (arith, ap (λ (p : ℕ). high * p) (pow-suc 2 k)))
