-- ===== src/Common/Xor.antt =====
-- The exclusive or of bytes.
use Prim.Native.Nat.{ℕ, ◌/◌, ◌<◌, bit_xor}
use mathlib.Core.Path.{◌≡◌, refl}
use mathlib.Core.Bool.{true}
use native.Mathlib.Omega.{arith}
use open_sk.Common.Tests.{if◌then◌else◌}
use open_sk.Common.Bits.{agree_below, agree_below→eq}

module _ (f g : ℕ → ℕ → ℕ) where
  row : ℕ → ℕ
  row a = if agree_below (f a) (g a) 256 then 1 else 0

  row-agrees : (a : ℕ) → row a ≡ 1 → agree_below (f a) (g a) 256 ≡ true
  unfolding row
  row-agrees a h = ground arith

  bytes_agree : ((a : ℕ) → a < 256 → row a ≡ 1) → (a b : ℕ) → a < 256 → b < 256 → f a b ≡ g a b
  bytes_agree h a b ha hb = agree_below→eq (f a) (g a) 256 (row-agrees a (h a ha)) b hb

xor_rows : (a : ℕ) → a < 256 → row (λ a b. bit_xor (bit_xor a b) b) (λ a b. a) a ≡ 1
unfolding agree_below row
xor_rows = agree_below→eq _ _ 256 refl

pub xor_involutive : (a b : ℕ) → a < 256 → b < 256 → bit_xor (bit_xor a b) b ≡ a
xor_involutive = bytes_agree (λ a b. bit_xor (bit_xor a b) b) (λ a b. a) xor_rows

bound_rows : (a : ℕ) → a < 256 → row (λ a b. bit_xor a b / 256) (λ a b. 0) a ≡ 1
unfolding agree_below row
bound_rows = agree_below→eq _ _ 256 refl

pub xor-IsByte : (a b : ℕ) → a < 256 → b < 256 → bit_xor a b < 256
xor-IsByte a b ha hb =
    omega (arith, bytes_agree (λ a b. bit_xor a b / 256) (λ a b. 0) bound_rows a b ha hb)
