-- ===== src/Store/Bitfield.antt =====
-- libraries/persistent_store/src/format/bitfield.rs: bit fields of a word, as flash can write them.
use native.Mathlib.Nat.{pow-suc}
use open_sk.Common.{
  ℕ, zero, suc, ◌+◌, ◌-◌, ◌*◌, ◌/◌, ◌%◌, ◌^◌, ◌≤◌, ◌<◌, ◌≡◌, ap, arith, bit_and, bit_or,
}
use open_sk.Common.{◌∙◌, ◌⊎◌, inl, inr, not, ◌==◌, if◌then◌else◌}
use open_sk.Common.Results.{Result, ok, err}
use open_sk.Store.Interface.{StoreError, invalid_storage}
use open_sk.Store.Digits.{
  double_pow, pow_positive, bit, complement, bit-bit_and, bit-bit_or, bit-le_one, bit_shift_left,
}
use open_sk.Store.Digits.{bit_below_shift, bit_mask_above, bit-complement}

-- `Word` and `Nat` are u32.
abbrev pub Word : Type 0
Word = ℕ

pub record Field : Type 0 where
  pub pos : ℕ
  pub len : ℕ

abbrev pub mask : Field → ℕ
mask field = 2 ^ field.len - 1

unfoldable pub get : Field → Word → ℕ
get field word = bit_and (word / 2 ^ field.pos) (mask field)

-- The word that the field is cleared in.
unfoldable pub cleared : Field → Word → ℕ → Word
cleared field word value =
    bit_and word (
      bit_or (complement 32 (mask field * 2 ^ field.pos % 2 ^ 32)) (value * 2 ^ field.pos % 2 ^ 32))

-- The word after the call, and the result. Where the second test fails the word has changed.
unfoldable pub set : Field → Word → ℕ → Word × Result {0, 0} Unit StoreError
set field word value =
    let word' = cleared field word value in
    if not (bit_and value (mask field) == value)
    then (word, err invalid_storage)
    else if not (get field word' == value)
    then (word', err invalid_storage)
    else (word', ok tt)

-- The field fits the word. The mask is a shift by less than 32.
pub record IsField (field : Field) : Type 0 where
  pub fits : field.pos + field.len ≤ 32
  pub small : field.len < 32

pow_monotone : (l w : ℕ) → l ≤ w → 2 ^ l ≤ 2 ^ w
pow_monotone zero w h = omega (arith, pow_positive w)
pow_monotone (suc l) zero h = absurd (omega arith)
pow_monotone (suc l) (suc w) h =
    omega (arith, pow-suc 2 l, pow-suc 2 w, pow_monotone l w (omega arith))

-- A shifted mask fits the word.
mask_bound : (p l w : ℕ) → p + l ≤ w → (2 ^ l - 1) * 2 ^ p < 2 ^ w
mask_bound zero l w h = omega (arith, pow_monotone l w (omega (arith, h)), pow_positive l)
mask_bound (suc p) l zero h = absurd (omega (arith, h))
mask_bound (suc p) l (suc w) h =
    omega (arith, double_pow (2 ^ l - 1) p, pow-suc 2 w, mask_bound p l w (omega (arith, h)))

-- Outside of the field the shifted mask has no digit.
bit_mask_outside : (p l i : ℕ) → (i < p) ⊎ (p + l ≤ i) → bit i ((2 ^ l - 1) * 2 ^ p) ≡ 0
bit_mask_outside p l i (inl below) = bit_below_shift p i (2 ^ l - 1) below
bit_mask_outside p l i (inr above) =
    bit_shift_left p (i - p) i (2 ^ l - 1) (omega (arith, above))
    ∙ bit_mask_above l (i - p) (omega (arith, above))

bit-cleared_outside :
    (field : Field) (word value i : ℕ)
    → IsField field
    → i < 32
    → (i < field.pos) ⊎ (field.pos + field.len ≤ i)
    → bit i (cleared field word value) ≡ bit i word
unfolding cleared
bit-cleared_outside field word value i f hi out =
    let shifted = mask field * 2 ^ field.pos in
    let other = value * 2 ^ field.pos % 2 ^ 32 in
    let bound = mask_bound field.pos field.len 32 f.fits in
    let whole : shifted % 2 ^ 32 ≡ shifted = omega (arith, bound) in
    omega (
      arith,
      bit-bit_and i word (bit_or (complement 32 (shifted % 2 ^ 32)) other),
      bit-bit_or i (complement 32 (shifted % 2 ^ 32)) other,
      bit-complement 32 i (shifted % 2 ^ 32) hi (omega arith),
      ap (bit i) whole,
      bit_mask_outside field.pos field.len i out,
      bit-le_one i other,
      bit-le_one i word,
    )

bit-cleared-le : (field : Field) (word value i : ℕ) → bit i (cleared field word value) ≤ bit i word
unfolding cleared
bit-cleared-le field word value i = omega (arith, bit-bit_and i word _)

place : (p l i : ℕ) → ((i < p) ⊎ (p + l ≤ i)) ⊎ ((p ≤ i) × (i < p + l))
place p l i = ground arith

set-cases :
    (field : Field) (word value word' : ℕ)
    → set field word value ≡ (word', ok tt)
    → (word' ≡ cleared field word value) × (get field (cleared field word value) ≡ value)
unfolding set
set-cases field word value word' e = ground arith

-- Where a field that fits the word is set to a value, the value is read back from it, the write turns
-- no digit of the word from 0 to 1, as flash demands, and it changes no digit outside of the field.
pub set-ok :
    (field : Field) (word value word' : ℕ) (i : ℕ)
    → IsField field
    → i < 32
    → set field word value ≡ (word', ok tt)
    → (get field word' ≡ value)
      × (bit i word' ≤ bit i word)
      × ((bit i word' ≡ bit i word) ⊎ ((field.pos ≤ i) × (i < field.pos + field.len)))
unfolding set
set-ok field word value word' i f hi e =
    let (is, found) = set-cases field word value word' e in
    rw is (
      found,
      bit-cleared-le field word value i,
      elim (place field.pos field.len i) [
        | inl out ↦ inl (bit-cleared_outside field word value i f hi out)
        | inr inside ↦ inr inside
      ],
    )
