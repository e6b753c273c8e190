-- ===== src/Ctap2/Cropping.antt =====
-- `truncate_to_char_boundary` of src/ctap/mod.rs gives the longest prefix in UTF-8 that fits.
use open_sk.Common.{ℕ, zero, suc, ◌≤◌, ◌≡◌, refl, arith, ap, true}
use open_sk.Common.{List, [], ◌∷◌, length, take, drop, take_all, length-take, leb}
use open_sk.Common.{Bool-cases, inl, inr}
use open_sk.Cbor.Utf8.{is_utf8, utf8_rest, follow, is_first, second_low, second_high}
use open_sk.Ctap2.Text.{starts, is_char_boundary, lower, truncate_to_char_boundary}

-- The bytes after the first one are continuation bytes.
second_range : (b : ℕ) → (0x80 ≤ second_low b) × (second_high b ≤ 0xbf)
unfolding second_low second_high
second_range b = (ground arith, ground arith)

-- A cut before a first byte, or at the end, leaves UTF-8.
utf8_rest-take :
    (need lo hi n : ℕ) (s : List ℕ)
    → 0x80 ≤ lo
    → hi ≤ 0xbf
    → utf8_rest need lo hi s ≡ true
    → n ≤ length s
    → starts (drop n s) ≡ true
    → utf8_rest need lo hi (take n s) ≡ true
unfolding utf8_rest
utf8_rest-take zero lo hi zero s l h u le b = refl
utf8_rest-take (suc need) lo hi zero [] l h u le b = u
utf8_rest-take (suc need) lo hi zero (c ∷ s) l h u le b = absurd (ground arith)
utf8_rest-take need lo hi (suc n) [] l h u le b = absurd (omega arith)
utf8_rest-take zero lo hi (suc n) (c ∷ s) l h u le b = ground (
  arith,
  utf8_rest-take (follow c) (second_low c) (second_high c) n s (second_range c).0
      (second_range c).1,
)
utf8_rest-take (suc need) lo hi (suc n) (c ∷ s) l h u le b =
    ground (arith, utf8_rest-take need 0x80 0xbf n s (omega arith) (omega arith))

-- Where a string and its prefix are UTF-8, the cut is before a first byte or at the end.
utf8_rest-starts :
    (need lo hi n : ℕ) (s : List ℕ)
    → utf8_rest need lo hi s ≡ true
    → utf8_rest need lo hi (take n s) ≡ true
    → starts (drop n s) ≡ true
unfolding utf8_rest is_first
utf8_rest-starts need lo hi zero [] u p = refl
utf8_rest-starts zero lo hi zero (c ∷ s) u p = ground arith
utf8_rest-starts (suc need) lo hi zero (c ∷ s) u p = absurd cc
utf8_rest-starts need lo hi (suc n) [] u p = refl
utf8_rest-starts zero lo hi (suc n) (c ∷ s) u p =
    ground (arith, utf8_rest-starts (follow c) (second_low c) (second_high c) n s)
utf8_rest-starts (suc need) lo hi (suc n) (c ∷ s) u p =
    ground (arith, utf8_rest-starts need 0x80 0xbf n s)

lower-le : (s : List ℕ) (max : ℕ) → lower s max ≤ max
unfolding lower
lower-le s zero = omega arith
lower-le s (suc max) = ground (arith, lower-le s max)

lower-boundary : (s : List ℕ) (max : ℕ) → is_char_boundary s (lower s max) ≡ true
unfolding lower is_char_boundary
lower-boundary s zero = refl
lower-boundary s (suc max) = ground (arith, lower-boundary s max)

lower-last : (s : List ℕ) (max n : ℕ) → n ≤ max → is_char_boundary s n ≡ true → n ≤ lower s max
unfolding lower
lower-last s zero n le b = le
lower-last s (suc max) n le b = ground (arith, lower-last s max n)

is_utf8-take :
    (s : List ℕ) (n : ℕ)
    → is_utf8 s ≡ true
    → n ≤ length s
    → is_char_boundary s n ≡ true
    → is_utf8 (take n s) ≡ true
unfolding is_utf8 is_char_boundary utf8_rest
is_utf8-take s zero u le b = refl
is_utf8-take s (suc n) u le b =
    utf8_rest-take 0 0x80 0xbf (suc n) s (omega arith) (omega arith) u le b

is_utf8-boundary :
    (s : List ℕ) (n : ℕ)
    → is_utf8 s ≡ true
    → is_utf8 (take n s) ≡ true
    → is_char_boundary s n ≡ true
unfolding is_utf8 is_char_boundary
is_utf8-boundary s zero u p = refl
is_utf8-boundary s (suc n) u p = utf8_rest-starts 0 0x80 0xbf (suc n) s u p

-- A string in UTF-8 is cut to one in UTF-8 of at most `max` bytes, which is a prefix of it, and the
-- longest such: a prefix of at most `max` bytes that is in UTF-8 is no longer than the cut one.
pub truncate_to_char_boundary-longest :
    (s : List ℕ) (max n : ℕ)
    → is_utf8 s ≡ true
    → n ≤ max
    → n ≤ length s
    → is_utf8 (take n s) ≡ true
    → let cut = truncate_to_char_boundary s max in
      (length cut ≤ max) × (is_utf8 cut ≡ true) × (take (length cut) s ≡ cut) × (n ≤ length cut)
unfolding truncate_to_char_boundary
truncate_to_char_boundary-longest s max n u le le' p = elim (Bool-cases (leb (length s) max)) [
  | inl e ↦ rw e (ground arith, u, take_all (length s) s (omega arith), le')
  | inr e ↦
      let size : length (take (lower s max) s) ≡ lower s max =
        ground (arith, length-take (lower s max) s, lower-le s max) in
      rw e (
        omega (arith, size, lower-le s max),
        is_utf8-take s (lower s max) u (ground (arith, lower-le s max)) (lower-boundary s max),
        ap (λ n. take n s) size,
        omega (arith, size, lower-last s max n le (is_utf8-boundary s n u p)),
      )
]
