-- ===== src/Cbor/Utf8.antt =====
-- `str::from_utf8` of Rust's core, which the reader calls on text strings: the well-formed byte
-- sequences of UTF-8, without overlong forms, surrogates and code points above 0x10FFFF.
use open_sk.Common.{ℕ, zero, suc, Bool, true, false, ◌&&◌, ◌||◌, List, [], ◌∷◌, ◌≡◌, refl}
use open_sk.Common.{ltb, leb, ◌==◌, if◌then◌else◌}

abbrev pub within : ℕ → ℕ → ℕ → Bool
within lo hi b = leb lo b && leb b hi

-- How many bytes follow a first byte.
unfoldable pub follow : ℕ → ℕ
follow b = if ltb b 0x80 then 0 else if ltb b 0xe0 then 1 else if ltb b 0xf0 then 2 else 3

unfoldable pub is_first : ℕ → Bool
is_first b = ltb b 0x80 || within 0xc2 0xf4 b

-- The range of the byte after the first one.
unfoldable pub second_low : ℕ → ℕ
second_low b = if b == 0xe0 then 0xa0 else if b == 0xf0 then 0x90 else 0x80

unfoldable pub second_high : ℕ → ℕ
second_high b = if b == 0xed then 0x9f else if b == 0xf4 then 0x8f else 0xbf

-- `need` bytes are still to come, the next one between `lo` and `hi`.
unfoldable pub utf8_rest : ℕ → ℕ → ℕ → List ℕ → Bool
utf8_rest zero lo hi [] = true
utf8_rest (suc need) lo hi [] = false
utf8_rest zero lo hi (b ∷ bs) = is_first b && utf8_rest (follow b) (second_low b) (second_high b) bs
utf8_rest (suc need) lo hi (b ∷ bs) = within lo hi b && utf8_rest need 0x80 0xbf bs

unfoldable pub is_utf8 : List ℕ → Bool
unfolding utf8_rest follow is_first second_low second_high
is_utf8 bs = utf8_rest 0 0x80 0xbf bs

-- "ü", a lone continuation byte, an overlong slash and a surrogate.
umlaut : is_utf8 (0xc3 ∷ 0xbc ∷ []) ≡ true
unfolding is_utf8
umlaut = refl

lone : is_utf8 (0x61 ∷ 0x80 ∷ []) ≡ false
unfolding is_utf8
lone = refl

overlong : is_utf8 (0xc0 ∷ 0xaf ∷ []) ≡ false
unfolding is_utf8
overlong = refl

surrogate : is_utf8 (0xed ∷ 0xa0 ∷ 0x80 ∷ []) ≡ false
unfolding is_utf8
surrogate = refl
