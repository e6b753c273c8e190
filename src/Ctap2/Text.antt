-- ===== src/Ctap2/Text.antt =====
-- `truncate_to_char_boundary` of src/ctap/mod.rs.
use open_sk.Common.{ℕ, zero, suc, Bool, true, ◌||◌, List, [], ◌∷◌, take, drop, length}
use open_sk.Common.{leb, ltb, if◌then◌else◌}

-- The byte is no continuation byte of UTF-8.
abbrev pub is_start : ℕ → Bool
is_start b = ltb b 0x80 || leb 0xc0 b

abbrev pub starts : List ℕ → Bool
starts [] = true
starts (b ∷ bytes) = is_start b

-- `str::is_char_boundary`, for an index within the string.
unfoldable pub is_char_boundary : List ℕ → ℕ → Bool
is_char_boundary s zero = true
is_char_boundary s (suc i) = starts (drop (suc i) s)

-- The loop that lowers `max`. The index 0 is a boundary, so that it ends there.
unfoldable pub lower : List ℕ → ℕ → ℕ
lower s zero = zero
lower s (suc max) =
    let lowered = lower s max in if is_char_boundary s (suc max) then suc max else lowered

unfoldable pub truncate_to_char_boundary : List ℕ → ℕ → List ℕ
truncate_to_char_boundary s max = if leb (length s) max then s else take (lower s max) s
