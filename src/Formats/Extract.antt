-- ===== src/Formats/Extract.antt =====
-- The `extract` functions of src/ctap/data_formats.rs, and what the conversions build on them.
use open_sk.Common.{ℕ, ◌-◌, ◌^◌, Bool, true, false, List, [], ◌∷◌, Option, none, some, get_or}
use open_sk.Common.{leb, if◌then◌else◌}
use open_sk.Common.Int.{ℤ, pos}
use open_sk.Common.Results.{Result, ok, err, ◌>>=◌, ok_or}
use open_sk.Cbor.Values.{KeyType, unsigned, negative, byte_string, text_string, Value, key_value}
use open_sk.Cbor.Values.{
  array, map, simple, Items, no_items, item, Entries, false_value, true_value,
}
use open_sk.Cbor.Macros.{destructure_cbor_map}
use open_sk.Ctap.Status.{Ctap2StatusCode, ctap2_err_cbor_unexpected_type}
use open_sk.Ctap.Status.{ctap2_err_missing_parameter}

abbrev pub Parsed : Type 0 → Type 0
Parsed A = Result A Ctap2StatusCode

unfoldable pub extract_unsigned : Value → Parsed ℕ
extract_unsigned (key_value (unsigned n)) = ok n
extract_unsigned _ = err ctap2_err_cbor_unexpected_type

unfoldable pub extract_integer : Value → Parsed ℤ
extract_integer (key_value (unsigned n)) =
    if leb n (2 ^ 63 - 1) then ok (pos n) else err ctap2_err_cbor_unexpected_type
extract_integer (key_value (negative z)) = ok z
extract_integer _ = err ctap2_err_cbor_unexpected_type

unfoldable pub extract_byte_string : Value → Parsed (List ℕ)
extract_byte_string (key_value (byte_string b)) = ok b
extract_byte_string _ = err ctap2_err_cbor_unexpected_type

unfoldable pub extract_text_string : Value → Parsed (List ℕ)
extract_text_string (key_value (text_string t)) = ok t
extract_text_string _ = err ctap2_err_cbor_unexpected_type

unfoldable pub extract_array : Value → Parsed Items
extract_array (array xs) = ok xs
extract_array _ = err ctap2_err_cbor_unexpected_type

unfoldable pub extract_map : Value → Parsed Entries
extract_map (map es) = ok es
extract_map _ = err ctap2_err_cbor_unexpected_type

unfoldable pub extract_bool : Value → Parsed Bool
extract_bool (simple false_value) = ok false
extract_bool (simple true_value) = ok true
extract_bool _ = err ctap2_err_cbor_unexpected_type

module _ {A : Type 0} where
  abbrev pub ok_or_missing : Option A → Parsed A
  ok_or_missing o = ok_or o ctap2_err_missing_parameter

module _ {A : Type 0} where
  -- A value that has to be there.
  abbrev pub needed : (Value → Parsed A) → Option Value → Parsed A
  needed convert o = do v ← ok_or_missing o; convert v

  -- `map(convert).transpose()?`
  abbrev pub optional : (Value → Parsed A) → Option Value → Parsed (Option A)
  optional convert none = ok none
  optional convert (some v) = do a ← convert v; ok (some a)

  -- `map_or(Ok(default), convert)?`
  abbrev pub defaulting : A → (Value → Parsed A) → Option Value → Parsed A
  defaulting default convert none = ok default
  defaulting default convert (some v) = convert v

  -- `into_iter().map(convert).collect()?`
  unfoldable pub collected : (Value → Parsed A) → Items → Parsed (List A)
  collected convert no_items = ok []
  collected convert (item v xs) =
      let rest = collected convert xs in (do a ← convert v; later ← rest; ok (a ∷ later))

  abbrev pub extract_list : (Value → Parsed A) → Value → Parsed (List A)
  extract_list convert v = do xs ← extract_array v; collected convert xs

  -- A conversion that destructures a map by keys, and reads the values of the keys.
  abbrev pub from_map : List KeyType → (List (Option Value) → Parsed A) → Value → Parsed A
  from_map keys read v = do es ← extract_map v; read (destructure_cbor_map keys es)

-- The value of the key at a position.
abbrev pub field : ℕ → List (Option Value) → Option Value
field i fields = get_or fields i none
