-- ===== src/Cbor/Reader.antt =====
-- libraries/cbor/src/reader.rs: the reader, with the remaining input passed along. As in the writer,
-- `depth` is `remaining_depth + 1`. `bits` is the width of usize, 32 on the security key.
use open_sk.Common.{ℕ, zero, suc, ◌+◌, ◌*◌, ◌/◌, ◌%◌, ◌^◌, Bool, true, false, ◌&&◌, ◌||◌, not}
use open_sk.Common.{List, [], ◌∷◌, length, take, drop, ltb, leb, ◌==◌, if◌then◌else◌}
use open_sk.Common.{Option, none, some, bit_and, Ordering}
use open_sk.Common.Int.{negsuc}
use open_sk.Cbor.Utf8.{is_utf8}
use open_sk.Cbor.Values.{KeyType, unsigned, negative, byte_string, text_string, cmp, from_integer}
use open_sk.Cbor.Values.{Value, Items, Entries, key_value, array, map, simple}
use open_sk.Cbor.Values.{no_items, item, no_entries, entry}
use open_sk.Common.Results
pub use open_sk.Common.Results.{ok, err, ◌>>=◌}

pub data DecoderError : Type 0 where
  unsupported_major_type unknown_additional_info incomplete_cbor_data : DecoderError
  incorrect_map_key_type too_much_nesting invalid_utf8 extranous_data : DecoderError
  out_of_order_key non_minimal_cbor_encoding unsupported_simple_value : DecoderError
  unsupported_floating_point_value out_of_range_integer_value : DecoderError

abbrev pub Result : Type 0 → Type 0
Result A = Results.Result A DecoderError

-- A read takes the remaining input, and returns a value with what it leaves of the input.
abbrev pub Reader : Type 0 → Type 0
Reader A = List ℕ → Result (A × List ℕ)

unfoldable pub read_bytes : ℕ → List ℕ → Option (List ℕ × List ℕ)
read_bytes n bs = if ltb (length bs) n then none else some (take n bs, drop n bs)

-- `size_value <<= 8; size_value += byte`, over the bytes of the size.
unfoldable pub size_value : ℕ → List ℕ → ℕ
size_value acc [] = acc
size_value acc (b ∷ bs) = size_value ((acc * 2 ^ 8 % 2 ^ 64 + b) % 2 ^ 64) bs

unfoldable pub is_minimal : ℕ → ℕ → Bool
is_minimal width size = not ((width == 1 && ltb size 24) || ltb size (2 ^ (8 * (width / 2))))

unfoldable pub read_size : ℕ → Reader ℕ
read_size width bs = elim (read_bytes width bs) [
  | none ↦ err incomplete_cbor_data
  | some (left, right) ↦
      let size = size_value 0 left in
      if is_minimal width size then ok (size, right) else err non_minimal_cbor_encoding
]

unfoldable pub read_variadic_length_integer : ℕ → Reader ℕ
read_variadic_length_integer info bs =
    if leb info 23
    then ok (info, bs)
    else if info == 24
    then read_size 1 bs
    else if info == 25
    then read_size 2 bs
    else if info == 26
    then read_size 4 bs
    else if info == 27
    then read_size 8 bs
    else err unknown_additional_info

-- `size_value as i64` is negative from 2 ^ 63 on; else the value is `-size - 1`.
unfoldable pub decode_value_to_negative : ℕ → Reader Value
decode_value_to_negative size bs =
    if ltb size (2 ^ 63)
    then ok (key_value (negative (negsuc size)), bs)
    else err out_of_range_integer_value

-- `size_value as usize` keeps the low `bits` bits.
unfoldable pub read_byte_string_content : ℕ → ℕ → Reader Value
read_byte_string_content bits size bs = elim (read_bytes (size % 2 ^ bits) bs) [
  | none ↦ err incomplete_cbor_data
  | some (left, right) ↦ ok (key_value (byte_string left), right)
]

unfoldable pub read_text_string_content : ℕ → ℕ → Reader Value
read_text_string_content bits size bs = elim (read_bytes (size % 2 ^ bits) bs) [
  | none ↦ err incomplete_cbor_data
  | some (left, right) ↦
      if is_utf8 left then ok (key_value (text_string left), right) else err invalid_utf8
]

-- The loops make `size_value` rounds; each starts with a call of the reader at the depth below, and
-- ends the loop on its error.
unfoldable pub read_items : Reader Value → ℕ → Reader Items
read_items decode zero bs = ok (no_items, bs)
read_items decode (suc n) bs = do
  (v, bs₁) ← decode bs
  (xs, bs₂) ← read_items decode n bs₁
  ok (item v xs, bs₂)

unfoldable pub read_array_content : Reader Value → ℕ → Reader Value
read_array_content decode size bs = do (xs, rest) ← read_items decode size bs; ok (array xs, rest)

-- `BTreeMap::insert`, over the entries in the order of their keys.
unfoldable pub insert : KeyType → Value → Entries → Entries
insert k v no_entries = entry k v no_entries
insert k v (entry j w es) =
    let later = insert k v es in
    elim (cmp k j) [
      | Ordering.lt ↦ entry k v (entry j w es)
      | Ordering.eq ↦ entry j v es
      | Ordering.gt ↦ entry j w later
    ]

-- `last_key >= key`
unfoldable pub is_ge : KeyType → KeyType → Bool
is_ge a b = elim (cmp a b) [ Ordering.lt ↦ false | _ ↦ true ]

unfoldable pub in_order : Option KeyType → KeyType → Bool
in_order none key = true
in_order (some last) key = not (is_ge last key)

unfoldable pub as_key : Value → Option KeyType
as_key (key_value k) = some k
as_key _ = none

unfoldable pub read_entries : Reader Value → ℕ → Option KeyType → Entries → Reader Entries
read_entries decode zero last es bs = ok (es, bs)
read_entries decode (suc n) last es bs = do
  (v, bs₁) ← decode bs
  elim (as_key v) [
    | none ↦ err incorrect_map_key_type
    | some key ↦
        if in_order last key
        then (decode bs₁ >>= λ (w, bs₂). read_entries decode n (some key) (insert key w es) bs₂)
        else err out_of_order_key
  ]

unfoldable pub read_map_content : Reader Value → ℕ → Reader Value
read_map_content decode size bs = do
  (es, rest) ← read_entries decode size none no_entries bs
  ok (map es, rest)

unfoldable pub decode_to_simple_value : ℕ → ℕ → Reader Value
decode_to_simple_value size info bs =
    if ltb 23 info && not (info == 24)
    then err unsupported_floating_point_value
    else elim (from_integer size) [
      | none ↦ err unsupported_simple_value
      | some s ↦ ok (simple s, bs)
    ]

-- The `match` on the major type, with the reader at the depth below for the elements.
unfoldable pub read_content : ℕ → Reader Value → ℕ → ℕ → ℕ → Reader Value
read_content bits decode major info size bs =
    if major == 0
    then ok (key_value (unsigned size), bs)
    else if major == 1
    then decode_value_to_negative size bs
    else if major == 2
    then read_byte_string_content bits size bs
    else if major == 3
    then read_text_string_content bits size bs
    else if major == 4
    then read_array_content decode size bs
    else if major == 5
    then read_map_content decode size bs
    else if major == 7
    then decode_to_simple_value size info bs
    else err unsupported_major_type

unfoldable pub decode_complete_data_item : ℕ → ℕ → Reader Value
decode_complete_data_item bits zero bs = err too_much_nesting
decode_complete_data_item bits (suc depth) [] = err incomplete_cbor_data
decode_complete_data_item bits (suc depth) (first ∷ bs) =
    let info = bit_and first 0x1f in
    read_variadic_length_integer info bs >>= λ (size, rest).
    read_content bits (decode_complete_data_item bits depth) (first / 2 ^ 5) info size rest

unfoldable pub finish : Value × List ℕ → Result Value
finish (v, []) = ok v
finish (v, b ∷ bs) = err extranous_data

-- `MAX_NESTING_DEPTH` is 4.
unfoldable pub read : ℕ → List ℕ → Result Value
read bits bs = decode_complete_data_item bits (4 + 1) bs >>= finish
