-- ===== src/Cbor/Macros.antt =====
-- libraries/cbor/src/macros.rs: the macros that build maps and take values out of them.
use open_sk.Common.{ℕ, List, [], ◌∷◌, Option, none, some, Ordering}
use open_sk.Common.Int.{ℤ}
use open_sk.Cbor.Values.{KeyType, text_string, byte_string, unsigned, Value, key_value, map, Items}
use open_sk.Cbor.Values.{no_items, item, array, Entries, no_entries, entry, cmp, integer}
use open_sk.Cbor.Reader.{insert}

-- A key and the value that `cbor_map_options!` puts under it, if any.
abbrev pub Field : Type 0
Field = KeyType × Option Value

abbrev pub insert_option : Field → Entries → Entries
insert_option (k, none) es = es
insert_option (k, some v) es = insert k v es

abbrev pub insert_fields : List Field → Entries → Entries
insert_fields [] es = es
insert_fields (f ∷ fields) es = insert_fields fields (insert_option f es)

-- `cbor_map_options!`
abbrev pub cbor_map_options : List Field → Value
cbor_map_options fields = map (insert_fields fields no_entries)

abbrev pub all_some : List (KeyType × Value) → List Field
all_some [] = []
all_some ((k, v) ∷ fields) = (k, some v) ∷ all_some fields

-- `cbor_map!`
abbrev pub cbor_map : List (KeyType × Value) → Value
cbor_map fields = cbor_map_options (all_some fields)

abbrev pub items_of : List Value → Items
items_of [] = no_items
items_of (v ∷ values) = item v (items_of values)

-- `cbor_array_vec!`, whose elements are converted by the caller.
abbrev pub cbor_array_vec : List Value → Value
cbor_array_vec values = array (items_of values)

-- `cbor_unsigned!`, `cbor_int!`, `cbor_text!` and `cbor_bytes!`
abbrev pub cbor_unsigned : ℕ → Value
cbor_unsigned n = key_value (unsigned n)

abbrev pub cbor_int : ℤ → Value
cbor_int z = key_value (integer z)

abbrev pub cbor_text : List ℕ → Value
cbor_text t = key_value (text_string t)

abbrev pub cbor_bytes : List ℕ → Value
cbor_bytes b = key_value (byte_string b)

-- `destructure_cbor_map_peek_value`: the value, and what the iterator has left.
unfoldable pub peek_value : KeyType → Entries → Option Value × Entries
peek_value needle no_entries = (none, no_entries)
peek_value needle (entry key value it) =
    let later = peek_value needle it in
    elim (cmp key needle) [
      | Ordering.lt ↦ later
      | Ordering.eq ↦ (some value, it)
      | Ordering.gt ↦ (none, entry key value it)
    ]

-- `destructure_cbor_map!`: the values of the keys, in their order.
unfoldable pub destructure_cbor_map : List KeyType → Entries → List (Option Value)
destructure_cbor_map [] it = []
destructure_cbor_map (key ∷ keys) it =
    (peek_value key it).0 ∷ destructure_cbor_map keys (peek_value key it).1
