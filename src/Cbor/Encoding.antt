-- ===== src/Cbor/Encoding.antt =====
-- What the writer is to produce: the encoding of a value as a function of the value alone, how deep
-- a value nests, and which values the Rust types can hold.
use open_sk.Common.{ℕ, suc, ◌+◌, ◌*◌, ◌^◌, ◌<◌, ◌≡◌, max, Ordering, true}
use open_sk.Common.{Option, none, some, List, [], ◌∷◌, ◌++◌, length, All}
use open_sk.Common.Bits.{IsByte}
use open_sk.Common.Int.{ℤ, pos, negsuc}
use open_sk.Cbor.Utf8.{is_utf8}
use open_sk.Cbor.Values.{KeyType, unsigned, negative, byte_string, text_string, simple_code, cmp}
use open_sk.Cbor.Values.{Value, Items, Entries, key_value, array, map, simple}
use open_sk.Cbor.Values.{no_items, item, no_entries, entry}
use open_sk.Cbor.Writer.{size_info, size_bytes, size_shift, negative_size, items_len, entries_len}

-- The first byte of an item, and the bytes of its size.
unfoldable pub head : ℕ → ℕ → List ℕ
head label size = (label * 32 + size_info size) ∷ size_bytes (size_shift size) size

unfoldable pub encoding_key : KeyType → List ℕ
encoding_key (unsigned n) = head 0 n
encoding_key (negative z) = head 1 (negative_size z)
encoding_key (byte_string bytes) = head 2 (length bytes) ++ bytes
encoding_key (text_string text) = head 3 (length text) ++ text

unfoldable mutual
  pub encoding : Value → List ℕ
  encoding (key_value k) = encoding_key k
  encoding (array xs) = head 4 (items_len xs) ++ encoding_items xs
  encoding (map es) = head 5 (entries_len es) ++ encoding_entries es
  encoding (simple s) = head 7 (simple_code s)

  pub encoding_items : Items → List ℕ
  encoding_items no_items = []
  encoding_items (item v xs) = encoding v ++ encoding_items xs

  pub encoding_entries : Entries → List ℕ
  encoding_entries no_entries = []
  encoding_entries (entry k v es) = encoding_key k ++ (encoding v ++ encoding_entries es)

unfoldable mutual
  pub depth : Value → ℕ
  depth (key_value k) = 1
  depth (array xs) = suc (depth_items xs)
  depth (map es) = suc (depth_entries es)
  depth (simple s) = 1

  pub depth_items : Items → ℕ
  depth_items no_items = 0
  depth_items (item v xs) = max (depth v) (depth_items xs)

  pub depth_entries : Entries → ℕ
  depth_entries no_entries = 0
  depth_entries (entry k v es) = max (depth v) (depth_entries es)

-- An i64 of a `Negative` key is below 0 and not below -(2 ^ 63).
abbrev pub IsNegative : ℤ → Type 0
IsNegative (pos n) = ⊥
IsNegative (negsuc n) = n < 2 ^ 63

-- `bits` is the width of usize, the type of a length.
abbrev pub IsKey : ℕ → KeyType → Type 0
IsKey bits (unsigned n) = n < 2 ^ 64
IsKey bits (negative z) = IsNegative z
IsKey bits (byte_string bytes) = All IsByte bytes × (length bytes < 2 ^ bits)
IsKey bits (text_string text) = All IsByte text × (length text < 2 ^ bits) × (is_utf8 text ≡ true)

-- The next key of a map is greater than the key before it.
abbrev pub Follows : Option KeyType → KeyType → Type 0
Follows none k = Unit
Follows (some last) k = cmp last k ≡ Ordering.lt

-- Keys and sizes fit their types, and the keys of a map ascend, as in any BTreeMap.
unfoldable mutual
  pub IsWf : ℕ → Value → Type 0
  IsWf bits (key_value k) = IsKey bits k
  IsWf bits (array xs) = (items_len xs < 2 ^ bits) × AreWf bits xs
  IsWf bits (map es) = (entries_len es < 2 ^ bits) × AreSorted bits none es
  IsWf bits (simple s) = Unit

  pub AreWf : ℕ → Items → Type 0
  AreWf bits no_items = Unit
  AreWf bits (item v xs) = IsWf bits v × AreWf bits xs

  pub AreSorted : ℕ → Option KeyType → Entries → Type 0
  AreSorted bits last no_entries = Unit
  AreSorted bits last (entry k v es) =
      Follows last k × IsKey bits k × IsWf bits v × AreSorted bits (some k) es
