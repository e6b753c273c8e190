-- ===== src/Cbor/Written.antt =====
-- The writer of libraries/cbor/src/writer.rs against the encoding as a function of the value.
use open_sk.Common.{ℕ, zero, suc, ◌≤◌, ◌<◌, ◌≡◌, refl, arith, true, false}
use open_sk.Common.{
  List, ◌++◌, append_assoc, append-nil, if◌then◌else◌, leb, Bool-cases, inl, inr, ◌⊎◌,
}
use open_sk.Common.Bits.{label_bits}
use open_sk.Cbor.Values.{KeyType, unsigned, negative, byte_string, text_string, simple_code}
use open_sk.Cbor.Values.{Value, Items, Entries, key_value, array, map, simple}
use open_sk.Cbor.Values.{no_items, item, no_entries, entry}
use open_sk.Cbor.Writer.{Output, size_info, start_item, encode_items, encode_entries, encode_cbor}
use open_sk.Cbor.Writer.{write, max_depth, negative_size, items_len, entries_len}
use open_sk.Common.{length, ltb}
use open_sk.Cbor.Encoding.{head, encoding_key, encoding, encoding_items, encoding_entries}
use open_sk.Cbor.Encoding.{depth, depth_items, depth_entries}

pub size_info-lt : (size : ℕ) → size_info size < 32
unfolding size_info
size_info-lt size = ground arith

start_item-head :
    (label size : ℕ) (out : List ℕ) → label < 8 → start_item label size out ≡ out ++ head label size
unfolding start_item head
start_item-head label size out h = rw (label_bits label (size_info size) h (size_info-lt size))

-- A run of the encoder at an element, within a loop over elements.
abbrev Writes : ℕ → Value → Type 0
Writes d v = (out : List ℕ) → encode_cbor d v out ≡ (out ++ encoding v, true)

Writes-key : (d : ℕ) (k : KeyType) → 0 < d → Writes d (key_value k)
unfolding encode_cbor encoding encoding_key
Writes-key zero k h out = absurd (omega arith)
Writes-key (suc d) (unsigned n) h out = rw (start_item-head 0 n out (omega arith))
Writes-key (suc d) (negative z) h out = rw (start_item-head 1 (negative_size z) out (omega arith))
Writes-key (suc d) (byte_string b) h out =
    rw (start_item-head 2 (length b) out (omega arith), append_assoc)
Writes-key (suc d) (text_string t) h out =
    rw (start_item-head 3 (length t) out (omega arith), append_assoc)

pub depth_pos : (v : Value) → 0 < depth v
unfolding depth
depth_pos (key_value k) = omega arith
depth_pos _ = omega arith

module _ (encode : Value → List ℕ → Output) {out mid end : List ℕ} where
  encode_items_step :
      {v : Value} (xs : Items)
      → encode v out ≡ (mid, true)
      → encode_items encode xs mid ≡ (end, true)
      → encode_items encode (item v xs) out ≡ (end, true)
  unfolding encode_items
  encode_items_step xs h k = rw (h, k)

  encode_entries_step :
      {k : KeyType} {v : Value} (es : Entries) {between : List ℕ}
      → encode (key_value k) out ≡ (between, true)
      → encode v between ≡ (mid, true)
      → encode_entries encode es mid ≡ (end, true)
      → encode_entries encode (entry k v es) out ≡ (end, true)
  unfolding encode_entries
  encode_entries_step es h k l = rw (h, k, l)

mutual
  unfolding encode_cbor encoding depth encode_items encode_entries

  encode_cbor-Writes : (v : Value) (d : ℕ) → depth v ≤ d → Writes d v
  encode_cbor-Writes (key_value k) d h out = Writes-key d k h out
  encode_cbor-Writes (array xs) zero h out = absurd (omega arith)
  encode_cbor-Writes (array xs) (suc d) h out =
      rw (start_item-head 4 (items_len xs) out (omega arith), ← append_assoc out)
        (encode_items-encoding xs d (omega arith) _)
  encode_cbor-Writes (map es) zero h out = absurd (omega arith)
  encode_cbor-Writes (map es) (suc d) h out =
      rw (start_item-head 5 (entries_len es) out (omega arith), ← append_assoc out)
        (encode_entries-encoding es d (omega arith) _)
  encode_cbor-Writes (simple s) zero h out = absurd (omega arith)
  encode_cbor-Writes (simple s) (suc d) h out =
      rw (start_item-head 7 (simple_code s) out (omega arith))

  encode_items-encoding :
      (xs : Items) (d : ℕ)
      → depth_items xs ≤ d
      → (out : List ℕ) → encode_items (encode_cbor d) xs out ≡ (out ++ encoding_items xs, true)
  encode_items-encoding no_items d h out = rw append-nil
  encode_items-encoding (item v xs) d h out = rw (← append_assoc out) (
      encode_items_step (encode_cbor d) xs (encode_cbor-Writes v d (omega arith) out)
        (encode_items-encoding xs d (omega arith) (out ++ encoding v)))

  encode_entries-encoding :
      (es : Entries) (d : ℕ)
      → depth_entries es ≤ d
      → (out : List ℕ) → encode_entries (encode_cbor d) es out ≡ (out ++ encoding_entries es, true)
  encode_entries-encoding no_entries d h out = rw append-nil
  encode_entries-encoding (entry k v es) d h out =
      rw (← append_assoc out, ← append_assoc (out ++ encoding_key k))
        (encode_entries_step (encode_cbor d) es (Writes-key d k (omega (arith, depth_pos v)) out)
          (encode_cbor-Writes v d (omega arith) (out ++ encoding_key k))
          (encode_entries-encoding es d (omega arith) ((out ++ encoding_key k) ++ encoding v)))

-- An element that nests too deep ends the loop over the elements.
module _ (encode : Value → List ℕ → Output) (out : List ℕ) where
  encode_items_stop :
      (v : Value) (xs : Items)
      → ((encode v out).1 ≡ false) ⊎ ((encode_items encode xs (encode v out).0).1 ≡ false)
      → (encode_items encode (item v xs) out).1 ≡ false
  unfolding encode_items
  encode_items_stop v xs h = ground arith

  encode_entries_stop :
      (k : KeyType) (v : Value) (es : Entries)
      → let mid = (encode (key_value k) out).0 in
        ((encode v mid).1 ≡ false) ⊎ ((encode_entries encode es (encode v mid).0).1 ≡ false)
        → (encode_entries encode (entry k v es) out).1 ≡ false
  unfolding encode_entries
  encode_entries_stop k v es h = ground arith

mutual
  unfolding encode_cbor depth

  encode_cbor-too_deep :
      (v : Value) (d : ℕ) → d < depth v → (out : List ℕ) → (encode_cbor d v out).1 ≡ false
  encode_cbor-too_deep (key_value k) zero h out = refl
  encode_cbor-too_deep (key_value k) (suc d) h out = absurd (omega arith)
  encode_cbor-too_deep (array xs) zero h out = refl
  encode_cbor-too_deep (array xs) (suc d) h out = encode_items-too_deep xs d (omega arith) _
  encode_cbor-too_deep (map es) zero h out = refl
  encode_cbor-too_deep (map es) (suc d) h out = encode_entries-too_deep es d (omega arith) _
  encode_cbor-too_deep (simple s) zero h out = refl
  encode_cbor-too_deep (simple s) (suc d) h out = absurd (omega arith)

  encode_items-too_deep :
      (xs : Items) (d : ℕ)
      → d < depth_items xs
      → (out : List ℕ) → (encode_items (encode_cbor d) xs out).1 ≡ false
  encode_items-too_deep no_items d h out = absurd (omega arith)
  encode_items-too_deep (item v xs) d h out =
      encode_items_stop (encode_cbor d) out v xs (elim (Bool-cases (ltb d (depth v))) [
        | inl deep ↦ inl (encode_cbor-too_deep v d (ground arith) out)
        | inr flat ↦ inr (encode_items-too_deep xs d (ground arith) _)
      ])

  encode_entries-too_deep :
      (es : Entries) (d : ℕ)
      → d < depth_entries es
      → (out : List ℕ) → (encode_entries (encode_cbor d) es out).1 ≡ false
  encode_entries-too_deep no_entries d h out = absurd (omega arith)
  encode_entries-too_deep (entry k v es) d h out =
      encode_entries_stop (encode_cbor d) out k v es (elim (Bool-cases (ltb d (depth v))) [
        | inl deep ↦ inl (encode_cbor-too_deep v d (ground arith) _)
        | inr flat ↦ inr (encode_entries-too_deep es d (ground arith) _)
      ])

-- The writer answers true exactly on the values that nest at most five deep, and then it has
-- appended the encoding of the value to the buffer and changed nothing before it.
pub write-encoding :
    (v : Value) (out : List ℕ)
    → write v out
      ≡ (if leb (depth v) max_depth then (out ++ encoding v, true) else ((write v out).0, false))
unfolding write
write-encoding v out = elim (Bool-cases (leb (depth v) max_depth)) [
  | inl flat ↦ rw flat (encode_cbor-Writes v max_depth (ground arith) out)
  | inr deep ↦ ground (arith, encode_cbor-too_deep v max_depth (ground arith) out)
]

pub write-flat :
    (v : Value) (out : List ℕ) → depth v ≤ max_depth → write v out ≡ (out ++ encoding v, true)
unfolding write
write-flat v out h = encode_cbor-Writes v max_depth h out
