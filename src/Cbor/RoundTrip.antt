-- ===== src/Cbor/RoundTrip.antt =====
-- reader.rs reads back what writer.rs writes.
use open_sk.Common.{ℕ, zero, suc, ◌+◌, ◌*◌, ◌/◌, ◌^◌, ◌≤◌, ◌<◌, ◌≡◌, refl, ap, ◌∙◌, sym, arith}
use open_sk.Common.{true, List, [], ◌++◌, length, append_assoc, some, none, Option, bit_and}
use open_sk.Common.{append-nil}
use open_sk.Common.Bits.{low_five_bits}
use open_sk.Common.Int.{pos, negsuc}
use open_sk.Cbor.Values.{KeyType, unsigned, negative, byte_string, text_string, simple_code}
use open_sk.Cbor.Values.{SimpleValue, false_value, true_value, null_value, undefined, from_integer}
use open_sk.Cbor.Values.{Value, Items, Entries, key_value, array, map, simple}
use open_sk.Cbor.Values.{no_items, item, no_entries, entry}
use open_sk.Cbor.Writer.{size_info, items_len, entries_len, write, max_depth}
use open_sk.Cbor.Writer.{negative_size}
use open_sk.Common.{lt→ltb, Bool-cases, leb, inl, inr}
use open_sk.Cbor.Writer.{Output}
use open_sk.Cbor.Utf8.{is_utf8}
use open_sk.Cbor.Reader.{
  ok, read_content, read_items, read_entries, in_order, is_ge, as_key, insert,
}
use open_sk.Cbor.Reader.{
  read_array_content, read_map_content, read_byte_string_content, read_text_string_content,
  decode_to_simple_value,
}
use open_sk.Cbor.Reader.{decode_value_to_negative, decode_complete_data_item, finish, read, Reader}
use open_sk.Cbor.Encoding.{head, encoding_key, encoding, encoding_items, encoding_entries}
use open_sk.Cbor.Encoding.{
  depth, depth_items, depth_entries, IsKey, IsWf, AreWf, AreSorted, Follows,
}
use open_sk.Cbor.Size.{read_variadic-size, read_bytes-append}
use open_sk.Cbor.Written.{size_info-lt, depth_pos, write-encoding, write-flat}
use open_sk.Cbor.Insert.{
  append, EndsIn, Follows-AreBelow, insert-append, EndsIn-insert, append-no_entries,
}
use open_sk.Cbor.Insert
use native.Mathlib.Nat.{mod-eq_of_lt, pow-le-pow_right}

bytes_content :
    (bits : ℕ) (b rest : List ℕ)
    → length b < 2 ^ bits
    → read_byte_string_content bits (length b) (b ++ rest) ≡ ok (key_value (byte_string b), rest)
unfolding read_byte_string_content
bytes_content bits b rest h =
    rw (mod-eq_of_lt h, read_bytes-append b rest, read_byte_string_content)

text_content :
    (bits : ℕ) (t rest : List ℕ)
    → length t < 2 ^ bits
    → is_utf8 t ≡ true
    → read_text_string_content bits (length t) (t ++ rest) ≡ ok (key_value (text_string t), rest)
unfolding read_text_string_content
text_content bits t rest h valid =
    rw (mod-eq_of_lt h, read_bytes-append t rest, read_text_string_content, valid)

in_order-Follows : (last : Option KeyType) (k : KeyType) → Follows last k → in_order last k ≡ true
unfolding in_order is_ge
in_order-Follows none k h = refl
in_order-Follows (some l) k h = rw (h, is_ge)

module _ (decode : Reader Value) {bs bs₁ bs₂ : List ℕ} {v : Value} where
  read_items_step :
      (n : ℕ) {xs : Items}
      → decode bs ≡ ok (v, bs₁)
      → read_items decode n bs₁ ≡ ok (xs, bs₂)
      → read_items decode (suc n) bs ≡ ok (item v xs, bs₂)
  unfolding read_items
  read_items_step n h k = rw (h, k)

  read_entries_step :
      (n : ℕ) (last : Option KeyType) (es : Entries) (k : KeyType)
      → decode bs ≡ ok (key_value k, bs₁)
      → decode bs₁ ≡ ok (v, bs₂)
      → Follows last k
      → read_entries decode (suc n) last es bs ≡ read_entries decode n (some k) (insert k v es) bs₂
  unfolding read_entries as_key
  read_entries_step n last es k h h' f = rw (h, in_order-Follows last k f, h')

module _ (bits : ℕ) (narrow : bits ≤ 64) where
  width_bound : {n : ℕ} → n < 2 ^ bits → n < 2 ^ 64
  width_bound h = omega (arith, pow-le-pow_right {n = 2} (omega arith) narrow)

  -- The reader splits the first byte into the label and the code of the size.
  pub decode-head :
      (d label size : ℕ) (rest : List ℕ)
      → label < 8
      → size < 2 ^ 64
      → decode_complete_data_item bits (suc d) (head label size ++ rest)
        ≡ read_content bits (decode_complete_data_item bits d) label (size_info size) size rest
  unfolding decode_complete_data_item head
  decode-head d label size rest hl hs = rw (info, label_eq, read_variadic-size size rest hs)
    where
      info : bit_and (label * 32 + size_info size) 0x1f ≡ size_info size
      info =
          low_five_bits (label * 32 + size_info size) (omega (arith, size_info-lt size))
          ∙ omega (arith, size_info-lt size)

      label_eq : (label * 32 + size_info size) / 2 ^ 5 ≡ label
      label_eq = omega (arith, size_info-lt size)

  decode-key :
      (d : ℕ) (k : KeyType) (rest : List ℕ)
      → 0 < d
      → IsKey bits k
      → decode_complete_data_item bits d (encoding_key k ++ rest) ≡ ok (key_value k, rest)
  unfolding encoding_key read_content decode_value_to_negative negative_size
  decode-key zero k rest hd h = absurd (omega arith)
  decode-key (suc d) (unsigned n) rest hd h = decode-head d 0 n rest (omega arith) h
  decode-key (suc d) (negative (pos n)) rest hd h = absurd h
  decode-key (suc d) (negative (negsuc n)) rest hd h =
      decode-head d 1 n rest (omega arith) (omega arith) ∙ rw (lt→ltb n (2 ^ 63) h)
  decode-key (suc d) (byte_string b) rest hd h = rw append_assoc (
      decode-head d 2 (length b) (b ++ rest) (omega arith) (width_bound h.1)
      ∙ bytes_content bits b rest h.1)
  decode-key (suc d) (text_string t) rest hd h = rw append_assoc (
      decode-head d 3 (length t) (t ++ rest) (omega arith) (width_bound h.1)
      ∙ text_content bits t rest h.1 h.2)

  decode-simple :
      (d : ℕ) (s : SimpleValue) (rest : List ℕ)
      → decode_complete_data_item bits (suc d) (head 7 (simple_code s) ++ rest)
        ≡ ok (simple s, rest)
  unfolding read_content decode_to_simple_value from_integer simple_code size_info
  decode-simple d false_value rest = decode-head d 7 20 rest (omega arith) (omega arith)
  decode-simple d true_value rest = decode-head d 7 21 rest (omega arith) (omega arith)
  decode-simple d null_value rest = decode-head d 7 22 rest (omega arith) (omega arith)
  decode-simple d undefined rest = decode-head d 7 23 rest (omega arith) (omega arith)

  mutual
    unfolding encoding depth IsWf read_content read_items read_entries read_array_content
        read_map_content

    decode-encoding :
        (v : Value) (d : ℕ) (rest : List ℕ)
        → depth v ≤ d
        → IsWf bits v
        → decode_complete_data_item bits d (encoding v ++ rest) ≡ ok (v, rest)
    decode-encoding (key_value k) d rest hd w = decode-key d k rest hd w
    decode-encoding (array xs) zero rest hd w = absurd (omega arith)
    decode-encoding (array xs) (suc d) rest hd w = rw append_assoc (
        decode-head d 4 (items_len xs) (encoding_items xs ++ rest) (omega arith) (width_bound w.0)
        ∙ rw (read_items-encoding xs d rest (omega arith) w.1))
    decode-encoding (map es) zero rest hd w = absurd (omega arith)
    decode-encoding (map es) (suc d) rest hd w = rw append_assoc (
        decode-head d 5 (entries_len es) (encoding_entries es ++ rest) (omega arith)
          (width_bound w.0)
        ∙ rw (read_entries-encoding es d rest none no_entries (omega arith) refl w.1))
    decode-encoding (simple s) zero rest hd w = absurd (omega arith)
    decode-encoding (simple s) (suc d) rest hd w = decode-simple d s rest

    read_items-encoding :
        (xs : Items) (d : ℕ) (rest : List ℕ)
        → depth_items xs ≤ d
        → AreWf bits xs
        → read_items (decode_complete_data_item bits d) (items_len xs) (encoding_items xs ++ rest)
          ≡ ok (xs, rest)
    read_items-encoding no_items d rest hd w = refl
    read_items-encoding (item v xs) d rest hd w = rw append_assoc (
        read_items_step (decode_complete_data_item bits d) (items_len xs)
          (decode-encoding v d (encoding_items xs ++ rest) (omega arith) w.0)
          (read_items-encoding xs d rest (omega arith) w.1))

    read_entries-encoding :
        (es : Entries) (d : ℕ) (rest : List ℕ) (last : Option KeyType) (before : Entries)
        → depth_entries es ≤ d
        → EndsIn last before
        → AreSorted bits last es
        → read_entries
            (decode_complete_data_item bits d)
            (entries_len es)
            last
            before
            (encoding_entries es ++ rest)
          ≡ ok (append before es, rest)
    read_entries-encoding no_entries d rest last before hd e w = rw append-no_entries
    read_entries-encoding (entry k v es) d rest last before hd e w =
        rw (append_assoc, append_assoc)
          (read_entries_step (decode_complete_data_item bits d) (entries_len es) last before k
              (decode-key d k _ (omega (arith, depth_pos v)) w.1)
              (decode-encoding v d (encoding_entries es ++ rest) (omega arith) w.2) w.0
            ∙ rw (insert-append k v before (Follows-AreBelow last k before e w.0)) (
                read_entries-encoding es d rest (some k) (append before (entry k v no_entries))
                  (omega arith) (EndsIn-insert last k v before e w.0) w.3
                ∙ rw (Insert.append_assoc before (entry k v no_entries) es)))

-- Whatever the writer wrote, the reader reads back as the value that was written: for a value that
-- the Rust types can hold on a machine with a usize of `bits` bits, 64 at most.
pub read-write :
    (bits : ℕ) (v : Value) (bs : List ℕ)
    → bits ≤ 64
    → IsWf bits v
    → write v [] ≡ (bs, true)
    → read bits bs ≡ ok v
unfolding read finish
read-write bits v bs narrow w e = elim (Bool-cases (leb (depth v) max_depth)) [
  | inl flat ↦
      let written : bs ≡ encoding v =
        ap (λ (o : Output). o.0) (sym e ∙ write-flat v [] (ground arith)) in
      rw (written, ← append-nil (encoding v), decode-encoding bits narrow v 5 [] (ground arith) w)
  | inr deep ↦ ground (arith, write-encoding v [])
]
