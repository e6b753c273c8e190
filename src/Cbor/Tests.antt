-- ===== src/Cbor/Tests.antt =====
-- Concrete runs of the CBOR writer and reader, and the theorems at concrete inputs.
use open_sk.Common.{ℕ, ◌+◌, ◌*◌, ◌^◌, ◌≡◌, ◌≢◌, ◌↔◌, refl, arith, true, false, Ordering}
use open_sk.Common.{List, [], ◌∷◌, ◌++◌, All}
use open_sk.Common.Int.{negsuc}
use open_sk.Common.{leb, if◌then◌else◌}
use open_sk.Common.Bits.{IsByte}
use open_sk.Cbor.Utf8.{is_utf8}
use open_sk.Cbor.Values.{unsigned, negative, byte_string, text_string, cmp, from_integer}
use open_sk.Cbor.Values.{Value, key_value, array, map, simple, true_value, reverse}
use open_sk.Cbor.Values.{no_items, item, no_entries, entry, cmp_bytes}
use open_sk.Cbor.Writer.{write, max_depth}
use open_sk.Cbor.Reader.{
  ok, err, read, out_of_order_key, non_minimal_cbor_encoding, finish, read_bytes,
}
use open_sk.Cbor.Reader.{
  size_value, is_minimal, read_size, read_variadic_length_integer, read_content,
}
use open_sk.Cbor.Reader.{
  read_items, read_entries, insert, as_key, in_order, is_ge, read_array_content,
}
use open_sk.Cbor.Reader.{read_map_content, decode_value_to_negative, read_byte_string_content}
use open_sk.Cbor.Reader.{
  read_text_string_content, decode_to_simple_value, decode_complete_data_item,
}
use open_sk.Cbor.Encoding.{encoding, encoding_key, head, depth, IsWf}
use open_sk.Cbor.Order.{cmp_total}
use open_sk.Cbor.Written.{write-encoding}
use open_sk.Cbor.RoundTrip.{read-write}
use open_sk.Cbor.Canonical.{read-eq-ok_iff}
use open_sk.Cbor.KeyOrder.{cmp-encoding_key}
use open_sk.Cbor.Wrap.{read_wraps}
use open_sk.Cbor.Macros.{destructure_cbor_map}
use open_sk.Cbor.Destructure.{lookups, destructure-eq-lookups}

-- {1: [true], "a": -500}
abbrev sample : Value
sample = map (
    entry (unsigned 1) (array (item (simple true_value) no_items))
      (entry (text_string (0x61 ∷ [])) (key_value (negative (negsuc 499))) no_entries))

abbrev sample_bytes : List ℕ
sample_bytes = 0xa2 ∷ 0x01 ∷ 0x81 ∷ 0xf5 ∷ 0x61 ∷ 0x61 ∷ 0x39 ∷ 0x01 ∷ 0xf3 ∷ []

write-sample : write sample [] ≡ (sample_bytes, true)
unfolding write
write-sample = refl

read-sample : read 32 sample_bytes ≡ ok sample
unfolding read finish decode_complete_data_item read_bytes size_value is_minimal read_size
    read_variadic_length_integer read_content read_items read_entries insert as_key in_order is_ge
    read_array_content read_map_content decode_value_to_negative read_byte_string_content
    read_text_string_content decode_to_simple_value from_integer cmp is_utf8
read-sample = refl

-- A key out of order, and a size that a shorter head would hold.
read_disorder : read 32 (0xa2 ∷ 0x02 ∷ 0x80 ∷ 0x01 ∷ 0x80 ∷ []) ≡ err out_of_order_key
unfolding read finish decode_complete_data_item read_variadic_length_integer read_content read_items
    read_entries insert as_key in_order is_ge read_array_content read_map_content cmp
read_disorder = refl

read_padded : read 32 (0x19 ∷ 0x00 ∷ 0xff ∷ []) ≡ err non_minimal_cbor_encoding
unfolding read decode_complete_data_item read_bytes size_value is_minimal read_size
    read_variadic_length_integer
read_padded = refl

sample-IsWf_32 : IsWf 32 sample
unfolding IsWf is_utf8 cmp
sample-IsWf_32 = ground arith

sample_bytes-IsByte : All IsByte sample_bytes
sample_bytes-IsByte = omega arith

cmp_total_example :
    (cmp (negative (negsuc 0)) (unsigned 7) ≡ reverse (cmp (unsigned 7) (negative (negsuc 0))))
    × ((cmp (unsigned 7) (negative (negsuc 0)) ≡ Ordering.eq) ↔ (unsigned 7 ≡ negative (negsuc 0)))
cmp_total_example = cmp_total (unsigned 7) (negative (negsuc 0))

cmp-encoding_key_example :
    cmp (byte_string (1 ∷ [])) (byte_string (0 ∷ 0 ∷ []))
    ≡ cmp_bytes (encoding_key (byte_string (1 ∷ []))) (encoding_key (byte_string (0 ∷ 0 ∷ [])))
cmp-encoding_key_example =
    cmp-encoding_key (byte_string (1 ∷ [])) (byte_string (0 ∷ 0 ∷ [])) (omega arith) (omega arith)

write-encoding_example : write sample (9 ∷ []) ≡ (
    if leb (depth sample) max_depth
    then ((9 ∷ []) ++ encoding sample, true)
    else ((write sample (9 ∷ [])).0, false))
write-encoding_example = write-encoding sample (9 ∷ [])

read-write_example : read 32 sample_bytes ≡ ok sample
read-write_example = read-write 32 sample sample_bytes (omega arith) sample-IsWf_32 write-sample

read-eq-ok_iff_example :
    (read 64 sample_bytes ≡ ok sample) ↔ (IsWf 64 sample × (write sample [] ≡ (sample_bytes, true)))
read-eq-ok_iff_example = read-eq-ok_iff sample_bytes sample sample_bytes-IsByte

-- 0x5b, the size 2 ^ 32 + 1 in eight bytes, and one byte.
read_wraps_example :
    (read 32 (head 2 (1 * 2 ^ 32 + 1) ++ 7 ∷ []) ≡ ok (key_value (byte_string (7 ∷ []))))
    × (write (key_value (byte_string (7 ∷ []))) [] ≢ (head 2 (1 * 2 ^ 32 + 1) ++ 7 ∷ [], true))
read_wraps_example = read_wraps 1 (7 ∷ []) (omega arith) (omega arith) (omega arith)

-- {1: true, 3: true, 4: true} by the keys 1, 2 and 4.
destructure-eq-lookups_example :
    let yes = simple true_value in
    let es = entry (unsigned 1) yes (entry (unsigned 3) yes (entry (unsigned 4) yes no_entries)) in
    let keys = unsigned 1 ∷ unsigned 2 ∷ unsigned 4 ∷ [] in
    destructure_cbor_map keys es ≡ lookups keys es
unfolding cmp
destructure-eq-lookups_example = destructure-eq-lookups _ _ (ground arith) (ground arith)
