-- ===== src/Storage/Tests.antt =====
-- The storage over a concrete store that never fails.
use open_sk.Common.{ℕ, ◌%◌, ◌+◌, ◌^◌, ◌≡◌, refl, false, [], ◌∷◌, replicate, none, some}
use open_sk.Common.Results.{ok}
use open_sk.Toy.{toy_rng, toy_ecdsa, toy_store, toy_credential}
use open_sk.Ctap.State.{public_key, user_verification_required}
use open_sk.Formats.Source.{Source}
use open_sk.Store.Interface.{Value}
use open_sk.Store.Contents.{Contents, get, put, erase, retain_below}
use open_sk.Storage.Read.{global_signature_counter}
use open_sk.Storage.Write.{Seeded, reset, init, set_aaguid, make_master_keys, make_cred_random}
use open_sk.Storage.Write.{draw_twice, incr_global_signature_counter, insert}
use open_sk.Storage.Counter.{incr_global_signature_counter-adds}
use open_sk.Storage.Credentials.{iter_credentials, store_credential, serialize_credential}
use open_sk.Storage.Credentials.{iterated}
use open_sk.Storage.Slots.{IsSlot, Spares}
use open_sk.Storage.Accounts.{store_credential-Spares}
use open_sk.Storage.Credentials.{
  store_credential, credential_entry, iter_credentials, scan, iterated, item_of,
  deserialize_credential, count_used, first_free, key_for, mark, serialize_credential,
}
use open_sk.Cbor.Reader
use open_sk.Cbor.Reader.{
  read, decode_complete_data_item, read_variadic_length_integer, read_content, read_map_content,
  read_entries, as_key, in_order, read_size, read_bytes, decode_to_simple_value,
  decode_value_to_negative, finish, is_ge, is_minimal, read_array_content, read_byte_string_content,
  read_items, read_text_string_content, size_value,
}
use open_sk.Cbor.Macros.{destructure_cbor_map, peek_value}
use open_sk.Cbor.Utf8.{is_utf8}
use open_sk.Cbor.Values.{
  cmp, cmp_bytes, cmp_same, from_integer, integer, key_type_label, simple_code,
}
use open_sk.Cbor.Writer.{
  encode_cbor, encode_entries, encode_items, negative_size, size_bytes, size_info, size_shift,
  start_item, write,
}
use open_sk.Common.{eq_bytes}
use open_sk.Formats.Entities.{policy_code, policy_from, policy_of, policy_value}
use open_sk.Formats.Extract.{
  extract_byte_string, extract_integer, extract_map, extract_text_string, extract_unsigned,
}
use open_sk.Formats.Source.{source_from_value, source_in, source_value}

-- A counter of 2^32 - 1.
abbrev counted : Contents
counted = (2047, 0xff ∷ 0xff ∷ 0xff ∷ 0xff ∷ []) ∷ []

incr_global_signature_counter-adds_example :
    global_signature_counter toy_store (incr_global_signature_counter toy_store 3 counted).0
    ≡ ok ((0xffffffff + 3) % 2 ^ 32)
unfolding global_signature_counter incr_global_signature_counter get
incr_global_signature_counter-adds_example =
    incr_global_signature_counter-adds toy_store counted 0xffffffff 3 refl refl

abbrev used : Seeded ℕ Contents
used = record {
  rng = 4;
  store = (2045, replicate 16 6) ∷ (2044, 1 ∷ []) ∷ (2, 0xce ∷ []) ∷ (1700, 1 ∷ []) ∷ [];
}

abbrev built : Value
built = replicate 16 5

used-reset : (reset toy_store toy_rng built used).1 ≡ ok tt
unfolding reset init set_aaguid make_master_keys make_cred_random draw_twice get put erase
    retain_below
used-reset = refl

abbrev credential : Source toy_ecdsa
credential = record {
  key_type = public_key;
  credential_id = replicate 32 4;
  private_key = false;
  rp_id = 0x61 ∷ 0x2e ∷ 0x62 ∷ [];
  user_handle = 1 ∷ 2 ∷ [];
  user_display_name = none;
  cred_protect_policy = some user_verification_required;
  creation_order = 7;
  user_name = some (0x63 ∷ []);
  user_icon = none;
}

-- The credential is stored already.
abbrev stored : Contents
stored = (1700, toy_credential) ∷ []

-- The same user gets another credential.
abbrev renewed : Source toy_ecdsa
renewed = record credential { credential_id = replicate 32 5; creation_order = 8 }

stored_items : iter_credentials toy_store toy_ecdsa 32 stored ≡ ok ((1700, credential) ∷ [], ok tt)
unfolding iter_credentials iterated item_of deserialize_credential Reader.insert read
    decode_complete_data_item read_variadic_length_integer read_content read_map_content
    read_entries as_key in_order read_size read_bytes decode_to_simple_value
    decode_value_to_negative finish is_ge is_minimal read_array_content read_byte_string_content
    read_items read_text_string_content size_value destructure_cbor_map peek_value is_utf8 cmp
    cmp_bytes cmp_same from_integer integer key_type_label simple_code eq_bytes policy_from
    extract_byte_string extract_integer extract_map extract_text_string extract_unsigned
    source_from_value source_in policy_of
stored_items = refl

stored_again : (store_credential toy_store toy_ecdsa 32 renewed stored).1 ≡ ok tt
unfolding store_credential credential_entry iter_credentials scan iterated item_of
    deserialize_credential count_used first_free key_for mark serialize_credential Reader.insert
    read decode_complete_data_item read_variadic_length_integer read_content read_map_content
    read_entries as_key in_order read_size read_bytes decode_to_simple_value
    decode_value_to_negative finish is_ge is_minimal read_array_content read_byte_string_content
    read_items read_text_string_content size_value destructure_cbor_map peek_value is_utf8 cmp
    cmp_bytes cmp_same from_integer integer key_type_label simple_code encode_cbor encode_entries
    encode_items negative_size size_bytes size_info size_shift start_item write eq_bytes policy_code
    policy_from policy_of policy_value extract_byte_string extract_integer extract_map
    extract_text_string extract_unsigned source_from_value source_in source_value get put
stored_again = refl

store_credential-Spares_example :
    (key : ℕ) × (value : Value) × (store_credential toy_store toy_ecdsa 32 renewed stored
      ≡ insert toy_store key value stored)
    × (serialize_credential toy_store toy_ecdsa 32 renewed ≡ ok value)
    × IsSlot toy_store toy_ecdsa 32 key
    × Spares toy_store toy_ecdsa 32 renewed key ((1700, credential) ∷ [])
store_credential-Spares_example =
    store_credential-Spares toy_store toy_ecdsa 32 renewed stored ((1700, credential) ∷ []) (ok tt)
      stored_items stored_again
