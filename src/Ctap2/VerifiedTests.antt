-- ===== src/Ctap2/VerifiedTests.antt =====
-- Requests with a PIN authentication on a concrete device.
use open_sk.Ctap2.Credentials.{
  extended_auth_data, insert_by_order, sort_by_order, pop, applicable_credentials,
  assertion_response,
}
use open_sk.Storage.Write.{incr_global_signature_counter}
use open_sk.Ctap.State.{
  increment_global_signature_counter, encrypted_id, generate_auth_data, encrypt_key_handle,
  public_key,
}
use open_sk.Storage.Credentials.{
  filter_items, deserialize_credential, item_of, iterated, iter_credentials, filter_credential,
}
use open_sk.Formats.Extract.{
  extract_unsigned, extract_integer, extract_text_string, extract_byte_string, extract_map,
}
use open_sk.Formats.Entities.{policy_of, policy_from, es256}
use open_sk.Cbor.Macros.{peek_value, destructure_cbor_map}
use open_sk.Formats.Source.{source_in, source_from_value}
use open_sk.Cbor.Reader.{
  finish, read_text_string_content, is_ge, read_byte_string_content, size_value, is_minimal,
  read_bytes, read_size, in_order, as_key, read_entries, read_map_content, read_content,
  read_variadic_length_integer, decode_complete_data_item, read, insert,
}
use open_sk.Ctap2.Authorize.{
  assertion_flags, check_pin_auth, make_flags, check_excluded, pin_uv_auth_precheck,
}
use open_sk.Ctap2.Make.{
  requested, extensions_output, to_cose_key, make_auth_data, make_credential_id, create_credential,
  has_es256, checked_flags, process_make_credential, Parameters,
}
use open_sk.Cbor.Values.{integer, cmp}
use open_sk.Cbor.Writer.{write}
use open_sk.Crypto.Cbc.{xor_block_16, cbc_encrypt}
use open_sk.Storage.Read.{aaguid, master_keys, pin_hash, global_signature_counter}
use open_sk.Pin.Token.{has_permission_for_rp_id}
use open_sk.Crypto.Hmac.{xor_pad, hmac_256, verify_hmac_256_first_128bits}
use open_sk.Common.{eq_bytes, ◌≡◌, refl, true, false, [], ◌∷◌, replicate, none, some}
use open_sk.Pin.Secrets.{verify_pin_auth}
use open_sk.Common.Results.{Result, ok, err}
use open_sk.Timer.{ticking}
use open_sk.Cbor.Utf8.{is_utf8}
use open_sk.Toy.{toy_credential, toy_store}
use open_sk.Store.Contents.{get, put}
use open_sk.Ctap.Status.{Ctap2StatusCode}
use open_sk.Formats.Responses.{ResponseData}
use open_sk.Formats.Responses
use open_sk.Pin.Token
use open_sk.Ctap2.Device.{State}
use open_sk.Ctap2.Assertions
use open_sk.Ctap2.Assertions.{process_get_assertion}
use open_sk.Ctap2.Verified.{
  process_get_assertion-IsVerified, IsVerified, process_make_credential-IsVerified,
}
use open_sk.Ctap2.Samples.{toy, started, channel}

-- A request whose authentication is the token's HMAC of the client data.
abbrev request : Parameters ticking toy
request = record {
  client_data_hash = replicate 32 1;
  rp = record { rp_id = 0x61 ∷ []; rp_name = none; rp_icon = none };
  user = record { user_id = 1 ∷ []; user_name = none; user_display_name = none; user_icon = none };
  pub_key_cred_params = record { cred_type = public_key; alg = es256 } ∷ [];
  exclude_list = none;
  extensions = none;
  options = record { rk = false; uv = false };
  pin_uv_auth_param = some (replicate 16 96);
  pin_uv_auth_protocol = some 1;
}

started-pin : pin_hash toy_store started.persistent_store ≡ ok (some (replicate 16 6))
unfolding pin_hash get
started-pin = refl

abbrev answered : Result ResponseData Ctap2StatusCode → ResponseData
answered (ok response) = response
answered (err e) = Responses.selection

made :
    (process_make_credential ticking toy request channel started).1
    ≡ ok (answered (process_make_credential ticking toy request channel started).1)
unfolding process_make_credential checked_flags pin_uv_auth_precheck has_es256 check_excluded
    make_flags check_pin_auth pin_hash get Token.verify_pin_auth_token verify_pin_auth
    verify_hmac_256_first_128bits eq_bytes hmac_256 xor_pad Token.has_permission
    Token.permission_bit has_permission_for_rp_id create_credential make_credential_id
    encrypt_key_handle master_keys make_auth_data generate_auth_data global_signature_counter aaguid
    encrypted_id cbc_encrypt xor_block_16 to_cose_key write insert cmp integer extensions_output
    requested
made = refl

process_make_credential-IsVerified_example :
    IsVerified ticking toy Token.make_credential
      (0x61 ∷ [])
      (replicate 32 1)
      (some (replicate 16 96))
      started
    × ((toy.check_user_presence channel 0).1 ≡ ok tt)
process_make_credential-IsVerified_example =
    process_make_credential-IsVerified ticking toy request channel started (replicate 16 6)
      (answered (process_make_credential ticking toy request channel started).1) started-pin made

abbrev holding : State ticking toy
holding = record started { persistent_store = (1700, toy_credential) ∷ started.persistent_store }

abbrev assertion_request : Assertions.Parameters ticking toy
assertion_request = record {
  rp_id = 0x61 ∷ 0x2e ∷ 0x62 ∷ [];
  client_data_hash = replicate 32 1;
  allow_list = none;
  extensions = none;
  options = record { up = true; uv = false };
  pin_uv_auth_param = some (replicate 16 96);
  pin_uv_auth_protocol = some 1;
}

asserted :
    (process_get_assertion ticking toy assertion_request channel 5 holding).1
    ≡ ok (answered (process_get_assertion ticking toy assertion_request channel 5 holding).1)
unfolding process_get_assertion Assertions.checked_uv_flags pin_uv_auth_precheck assertion_flags
    check_pin_auth pin_hash get Token.verify_pin_auth_token verify_pin_auth
    verify_hmac_256_first_128bits eq_bytes hmac_256 xor_pad Token.has_permission
    Token.permission_bit has_permission_for_rp_id applicable_credentials filter_credential
    iter_credentials iterated item_of deserialize_credential read decode_complete_data_item
    read_variadic_length_integer read_content read_map_content read_entries as_key in_order
    read_size read_bytes is_minimal size_value read_byte_string_content is_ge cmp
    read_text_string_content is_utf8 finish source_from_value extract_map source_in
    destructure_cbor_map peek_value insert extract_byte_string extract_text_string policy_from
    extract_integer policy_of extract_unsigned Assertions.first_assertion pop sort_by_order
    filter_items insert_by_order increment_global_signature_counter incr_global_signature_counter
    global_signature_counter generate_auth_data put Assertions.remember assertion_response
    extended_auth_data
asserted = refl

process_get_assertion-IsVerified_example :
    IsVerified ticking toy Token.get_assertion
      (0x61 ∷ 0x2e ∷ 0x62 ∷ [])
      (replicate 32 1)
      (some (replicate 16 96))
      holding
    × ((toy.check_user_presence channel 0).1 ≡ ok tt)
process_get_assertion-IsVerified_example =
    process_get_assertion-IsVerified ticking toy assertion_request channel 5 holding
      (replicate 16 96)
      (answered (process_get_assertion ticking toy assertion_request channel 5 holding).1) refl refl
      asserted
