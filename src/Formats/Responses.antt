-- ===== src/Formats/Responses.antt =====
-- src/ctap/response.rs: the answers of the CTAP2 commands and their CBOR forms.
use open_sk.Common.{ℕ, Bool, List, [], ◌∷◌, Option, none, some}
use open_sk.Common.Int.{ℤ}
use open_sk.Cbor.Values.{unsigned, text_string, KeyType, Value, map, bool_value}
use open_sk.Cbor.Macros.{cbor_map, cbor_map_options, cbor_array_vec, cbor_unsigned, cbor_int}
use open_sk.Cbor.Macros.{cbor_text, cbor_bytes}
use open_sk.Ctap.State.{CredentialProtectionPolicy}
use open_sk.Formats.Words.{word_alg, word_sig, word_x5c, word_ecdaa_key_id}
use open_sk.Formats.Entities.{mapped, each, PublicKeyCredentialDescriptor, descriptor_value}
use open_sk.Formats.Entities.{PublicKeyCredentialUserEntity, user_entity_value, policy_code}
use open_sk.Formats.Entities.{AuthenticatorTransport, transport_value, PublicKeyCredentialParameter}
use open_sk.Formats.Entities.{parameter_value}
use open_sk.Formats.Cose.{CoseKey}

pub record PackedAttestationStatement : Type 0 where
  pub alg : ℤ
  pub sig : List ℕ
  pub x5c : Option (List (List ℕ))
  pub ecdaa_key_id : Option (List ℕ)

abbrev pub cbor_array : {A : Type 0} → (A → Value) → List A → Value
cbor_array convert values = cbor_array_vec (each convert values)

unfoldable pub attestation_statement_value : PackedAttestationStatement → Value
attestation_statement_value att_stmt = cbor_map_options (
    (text_string word_alg, some (cbor_int att_stmt.alg))
    ∷ (text_string word_sig, some (cbor_bytes att_stmt.sig))
    ∷ (text_string word_x5c, mapped (cbor_array cbor_bytes) att_stmt.x5c)
    ∷ (text_string word_ecdaa_key_id, mapped cbor_bytes att_stmt.ecdaa_key_id)
    ∷ [])

pub record AuthenticatorMakeCredentialResponse : Type 0 where
  pub fmt : List ℕ
  pub auth_data : List ℕ
  pub att_stmt : PackedAttestationStatement

unfoldable pub make_credential_value : AuthenticatorMakeCredentialResponse → Value
make_credential_value r = cbor_map_options (
    (unsigned 1, some (cbor_text r.fmt))
    ∷ (unsigned 2, some (cbor_bytes r.auth_data))
    ∷ (unsigned 3, some (attestation_statement_value r.att_stmt))
    ∷ [])

pub record AuthenticatorGetAssertionResponse : Type 0 where
  pub credential : Option PublicKeyCredentialDescriptor
  pub auth_data : List ℕ
  pub signature : List ℕ
  pub user : Option PublicKeyCredentialUserEntity
  pub number_of_credentials : Option ℕ

unfoldable pub get_assertion_value : AuthenticatorGetAssertionResponse → Value
get_assertion_value r = cbor_map_options (
    (unsigned 1, mapped descriptor_value r.credential)
    ∷ (unsigned 2, some (cbor_bytes r.auth_data))
    ∷ (unsigned 3, some (cbor_bytes r.signature))
    ∷ (unsigned 4, mapped user_entity_value r.user)
    ∷ (unsigned 5, mapped cbor_unsigned r.number_of_credentials)
    ∷ [])

-- `options` is a BTreeMap, by its entries in their order.
pub record AuthenticatorGetInfoResponse : Type 0 where
  pub versions : List (List ℕ)
  pub extensions : Option (List (List ℕ))
  pub aaguid : List ℕ
  pub options : Option (List (List ℕ × Bool))
  pub max_msg_size : Option ℕ
  pub pin_protocols : Option (List ℕ)
  pub max_credential_count_in_list : Option ℕ
  pub max_credential_id_length : Option ℕ
  pub transports : Option (List AuthenticatorTransport)
  pub algorithms : Option (List PublicKeyCredentialParameter)
  pub default_cred_protect : Option CredentialProtectionPolicy
  pub min_pin_length : ℕ
  pub firmware_version : Option ℕ

abbrev pub option_field : List ℕ × Bool → KeyType × Value
option_field (key, value) = (text_string key, bool_value value)

abbrev pub options_value : List (List ℕ × Bool) → Value
options_value options = cbor_map (each option_field options)

unfoldable pub get_info_value : AuthenticatorGetInfoResponse → Value
get_info_value r = cbor_map_options (
    (unsigned 0x01, some (cbor_array cbor_text r.versions))
    ∷ (unsigned 0x02, mapped (cbor_array cbor_text) r.extensions)
    ∷ (unsigned 0x03, some (cbor_bytes r.aaguid))
    ∷ (unsigned 0x04, mapped options_value r.options)
    ∷ (unsigned 0x05, mapped cbor_unsigned r.max_msg_size)
    ∷ (unsigned 0x06, mapped (cbor_array cbor_unsigned) r.pin_protocols)
    ∷ (unsigned 0x07, mapped cbor_unsigned r.max_credential_count_in_list)
    ∷ (unsigned 0x08, mapped cbor_unsigned r.max_credential_id_length)
    ∷ (unsigned 0x09, mapped (cbor_array transport_value) r.transports)
    ∷ (unsigned 0x0a, mapped (cbor_array parameter_value) r.algorithms)
    ∷ (unsigned 0x0c, mapped (λ p. cbor_unsigned (policy_code p)) r.default_cred_protect)
    ∷ (unsigned 0x0d, some (cbor_unsigned r.min_pin_length))
    ∷ (unsigned 0x0e, mapped cbor_unsigned r.firmware_version)
    ∷ [])

pub record AuthenticatorClientPinResponse : Type 0 where
  pub key_agreement : Option CoseKey
  pub pin_token : Option (List ℕ)
  pub retries : Option ℕ

unfoldable pub client_pin_value : AuthenticatorClientPinResponse → Value
client_pin_value r = cbor_map_options (
    (unsigned 1, mapped map r.key_agreement)
    ∷ (unsigned 2, mapped cbor_bytes r.pin_token)
    ∷ (unsigned 3, mapped cbor_unsigned r.retries)
    ∷ [])

pub record AuthenticatorVendorResponse : Type 0 where
  pub cert_programmed : Bool
  pub pkey_programmed : Bool

unfoldable pub vendor_value : AuthenticatorVendorResponse → Value
vendor_value r = cbor_map_options (
    (unsigned 1, some (bool_value r.cert_programmed))
    ∷ (unsigned 2, some (bool_value r.pkey_programmed))
    ∷ [])

pub data ResponseData : Type 0 where
  make_credential : AuthenticatorMakeCredentialResponse → ResponseData
  get_assertion get_next_assertion : AuthenticatorGetAssertionResponse → ResponseData
  get_info : AuthenticatorGetInfoResponse → ResponseData
  client_pin : Option AuthenticatorClientPinResponse → ResponseData
  reset selection : ResponseData
  vendor : AuthenticatorVendorResponse → ResponseData

unfoldable pub response_value : ResponseData → Option Value
response_value (make_credential r) = some (make_credential_value r)
response_value (get_assertion r) = some (get_assertion_value r)
response_value (get_next_assertion r) = some (get_assertion_value r)
response_value (get_info r) = some (get_info_value r)
response_value (client_pin r) = mapped client_pin_value r
response_value reset = none
response_value selection = none
response_value (vendor r) = some (vendor_value r)
