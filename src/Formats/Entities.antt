-- ===== src/Formats/Entities.antt =====
-- The entities, types and descriptors of src/ctap/data_formats.rs.
use open_sk.Common.{ℕ, List, [], ◌∷◌, Option, none, some, eq_bytes, ◌==◌, if◌then◌else◌}
use open_sk.Common.Int.{ℤ, pos, negsuc}
use open_sk.Common.Results.{ok, err, ◌>>=◌}
use open_sk.Cbor.Values.{KeyType, text_string, Value}
use open_sk.Cbor.Macros.{cbor_map_options, cbor_text, cbor_bytes, cbor_int, cbor_array_vec}
use open_sk.Ctap.Status.{ctap2_err_cbor_unexpected_type}
use open_sk.Ctap.State.{CredentialProtectionPolicy, user_verification_optional}
use open_sk.Ctap.State.{user_verification_optional_with_credential_id_list}
use open_sk.Ctap.State.{user_verification_required, PublicKeyCredentialType, public_key, unknown}
use open_sk.Formats.Extract.{Parsed, extract_integer, extract_byte_string, extract_text_string}
use open_sk.Formats.Extract.{needed, optional, extract_list, from_map, field}
use open_sk.Formats.Words.{word_id, word_icon, word_name, word_display_name, word_public_key}
use open_sk.Formats.Words.{word_unknown, word_alg, word_type, word_usb, word_nfc, word_ble}
use open_sk.Formats.Words.{word_internal, word_transports}

-- `Option::map`
abbrev pub mapped : {A B : Type 0} → (A → B) → Option A → Option B
mapped f none = none
mapped f (some a) = some (f a)

abbrev pub each : {A B : Type 0} → (A → B) → List A → List B
each f [] = []
each f (a ∷ rest) = f a ∷ each f rest

pub record PublicKeyCredentialRpEntity : Type 0 where
  pub rp_id : List ℕ
  pub rp_name : Option (List ℕ)
  pub rp_icon : Option (List ℕ)

abbrev pub rp_entity_keys : List KeyType
rp_entity_keys = text_string word_id ∷ text_string word_icon ∷ text_string word_name ∷ []

unfoldable pub rp_entity_in : List (Option Value) → Parsed PublicKeyCredentialRpEntity
rp_entity_in fields = do
  rp_id ← needed extract_text_string (field 0 fields)
  rp_name ← optional extract_text_string (field 2 fields)
  rp_icon ← optional extract_text_string (field 1 fields)
  ok (record { rp_id = rp_id; rp_name = rp_name; rp_icon = rp_icon })

abbrev pub rp_entity_from : Value → Parsed PublicKeyCredentialRpEntity
rp_entity_from = from_map rp_entity_keys rp_entity_in

pub record PublicKeyCredentialUserEntity : Type 0 where
  pub user_id : List ℕ
  pub user_name : Option (List ℕ)
  pub user_display_name : Option (List ℕ)
  pub user_icon : Option (List ℕ)

abbrev pub user_entity_keys : List KeyType
user_entity_keys =
    text_string word_id
    ∷ text_string word_icon
    ∷ text_string word_name
    ∷ text_string word_display_name
    ∷ []

unfoldable pub user_entity_in : List (Option Value) → Parsed PublicKeyCredentialUserEntity
user_entity_in fields = do
  user_id ← needed extract_byte_string (field 0 fields)
  user_name ← optional extract_text_string (field 2 fields)
  user_display_name ← optional extract_text_string (field 3 fields)
  user_icon ← optional extract_text_string (field 1 fields)
  ok (record {
    user_id = user_id;
    user_name = user_name;
    user_display_name = user_display_name;
    user_icon = user_icon;
  })

abbrev pub user_entity_from : Value → Parsed PublicKeyCredentialUserEntity
user_entity_from = from_map user_entity_keys user_entity_in

unfoldable pub user_entity_value : PublicKeyCredentialUserEntity → Value
user_entity_value entity = cbor_map_options (
    (text_string word_id, some (cbor_bytes entity.user_id))
    ∷ (text_string word_name, mapped cbor_text entity.user_name)
    ∷ (text_string word_display_name, mapped cbor_text entity.user_display_name)
    ∷ (text_string word_icon, mapped cbor_text entity.user_icon)
    ∷ [])

unfoldable pub credential_type_value : PublicKeyCredentialType → Value
credential_type_value public_key = cbor_text word_public_key
credential_type_value unknown = cbor_text word_unknown

unfoldable pub credential_type_from : Value → Parsed PublicKeyCredentialType
credential_type_from v = do
  cred_type ← extract_text_string v
  ok (if eq_bytes cred_type word_public_key then public_key else unknown)

pub data SignatureAlgorithm : Type 0 where
  es256 unknown_algorithm : SignatureAlgorithm

-- `alg as i64`, where ES256 is -7.
unfoldable pub algorithm_value : SignatureAlgorithm → Value
algorithm_value es256 = cbor_int (negsuc 6)
algorithm_value unknown_algorithm = cbor_int (pos 0)

abbrev pub algorithm_of : ℤ → SignatureAlgorithm
algorithm_of (pos n) = unknown_algorithm
algorithm_of (negsuc n) = if n == 6 then es256 else unknown_algorithm

unfoldable pub algorithm_from : Value → Parsed SignatureAlgorithm
algorithm_from v = do alg ← extract_integer v; ok (algorithm_of alg)

pub record PublicKeyCredentialParameter : Type 0 where
  pub cred_type : PublicKeyCredentialType
  pub alg : SignatureAlgorithm

unfoldable pub parameter_in : List (Option Value) → Parsed PublicKeyCredentialParameter
parameter_in fields = do
  cred_type ← needed credential_type_from (field 1 fields)
  alg ← needed algorithm_from (field 0 fields)
  ok (record { cred_type = cred_type; alg = alg })

abbrev pub parameter_from : Value → Parsed PublicKeyCredentialParameter
parameter_from = from_map (text_string word_alg ∷ text_string word_type ∷ []) parameter_in

unfoldable pub parameter_value : PublicKeyCredentialParameter → Value
parameter_value p = cbor_map_options (
    (text_string word_type, some (credential_type_value p.cred_type))
    ∷ (text_string word_alg, some (algorithm_value p.alg))
    ∷ [])

pub data AuthenticatorTransport : Type 0 where
  usb nfc ble internal : AuthenticatorTransport

unfoldable pub transport_value : AuthenticatorTransport → Value
transport_value usb = cbor_text word_usb
transport_value nfc = cbor_text word_nfc
transport_value ble = cbor_text word_ble
transport_value internal = cbor_text word_internal

unfoldable pub transport_of : List ℕ → Parsed AuthenticatorTransport
transport_of transport =
    if eq_bytes transport word_usb
    then ok usb
    else if eq_bytes transport word_nfc
    then ok nfc
    else if eq_bytes transport word_ble
    then ok ble
    else if eq_bytes transport word_internal
    then ok internal
    else err ctap2_err_cbor_unexpected_type

unfoldable pub transport_from : Value → Parsed AuthenticatorTransport
transport_from v = do transport ← extract_text_string v; transport_of transport

pub record PublicKeyCredentialDescriptor : Type 0 where
  pub key_type : PublicKeyCredentialType
  pub key_id : List ℕ
  pub transports : Option (List AuthenticatorTransport)

abbrev pub descriptor_keys : List KeyType
descriptor_keys = text_string word_id ∷ text_string word_type ∷ text_string word_transports ∷ []

unfoldable pub descriptor_in : List (Option Value) → Parsed PublicKeyCredentialDescriptor
descriptor_in fields = do
  key_type ← needed credential_type_from (field 1 fields)
  key_id ← needed extract_byte_string (field 0 fields)
  transports ← optional (extract_list transport_from) (field 2 fields)
  ok (record { key_type = key_type; key_id = key_id; transports = transports })

abbrev pub descriptor_from : Value → Parsed PublicKeyCredentialDescriptor
descriptor_from = from_map descriptor_keys descriptor_in

unfoldable pub descriptor_value : PublicKeyCredentialDescriptor → Value
descriptor_value desc = cbor_map_options (
    (text_string word_type, some (credential_type_value desc.key_type))
    ∷ (text_string word_id, some (cbor_bytes desc.key_id))
    ∷ (
      text_string word_transports,
      mapped (λ transports. cbor_array_vec (each transport_value transports)) desc.transports,
    )
    ∷ [])

-- `policy as i64`
unfoldable pub policy_code : CredentialProtectionPolicy → ℕ
policy_code user_verification_optional = 1
policy_code user_verification_optional_with_credential_id_list = 2
policy_code user_verification_required = 3

unfoldable pub policy_value : CredentialProtectionPolicy → Value
policy_value policy = cbor_int (pos (policy_code policy))

unfoldable pub policy_of : ℤ → Parsed CredentialProtectionPolicy
policy_of (negsuc n) = err ctap2_err_cbor_unexpected_type
policy_of (pos n) =
    if n == 1
    then ok user_verification_optional
    else if n == 2
    then ok user_verification_optional_with_credential_id_list
    else if n == 3
    then ok user_verification_required
    else err ctap2_err_cbor_unexpected_type

unfoldable pub policy_from : Value → Parsed CredentialProtectionPolicy
policy_from v = do policy ← extract_integer v; policy_of policy
