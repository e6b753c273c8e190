-- ===== src/Formats/Commands.antt =====
-- src/ctap/command.rs: the parameters of the CTAP2 commands, and how a message is taken for one.
use open_sk.Common.{
  ℕ, zero, suc, ◌%◌, ◌^◌, Bool, true, false, List, [], ◌∷◌, length, Option, none, some, not,
}
use open_sk.Common.{◌==◌, ltb, if◌then◌else◌}
use open_sk.Common.Results.{ok, err, ◌>>=◌, map_err}
use open_sk.Cbor.Values.{KeyType, unsigned, Value}
use open_sk.Cbor.Reader.{DecoderError}
use open_sk.Cbor.Reader
use open_sk.Ctap.Status.{ctap1_err_invalid_command, ctap1_err_invalid_parameter}
use open_sk.Ctap.Status.{ctap2_err_missing_parameter, ctap2_err_pin_policy_violation}
use open_sk.Ctap.Status.{ctap2_err_invalid_cbor, ctap2_err_invalid_subcommand}
use open_sk.Formats.Extract.{Parsed, extract_unsigned, extract_byte_string, extract_text_string}
use open_sk.Formats.Extract.{extract_map, extract_bool, extract_list, needed, optional, defaulting}
use open_sk.Formats.Extract.{from_map, field}
use open_sk.Formats.Entities.{PublicKeyCredentialRpEntity, rp_entity_from, user_entity_from}
use open_sk.Formats.Entities.{PublicKeyCredentialUserEntity, PublicKeyCredentialParameter}
use open_sk.Formats.Entities.{
  parameter_from, PublicKeyCredentialDescriptor, descriptor_from, mapped,
}
use open_sk.Formats.Options.{MakeCredentialExtensions, make_extensions_from, GetAssertionExtensions}
use open_sk.Formats.Options.{get_extensions_from, MakeCredentialOptions, make_options_from}
use open_sk.Formats.Options.{GetAssertionOptions, get_options_from}
use open_sk.Formats.Cose.{CoseKey}

pub data ClientPinSubCommand : Type 0 where
  get_pin_retries get_key_agreement set_pin change_pin get_pin_token : ClientPinSubCommand
  get_pin_uv_auth_token_using_uv_with_permissions get_uv_retries : ClientPinSubCommand
  set_min_pin_length get_pin_uv_auth_token_using_pin_with_permissions : ClientPinSubCommand

unfoldable pub sub_command_of : ℕ → Parsed ClientPinSubCommand
sub_command_of n =
    if n == 1
    then ok get_pin_retries
    else if n == 2
    then ok get_key_agreement
    else if n == 3
    then ok set_pin
    else if n == 4
    then ok change_pin
    else if n == 5
    then ok get_pin_token
    else if n == 6
    then ok get_pin_uv_auth_token_using_uv_with_permissions
    else if n == 7
    then ok get_uv_retries
    else if n == 8
    then ok set_min_pin_length
    else if n == 9
    then ok get_pin_uv_auth_token_using_pin_with_permissions
    else err ctap2_err_invalid_subcommand

unfoldable pub sub_command_from : Value → Parsed ClientPinSubCommand
sub_command_from v = do subcommand_int ← extract_unsigned v; sub_command_of subcommand_int

pub record AuthenticatorMakeCredentialParameters : Type 0 where
  pub client_data_hash : List ℕ
  pub rp : PublicKeyCredentialRpEntity
  pub user : PublicKeyCredentialUserEntity
  pub pub_key_cred_params : List PublicKeyCredentialParameter
  pub exclude_list : Option (List PublicKeyCredentialDescriptor)
  pub extensions : Option MakeCredentialExtensions
  pub options : MakeCredentialOptions
  pub pin_uv_auth_param : Option (List ℕ)
  pub pin_uv_auth_protocol : Option ℕ

-- The keys 1 and following.
abbrev pub keys_from : ℕ → ℕ → List KeyType
keys_from first zero = []
keys_from first (suc n) = unsigned first ∷ keys_from (suc first) n

unfoldable pub make_credential_in :
    List (Option Value) → Parsed AuthenticatorMakeCredentialParameters
make_credential_in fields = do
  client_data_hash ← needed extract_byte_string (field 0 fields)
  rp ← needed rp_entity_from (field 1 fields)
  user ← needed user_entity_from (field 2 fields)
  pub_key_cred_params ← needed (extract_list parameter_from) (field 3 fields)
  exclude_list ← optional (extract_list descriptor_from) (field 4 fields)
  extensions ← optional make_extensions_from (field 5 fields)
  options ← defaulting (record { rk = false; uv = false }) make_options_from (field 6 fields)
  pin_uv_auth_param ← optional extract_byte_string (field 7 fields)
  pin_uv_auth_protocol ← optional extract_unsigned (field 8 fields)
  ok (record {
    client_data_hash = client_data_hash;
    rp = rp;
    user = user;
    pub_key_cred_params = pub_key_cred_params;
    exclude_list = exclude_list;
    extensions = extensions;
    options = options;
    pin_uv_auth_param = pin_uv_auth_param;
    pin_uv_auth_protocol = pin_uv_auth_protocol;
  })

abbrev pub make_credential_from : Value → Parsed AuthenticatorMakeCredentialParameters
make_credential_from = from_map (keys_from 1 9) make_credential_in

pub record AuthenticatorGetAssertionParameters : Type 0 where
  pub rp_id : List ℕ
  pub client_data_hash : List ℕ
  pub allow_list : Option (List PublicKeyCredentialDescriptor)
  pub extensions : Option GetAssertionExtensions
  pub options : GetAssertionOptions
  pub pin_uv_auth_param : Option (List ℕ)
  pub pin_uv_auth_protocol : Option ℕ

unfoldable pub get_assertion_in : List (Option Value) → Parsed AuthenticatorGetAssertionParameters
get_assertion_in fields = do
  rp_id ← needed extract_text_string (field 0 fields)
  client_data_hash ← needed extract_byte_string (field 1 fields)
  allow_list ← optional (extract_list descriptor_from) (field 2 fields)
  extensions ← optional get_extensions_from (field 3 fields)
  options ← defaulting (record { up = true; uv = false }) get_options_from (field 4 fields)
  pin_uv_auth_param ← optional extract_byte_string (field 5 fields)
  pin_uv_auth_protocol ← optional extract_unsigned (field 6 fields)
  ok (record {
    rp_id = rp_id;
    client_data_hash = client_data_hash;
    allow_list = allow_list;
    extensions = extensions;
    options = options;
    pin_uv_auth_param = pin_uv_auth_param;
    pin_uv_auth_protocol = pin_uv_auth_protocol;
  })

abbrev pub get_assertion_from : Value → Parsed AuthenticatorGetAssertionParameters
get_assertion_from = from_map (keys_from 1 7) get_assertion_in

pub record AuthenticatorClientPinParameters : Type 0 where
  pub pin_protocol : ℕ
  pub sub_command : ClientPinSubCommand
  pub key_agreement : Option CoseKey
  pub pin_auth : Option (List ℕ)
  pub new_pin_enc : Option (List ℕ)
  pub pin_hash_enc : Option (List ℕ)
  pub min_pin_length : Option ℕ
  pub min_pin_length_rp_ids : Option (List (List ℕ))
  pub permissions : Option ℕ
  pub permissions_rp_id : Option (List ℕ)

-- `u8::try_from`
abbrev pub u8_try_from : Option ℕ → Parsed (Option ℕ)
u8_try_from none = ok none
u8_try_from (some n) = if ltb n 256 then ok (some n) else err ctap2_err_pin_policy_violation

unfoldable pub client_pin_in : List (Option Value) → Parsed AuthenticatorClientPinParameters
client_pin_in fields = do
  pin_protocol ← needed extract_unsigned (field 0 fields)
  sub_command ← needed sub_command_from (field 1 fields)
  key_agreement ← optional extract_map (field 2 fields)
  pin_auth ← optional extract_byte_string (field 3 fields)
  new_pin_enc ← optional extract_byte_string (field 4 fields)
  pin_hash_enc ← optional extract_byte_string (field 5 fields)
  min_pin_length_int ← optional extract_unsigned (field 6 fields)
  min_pin_length ← u8_try_from min_pin_length_int
  min_pin_length_rp_ids ← optional (extract_list extract_text_string) (field 7 fields)
  permissions ← optional extract_unsigned (field 8 fields)
  permissions_rp_id ← optional extract_text_string (field 9 fields)
  ok (record {
    pin_protocol = pin_protocol;
    sub_command = sub_command;
    key_agreement = key_agreement;
    pin_auth = pin_auth;
    new_pin_enc = new_pin_enc;
    pin_hash_enc = pin_hash_enc;
    min_pin_length = min_pin_length;
    min_pin_length_rp_ids = min_pin_length_rp_ids;
    permissions = mapped (λ p. p % 2 ^ 8) permissions;
    permissions_rp_id = permissions_rp_id;
  })

abbrev pub client_pin_from : Value → Parsed AuthenticatorClientPinParameters
client_pin_from = from_map (keys_from 1 10) client_pin_in

pub record AuthenticatorAttestationMaterial : Type 0 where
  pub certificate : List ℕ
  pub private_key : List ℕ

unfoldable pub attestation_in : List (Option Value) → Parsed AuthenticatorAttestationMaterial
attestation_in fields = do
  certificate ← needed extract_byte_string (field 0 fields)
  private_key ← needed extract_byte_string (field 1 fields)
  if not (length private_key == 32)
      then err ctap1_err_invalid_parameter
      else ok (record { certificate = certificate; private_key = private_key })

abbrev pub attestation_from : Value → Parsed AuthenticatorAttestationMaterial
attestation_from = from_map (keys_from 1 2) attestation_in

pub record AuthenticatorVendorConfigureParameters : Type 0 where
  pub lockdown : Bool
  pub attestation_material : Option AuthenticatorAttestationMaterial

unfoldable pub vendor_configure_in :
    List (Option Value) → Parsed AuthenticatorVendorConfigureParameters
vendor_configure_in fields = do
  lockdown ← defaulting false extract_bool (field 0 fields)
  attestation_material ← optional attestation_from (field 1 fields)
  ok (record { lockdown = lockdown; attestation_material = attestation_material })

abbrev pub vendor_configure_from : Value → Parsed AuthenticatorVendorConfigureParameters
vendor_configure_from = from_map (keys_from 1 2) vendor_configure_in

pub data Command : Type 0 where
  authenticator_make_credential : AuthenticatorMakeCredentialParameters → Command
  authenticator_get_assertion : AuthenticatorGetAssertionParameters → Command
  authenticator_get_info : Command
  authenticator_client_pin : AuthenticatorClientPinParameters → Command
  authenticator_reset authenticator_get_next_assertion authenticator_selection : Command
  authenticator_vendor_configure : AuthenticatorVendorConfigureParameters → Command

-- A command whose parameters are the CBOR after its byte. A usize has `bits` bits.
abbrev pub with_parameters :
    {A : Type 0} → ℕ → (Value → Parsed A) → (A → Command) → List ℕ → Parsed Command
with_parameters bits convert command bytes = do
  decoded_cbor ← map_err (λ _. ctap2_err_invalid_cbor) (Reader.read bits bytes)
  parameters ← convert decoded_cbor
  ok (command parameters)

unfoldable pub deserialize_as : ℕ → ℕ → List ℕ → Parsed Command
deserialize_as bits command_value parameters =
    if command_value == 0x01
    then with_parameters bits make_credential_from authenticator_make_credential parameters
    else if command_value == 0x02
    then with_parameters bits get_assertion_from authenticator_get_assertion parameters
    else if command_value == 0x04
    then ok authenticator_get_info
    else if command_value == 0x06
    then with_parameters bits client_pin_from authenticator_client_pin parameters
    else if command_value == 0x07
    then ok authenticator_reset
    else if command_value == 0x08
    then ok authenticator_get_next_assertion
    else if command_value == 0x0b
    then ok authenticator_selection
    else if command_value == 0x40
    then with_parameters bits vendor_configure_from authenticator_vendor_configure parameters
    else err ctap1_err_invalid_command

-- `Command::deserialize`
unfoldable pub deserialize : ℕ → List ℕ → Parsed Command
deserialize bits [] = err ctap2_err_missing_parameter
deserialize bits (command_value ∷ parameters) = deserialize_as bits command_value parameters
