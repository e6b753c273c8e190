-- ===== src/Ctap2/Manage.antt =====
-- The commands of src/ctap/mod.rs on the device itself: its information, the PIN, the reset, the
-- selection and the attestation.
use open_sk.Common.{ℕ, Bool, true, false, ◌&&◌, List, [], ◌∷◌, Option, none, some, eq_bytes}
use open_sk.Common.{if◌then◌else◌, not}
use open_sk.Common.Results.{ok, err}
use open_sk.Common.Actions.{◌>>=◌, done, fail_if, reading, changing}
use open_sk.Timer.{Timer}
use open_sk.Hid.Packet.{ChannelId}
use open_sk.Store.Interface.{Value}
use open_sk.Storage.Read.{pin_hash, min_pin_length, aaguid, attestation_private_key}
use open_sk.Storage.Read.{attestation_certificate}
use open_sk.Storage.Write
use open_sk.Storage.Write.{set_attestation_certificate, set_attestation_private_key, Storing}
use open_sk.Storage.Credentials.{is_some}
use open_sk.Ctap.Status.{ctap2_err_not_allowed, ctap1_err_invalid_parameter}
use open_sk.Ctap.Status.{ctap2_err_vendor_internal_error}
use open_sk.Ctap.State.{credential_id_size, public_key}
use open_sk.Formats.Words.{word_hmac_secret, word_rk, word_up}
use open_sk.Formats.Entities.{PublicKeyCredentialParameter, es256, usb}
use open_sk.Formats.Commands.{AuthenticatorClientPinParameters, AuthenticatorAttestationMaterial}
use open_sk.Formats.Commands.{AuthenticatorVendorConfigureParameters}
use open_sk.Formats.Responses.{ResponseData, AuthenticatorVendorResponse}
use open_sk.Formats.Responses
use open_sk.Pin.Subcommands.{process_subcommand}
use open_sk.Pin.Token
use open_sk.Ctap2.Device
use open_sk.Ctap2.Device.{Device, State, Call, StatefulCommand, from_store, on_store, on_seeded}
use open_sk.Ctap2.Device.{on_pin, user_presence, pin_state, with_pin_state, new_u2f_up_state}
use open_sk.Ctap2.Device.{check_command_permission}
use open_sk.Ctap2.Authorize.{pin_protocol_version}
use open_sk.Ctap2.Make.{default_cred_protect}

-- "clientPin"
abbrev pub word_client_pin : List ℕ
word_client_pin = 0x63 ∷ 0x6c ∷ 0x69 ∷ 0x65 ∷ 0x6e ∷ 0x74 ∷ 0x50 ∷ 0x69 ∷ 0x6e ∷ []

-- "U2F_V2"
abbrev pub u2f_version_string : List ℕ
u2f_version_string = 0x55 ∷ 0x32 ∷ 0x46 ∷ 0x5f ∷ 0x56 ∷ 0x32 ∷ []

-- "FIDO_2_0"
abbrev pub fido2_version_string : List ℕ
fido2_version_string = 0x46 ∷ 0x49 ∷ 0x44 ∷ 0x4f ∷ 0x5f ∷ 0x32 ∷ 0x5f ∷ 0x30 ∷ []

-- "FIDO_2_1_PRE"
abbrev pub fido2_1_version_string : List ℕ
fido2_1_version_string =
    0x46 ∷ 0x49 ∷ 0x44 ∷ 0x4f ∷ 0x5f ∷ 0x32 ∷ 0x5f ∷ 0x31 ∷ 0x5f ∷ 0x50 ∷ 0x52 ∷ 0x45 ∷ []

abbrev pub es256_cred_param : PublicKeyCredentialParameter
es256_cred_param = record { cred_type = public_key; alg = es256 }

-- The options are in the order of the BTreeMap.
abbrev pub info_of : Bool → List ℕ → ℕ → ResponseData
info_of has_pin id min_length = Responses.get_info (record {
  versions = u2f_version_string ∷ fido2_version_string ∷ fido2_1_version_string ∷ [];
  extensions = some (word_hmac_secret ∷ []);
  aaguid = id;
  options = some ((word_client_pin, has_pin) ∷ (word_rk, true) ∷ (word_up, true) ∷ []);
  max_msg_size = some 1024;
  pin_protocols = some (pin_protocol_version ∷ []);
  max_credential_count_in_list = none;
  max_credential_id_length = some credential_id_size;
  transports = some (usb ∷ []);
  algorithms = some (es256_cred_param ∷ []);
  default_cred_protect = default_cred_protect;
  min_pin_length = min_length;
  firmware_version = none;
})

-- A programmed value that differs from the one that is sent.
abbrev pub differs : Option Value → Value → Bool
differs none sent = false
differs (some current) sent = not (eq_bytes current sent)

module _ (t : Timer) (d : Device) where
  open t use {ClockValue}

  unfoldable pub process_get_info : Call t d ResponseData
  process_get_info = do
    stored ← from_store t d (pin_hash d.pin.store)
    id ← from_store t d (aaguid d.pin.store)
    min_length ← from_store t d (min_pin_length d.pin.store)
    done (info_of (is_some stored) id min_length)

  unfoldable pub process_client_pin : AuthenticatorClientPinParameters → Call t d ResponseData
  process_client_pin params = on_pin t d (process_subcommand d.pin params)

  -- The stateful command is still the reset.
  abbrev pub is_reset : Option (StatefulCommand d.ecdsa.SecKey) → Bool
  is_reset (some Device.reset) = true
  is_reset _ = false

  abbrev pub renew_u2f : State t d → State t d
  renew_u2f s = record s { u2f_up_state = new_u2f_up_state t d }

  unfoldable pub process_reset : ChannelId → ClockValue → Call t d ResponseData
  process_reset cid now = do
    _ ← check_command_permission t d now
    _ ← reading (λ s. if is_reset s.stateful_command_type then ok tt else err ctap2_err_not_allowed)
    _ ← user_presence t d cid
    _ ← on_seeded t d (Write.reset d.pin.store d.pin.rng d.aaguid)
    _ ← changing (λ s. with_pin_state t d s (Token.reset d.pin (pin_state t d s)))
    _ ← changing renew_u2f
    done Responses.reset

  unfoldable pub process_selection : ChannelId → Call t d ResponseData
  process_selection cid = do _ ← user_presence t d cid; done Responses.selection

  -- A value that is missing is programmed.
  abbrev pub program : Option Value → Storing d.pin.store → Call t d (Unit {0})
  program none set = on_store t d set
  program (some current) set = done tt

  abbrev pub programmed : AuthenticatorVendorResponse
  programmed = record { cert_programmed = true; pkey_programmed = true }

  -- The device is not fully programmed: what is there has to agree, and what is missing is added.
  unfoldable pub complete :
      AuthenticatorAttestationMaterial
      → Option Value
      → Option Value
      → Call t d AuthenticatorVendorResponse
  complete material current_cert current_priv_key = do
    _ ← fail_if (differs current_cert material.certificate) ctap1_err_invalid_parameter
    _ ← fail_if (differs current_priv_key material.private_key) ctap1_err_invalid_parameter
    _ ← program current_cert (set_attestation_certificate d.pin.store material.certificate)
    _ ← program current_priv_key (set_attestation_private_key d.pin.store material.private_key)
    done programmed

  unfoldable pub configure :
      Option AuthenticatorAttestationMaterial
      → Option Value
      → Option Value
      → Call t d AuthenticatorVendorResponse
  configure none current_cert current_priv_key = done (record {
    cert_programmed = is_some current_cert;
    pkey_programmed = is_some current_priv_key;
  })
  configure (some material) current_cert current_priv_key =
      if is_some current_cert && is_some current_priv_key
      then done programmed
      else complete material current_cert current_priv_key

  -- The flash is locked only where both values are programmed.
  unfoldable pub lock_down : AuthenticatorVendorResponse → Call t d (Unit {0})
  lock_down response s =
      let (world', locked) = d.lock s.world in
      if not (response.pkey_programmed && response.cert_programmed)
      then (s, err ctap2_err_vendor_internal_error)
      else (
        record s { world = world' },
        if locked then ok tt else err ctap2_err_vendor_internal_error,
      )

  unfoldable pub process_vendor_configure :
      AuthenticatorVendorConfigureParameters → ChannelId → Call t d ResponseData
  process_vendor_configure params cid = do
    _ ← user_presence t d cid
    current_priv_key ← from_store t d (attestation_private_key d.pin.store)
    current_cert ← from_store t d (attestation_certificate d.pin.store)
    response ← configure params.attestation_material current_cert current_priv_key
    _ ← if params.lockdown then lock_down response else done tt
    done (Responses.vendor response)
