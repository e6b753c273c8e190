-- ===== src/Ctap2/Authorize.antt =====
-- The checks with which `process_make_credential` and `process_get_assertion` of src/ctap/mod.rs
-- begin: the PIN authentication, and the credentials that are excluded or allowed.
use open_sk.Common.{ℕ, Bool, true, false, List, [], ◌∷◌, Option, none, some, ◌==◌}
use open_sk.Common.{bit_or, if◌then◌else◌, not}
use open_sk.Common.Results.{Result, ok, err}
use open_sk.Common.Results
use open_sk.Common.Actions.{◌>>=◌, done, fail, fail_if, reading}
use open_sk.Timer.{Timer}
use open_sk.Hid.Packet.{ChannelId}
use open_sk.Storage.Read.{pin_hash}
use open_sk.Storage.Credentials.{find_credential, is_some}
use open_sk.Ctap.Status.{Ctap2StatusCode, ctap2_err_pin_not_set, ctap2_err_pin_invalid}
use open_sk.Ctap.Status.{ctap2_err_pin_auth_invalid, ctap2_err_missing_parameter}
use open_sk.Ctap.Status.{ctap2_err_pin_required, ctap2_err_invalid_option}
use open_sk.Ctap.Status.{ctap2_err_credential_excluded}
use open_sk.Ctap.State.{decrypt_credential_source}
use open_sk.Formats.Entities.{PublicKeyCredentialDescriptor}
use open_sk.Pin.Token.{PinPermission, verify_pin_auth_token, has_permission}
use open_sk.Pin.Token.{has_permission_for_rp_id}
use open_sk.Pin.Token
use open_sk.Ctap2.Device.{Device, State, Call, Source, from_store, user_presence, on_pin, pin_state}
use open_sk.Ctap2.Device.{ctap1_state, primitives}

abbrev pub up_flag : ℕ
up_flag = 0x01

abbrev pub uv_flag : ℕ
uv_flag = 0x04

abbrev pub at_flag : ℕ
at_flag = 0x40

abbrev pub ed_flag : ℕ
ed_flag = 0x80

abbrev pub pin_protocol_version : ℕ
pin_protocol_version = 1

abbrev pub is_empty : List ℕ → Bool
is_empty [] = true
is_empty (b ∷ bytes) = false

module _ (t : Timer) (d : Device) where
  -- The protocol that a PIN authentication must name.
  abbrev pub check_protocol : Option ℕ → Result {0, 0} Unit Ctap2StatusCode
  check_protocol none = err ctap2_err_missing_parameter
  check_protocol (some n) =
      if n == pin_protocol_version then ok tt else err ctap2_err_pin_auth_invalid

  -- An empty PIN authentication asks which device this is: the user touches it.
  unfoldable pub answer_empty : ChannelId → Call t d (Unit {0})
  answer_empty cid = do
    _ ← user_presence t d cid
    stored ← from_store t d (pin_hash d.pin.store)
    fail (if is_some stored then ctap2_err_pin_invalid else ctap2_err_pin_not_set)

  unfoldable pub pin_uv_auth_precheck : Option (List ℕ) → Option ℕ → ChannelId → Call t d (Unit {0})
  pin_uv_auth_precheck none pin_uv_auth_protocol cid = done tt
  pin_uv_auth_precheck (some auth_param) pin_uv_auth_protocol cid =
      if is_empty auth_param
      then answer_empty cid
      else reading (λ _. check_protocol pin_uv_auth_protocol)

  -- The branch of a PIN authentication: a PIN is set, the authentication is the token's HMAC of the
  -- client data, and the token has the permission for the relying party.
  unfoldable pub check_pin_auth : PinPermission → List ℕ → List ℕ → List ℕ → Call t d (Unit {0})
  check_pin_auth permission rp_id client_data_hash pin_auth = do
    stored ← from_store t d (pin_hash d.pin.store)
    _ ← fail_if (not (is_some stored)) ctap2_err_pin_not_set
    _ ← reading (λ s.
        if verify_pin_auth_token d.pin client_data_hash pin_auth (pin_state t d s)
        then ok tt
        else err ctap2_err_pin_auth_invalid)
    _ ← reading (λ s. has_permission d.pin permission (pin_state t d s))
    on_pin t d (has_permission_for_rp_id d.pin rp_id)

  -- The flags of a new credential, but for those of the extensions.
  unfoldable pub make_flags : List ℕ → List ℕ → Bool → Option (List ℕ) → Call t d ℕ
  make_flags rp_id client_data_hash uv (some pin_auth) = do
    _ ← check_pin_auth Token.make_credential rp_id client_data_hash pin_auth
    done (bit_or (bit_or up_flag uv_flag) at_flag)
  make_flags rp_id client_data_hash uv none = do
    stored ← from_store t d (pin_hash d.pin.store)
    _ ← fail_if (is_some stored) ctap2_err_pin_required
    _ ← fail_if uv ctap2_err_invalid_option
    done (bit_or up_flag at_flag)

  -- The flag of user verification in an assertion.
  unfoldable pub assertion_flags : List ℕ → List ℕ → Bool → Option (List ℕ) → Call t d ℕ
  assertion_flags rp_id client_data_hash uv (some pin_auth) = do
    _ ← check_pin_auth Token.get_assertion rp_id client_data_hash pin_auth
    done uv_flag
  assertion_flags rp_id client_data_hash uv none = do
    _ ← fail_if uv ctap2_err_invalid_option
    done 0

  -- The credential of an ID that the store has, or else the one that the ID itself encrypts.
  unfoldable pub known_credential :
      List ℕ → List ℕ → Bool → List ℕ → State t d → Result (Option (Source t d)) Ctap2StatusCode
  known_credential rp_id rp_id_hash check_cred_protect key_id s =
      Results.◌>>=◌
        (find_credential d.pin.store d.ecdsa d.usize_bits rp_id key_id check_cred_protect
          s.persistent_store)
        (λ found.
          if is_some found
          then ok found
          else decrypt_credential_source t (primitives d) (ctap1_state t d s) key_id rp_id_hash)

  -- The loop over the exclude list. Before it answers that a credential is excluded, the user touches
  -- the key.
  unfoldable pub check_excluded :
      List ℕ → List ℕ → Bool → ChannelId → List PublicKeyCredentialDescriptor → Call t d (Unit {0})
  check_excluded rp_id rp_id_hash check_cred_protect cid [] = done tt
  check_excluded rp_id rp_id_hash check_cred_protect cid (cred_desc ∷ exclude_list) =
      let rest = check_excluded rp_id rp_id_hash check_cred_protect cid exclude_list in
      let excluded : Call t d (Unit {0}) = (do
        _ ← user_presence t d cid
        fail ctap2_err_credential_excluded) in
      do
        known ← reading (known_credential rp_id rp_id_hash check_cred_protect cred_desc.key_id)
        if is_some known then excluded else rest

  unfoldable pub get_any_credential_from_allow_list :
      List ℕ
      → List ℕ
      → Bool
      → List PublicKeyCredentialDescriptor
      → State t d
      → Result (Option (Source t d)) Ctap2StatusCode
  get_any_credential_from_allow_list rp_id rp_id_hash has_uv [] s = ok none
  get_any_credential_from_allow_list rp_id rp_id_hash has_uv (allowed_credential ∷ allow_list) s =
      let rest = get_any_credential_from_allow_list rp_id rp_id_hash has_uv allow_list s in
      Results.◌>>=◌ (known_credential rp_id rp_id_hash (not has_uv) allowed_credential.key_id s)
        (λ known. if is_some known then ok known else rest)
