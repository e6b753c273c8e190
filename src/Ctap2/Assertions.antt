-- ===== src/Ctap2/Assertions.antt =====
-- `process_get_assertion` and `process_get_next_assertion` of src/ctap/mod.rs.
use open_sk.Common.{ℕ, ◌+◌, Bool, ◌&&◌, List, [], ◌∷◌, length}
use open_sk.Common.{Option, none, some, bit_or, if◌then◌else◌, not}
use open_sk.Common.Results.{ok, err, ok_or}
use open_sk.Common.Actions.{◌>>=◌, done, fail_if, reading}
use open_sk.Timer.{Timer}
use open_sk.Permission.{grant}
use open_sk.Hid.Packet.{ChannelId}
use open_sk.Storage.Credentials.{is_some}
use open_sk.Ctap.Status.{ctap2_err_unsupported_extension, ctap2_err_not_allowed}
use open_sk.Ctap.Status.{ctap2_err_no_credentials}
use open_sk.Ctap.State.{increment_global_signature_counter, generate_auth_data}
use open_sk.Formats.Commands.{AuthenticatorGetAssertionParameters}
use open_sk.Formats.Responses.{ResponseData}
use open_sk.Ctap2.Device.{Device, Call, Source, AssertionInput}
use open_sk.Ctap2.Device.{get_assertion, on_ctap1, user_presence, ctap1_state, primitives}
use open_sk.Ctap2.Device.{check_command_permission, stateful_command_timeout_duration_ms}
use open_sk.Ctap2.Authorize.{pin_uv_auth_precheck, assertion_flags, up_flag, ed_flag}
use open_sk.Ctap2.Credentials.{pop, hmac_secret_of, assertion_response, applicable_credentials}

module _ (t : Timer) (d : Device) where
  open t use {ClockValue, from_ms}

  -- The credentials that are left for the next assertions, and the number that the platform is told.
  unfoldable pub remember : List (Source t d) → AssertionInput → ClockValue → Call t d (Option ℕ)
  remember [] input now s = (s, ok none)
  remember (credential ∷ credentials) input now s = (
    record s {
      stateful_command_permission = grant t now (from_ms stateful_command_timeout_duration_ms);
      stateful_command_type = some (
          get_assertion
            (record { assertion_input = input; next_credentials = credential ∷ credentials }));
    },
    ok (some (length (credential ∷ credentials) + 1)),
  )

  abbrev pub Parameters : Type 0
  Parameters = AuthenticatorGetAssertionParameters

  abbrev pub flags_of : Parameters → ℕ → ℕ
  flags_of params uv_flags =
      let with_up = if params.options.up then bit_or uv_flags up_flag else uv_flags in
      if is_some (hmac_secret_of params.extensions) then bit_or with_up ed_flag else with_up

  abbrev pub input_of : Parameters → List ℕ → AssertionInput
  input_of params auth_data = record {
    client_data_hash = params.client_data_hash;
    auth_data = auth_data;
    hmac_secret_input = hmac_secret_of params.extensions;
    has_uv = is_some params.pin_uv_auth_param;
  }

  -- The assertion of the most recent credential, once the user is present.
  unfoldable pub first_assertion :
      Parameters → ℕ → List (Source t d) → ClockValue → Call t d ResponseData
  first_assertion params flags credentials now = do
    (rest, credential) ← reading (λ _. ok_or (pop credentials) ctap2_err_no_credentials)
    _ ← on_ctap1 t d (increment_global_signature_counter t (primitives d))
    auth_data ← reading (λ s.
        generate_auth_data t (primitives d) (ctap1_state t d s) (d.pin.sha256.hash params.rp_id)
          flags)
    number_of_credentials ← remember rest (input_of params auth_data) now
    reading (assertion_response t d credential (input_of params auth_data) number_of_credentials)

  abbrev pub touched_if : Bool → ChannelId → Call t d (Unit {0})
  touched_if up cid = if up then user_presence t d cid else done tt

  -- The checks before the credentials are looked up, and the flag of user verification.
  unfoldable pub checked_uv_flags : Parameters → ChannelId → Call t d ℕ
  checked_uv_flags params cid = do
    _ ← pin_uv_auth_precheck t d params.pin_uv_auth_param params.pin_uv_auth_protocol cid
    _ ←
        fail_if (is_some (hmac_secret_of params.extensions) && not params.options.up)
          ctap2_err_unsupported_extension
    assertion_flags t d params.rp_id params.client_data_hash params.options.uv
        params.pin_uv_auth_param

  unfoldable pub process_get_assertion : Parameters → ChannelId → ClockValue → Call t d ResponseData
  process_get_assertion params cid now = do
    uv_flags ← checked_uv_flags params cid
    credentials ← reading (
        applicable_credentials t d params.rp_id (d.pin.sha256.hash params.rp_id)
          (is_some params.pin_uv_auth_param) params.allow_list)
    _ ← touched_if params.options.up cid
    first_assertion params (flags_of params uv_flags) credentials now

  -- The input and the last of the credentials, which is taken out.
  unfoldable pub take_next : Call t d (AssertionInput × Source t d)
  take_next s = elim s.stateful_command_type [
    | some (get_assertion state) ↦ elim (pop state.next_credentials) [
      | none ↦ (s, err ctap2_err_not_allowed)
      | some (rest, credential) ↦ (
        record s {
          stateful_command_type = some (get_assertion (record state { next_credentials = rest }));
        },
        ok (state.assertion_input, credential),
      )
    ]
    | _ ↦ (s, err ctap2_err_not_allowed)
  ]

  unfoldable pub process_get_next_assertion : ClockValue → Call t d ResponseData
  process_get_next_assertion now = do
    _ ← check_command_permission t d now
    (input, credential) ← take_next
    reading (assertion_response t d credential input none)
