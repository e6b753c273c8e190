-- ===== src/Ctap2/Commands.antt =====
-- `CtapState::new` and `CtapState::process_command` of src/ctap/mod.rs.
use open_sk.Common.{ℕ, List, [], ◌∷◌, Option, none, some, if◌then◌else◌}
use open_sk.Common.Results.{Result, ok, err}
use open_sk.Timer.{Timer}
use open_sk.Permission.{grant}
use open_sk.Hid.Packet.{ChannelId}
use open_sk.Cbor.Values.{Value}
use open_sk.Cbor.Writer.{write}
use open_sk.Storage.Write.{init}
use open_sk.Ctap.Status.{Ctap2StatusCode, status_byte, ctap2_err_vendor_response_cannot_write_cbor}
use open_sk.Formats.Commands.{Command, authenticator_make_credential, authenticator_get_assertion}
use open_sk.Formats.Commands.{authenticator_get_info, authenticator_client_pin, authenticator_reset}
use open_sk.Formats.Commands.{authenticator_get_next_assertion, authenticator_selection}
use open_sk.Formats.Commands.{authenticator_vendor_configure, deserialize}
use open_sk.Formats.Responses.{ResponseData, response_value}
use open_sk.Pin.Verify.{new_protocol}
use open_sk.Ctap2.Device.{Device, State, Call, StatefulCommand, reset, get_assertion}
use open_sk.Ctap2.Device.{new_u2f_up_state, reset_timeout_duration_ms}
use open_sk.Ctap2.Make.{process_make_credential}
use open_sk.Ctap2.Assertions.{process_get_assertion, process_get_next_assertion}
use open_sk.Ctap2.Manage.{process_get_info, process_client_pin, process_reset, process_selection}
use open_sk.Ctap2.Manage.{process_vendor_configure, renew_u2f}

module _ (t : Timer) (d : Device) where
  open t use {ClockValue, from_ms}

  -- The store has been opened; `none` is the panic where its initialization fails.
  unfoldable pub new : d.pin.rng.Rng → d.pin.store.Store → d.World → ClockValue → Option (State t d)
  new rng store world now =
      let (seeded, result) =
        init d.pin.store d.pin.rng d.aaguid (record { rng = rng; store = store }) in
      let (protocol, rng') = new_protocol d.pin seeded.rng in
      elim result [
        | err e ↦ none
        | ok u ↦ some (record {
          rng = rng';
          persistent_store = seeded.store;
          pin_protocol = protocol;
          u2f_up_state = new_u2f_up_state t d;
          stateful_command_permission = grant t now (from_ms reset_timeout_duration_ms);
          stateful_command_type = some reset;
          world = world;
        })
      ]

  -- The stateful command that a command leaves for its handler.
  unfoldable pub kept_stateful_command :
      Command → Option (StatefulCommand d.ecdsa.SecKey) → Option (StatefulCommand d.ecdsa.SecKey)
  kept_stateful_command authenticator_get_next_assertion (some (get_assertion state)) =
      some (get_assertion state)
  kept_stateful_command authenticator_reset (some reset) = some reset
  kept_stateful_command authenticator_get_info current = current
  kept_stateful_command authenticator_selection current = current
  kept_stateful_command command current = none

  abbrev pub begin_command : Command → State t d → State t d
  begin_command command s = record (renew_u2f t d s) {
    stateful_command_type = kept_stateful_command command s.stateful_command_type;
  }

  unfoldable pub run_command : Command → ChannelId → ClockValue → Call t d ResponseData
  run_command (authenticator_make_credential params) cid now =
      process_make_credential t d params cid
  run_command (authenticator_get_assertion params) cid now =
      process_get_assertion t d params cid now
  run_command authenticator_get_next_assertion cid now = process_get_next_assertion t d now
  run_command authenticator_get_info cid now = process_get_info t d
  run_command (authenticator_client_pin params) cid now = process_client_pin t d params
  run_command authenticator_reset cid now = process_reset t d cid now
  run_command authenticator_selection cid now = process_selection t d cid
  run_command (authenticator_vendor_configure params) cid now =
      process_vendor_configure t d params cid

  -- The bytes of a response: a zero and its CBOR, if it has any.
  abbrev pub written : Option Value → List ℕ
  written none = 0 ∷ []
  written (some value) =
      let (bytes, is_written) = write value (0 ∷ []) in
      if is_written then bytes else status_byte ctap2_err_vendor_response_cannot_write_cbor ∷ []

  unfoldable pub response_bytes : Result ResponseData Ctap2StatusCode → List ℕ
  response_bytes (ok response_data) = written (response_value response_data)
  response_bytes (err error_code) = status_byte error_code ∷ []

  abbrev pub process_parsed :
      Result Command Ctap2StatusCode → ChannelId → ClockValue → State t d → State t d × List ℕ
  process_parsed (err error_code) cid now s = (s, status_byte error_code ∷ [])
  process_parsed (ok command) cid now s =
      let (s', response) = run_command command cid now (begin_command command s) in
      (s', response_bytes response)

  unfoldable pub process_command : List ℕ → ChannelId → ClockValue → State t d → State t d × List ℕ
  process_command command_cbor cid now =
      process_parsed (deserialize d.usize_bits command_cbor) cid now
