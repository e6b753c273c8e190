-- ===== src/Ctap2/Resets.antt =====
-- When src/ctap/mod.rs resets: never again once another command has been processed.
use open_sk.Common.{
  ℕ, subst, sym, Bool, true, false, List, [], ◌∷◌, Option, none, some, ◌≡◌, refl, arith,
}
use open_sk.Common.Results.{Result, ok, err}
use open_sk.Common.Actions.{Keeps}
use open_sk.Timer.{Timer}
use open_sk.Hid.Packet.{ChannelId}
use open_sk.Store.Interface.{Value}
use open_sk.Ctap.Status.{Ctap2StatusCode, status_byte, ctap2_err_not_allowed}
use open_sk.Formats.Commands.{Command, authenticator_make_credential, authenticator_get_assertion}
use open_sk.Formats.Commands.{authenticator_get_info, authenticator_client_pin, authenticator_reset}
use open_sk.Formats.Commands.{authenticator_get_next_assertion, authenticator_selection}
use open_sk.Formats.Commands.{authenticator_vendor_configure, deserialize, deserialize_as}
use open_sk.Formats.Commands.{AuthenticatorClientPinParameters, AuthenticatorAttestationMaterial}
use open_sk.Formats.Commands.{AuthenticatorVendorConfigureParameters}
use open_sk.Formats.Responses.{AuthenticatorVendorResponse}
use open_sk.Pin.Subcommands.{process_subcommand}
use open_sk.Ctap2.Device.{Device, State, StatefulCommand, check_command_permission}
use open_sk.Ctap2.Device.{update_command_permission, get_assertion, reset}
use open_sk.Ctap2.Manage.{process_client_pin, is_reset, process_reset, configure}
use open_sk.Ctap2.Manage.{complete, lock_down, process_vendor_configure}
use open_sk.Ctap2.Commands.{process_command, run_command, begin_command, kept_stateful_command}
use open_sk.Ctap2.Commands.{response_bytes, process_parsed}
use open_sk.Ctap2.Stateful.{IsOver, device_rules, process_make_credential-Keeps, on_pin-Keeps}
use open_sk.Ctap2.Stateful.{process_get_assertion-Keeps, process_get_next_assertion-Keeps}
use open_sk.Ctap2.Stateful.{process_selection-Keeps, process_get_info-Keeps}

-- The commands that leave the reset allowed.
abbrev pub leaves_reset : Command → Bool
leaves_reset authenticator_get_info = true
leaves_reset authenticator_selection = true
leaves_reset authenticator_reset = true
leaves_reset command = false

-- A message on a channel at a time.
pub record Request (C : Type 0) : Type 0 where
  pub message : List ℕ
  pub cid : ChannelId
  pub now : C

module _ (t : Timer) (d : Device) where
  open t use {ClockValue}

  unfoldable pub process_all : List (Request ClockValue) → State t d → State t d
  process_all [] s = s
  process_all (r ∷ requests) s =
      process_all requests (process_command t d r.message r.cid r.now s).0

  configure-Keeps :
      (material : Option AuthenticatorAttestationMaterial) (cert priv_key : Option Value)
      → Keeps (IsOver t d) (configure t d material cert priv_key)
  unfolding configure complete
  configure-Keeps none cert priv_key = search (device_rules)
  configure-Keeps (some material) none none = search (device_rules) depth 12
  configure-Keeps (some material) none (some key) = search (device_rules) depth 12
  configure-Keeps (some material) (some cert) none = search (device_rules) depth 12
  configure-Keeps (some material) (some cert) (some key) = search (device_rules) depth 12

  lock_down-Keeps :
      (response : AuthenticatorVendorResponse) → Keeps (IsOver t d) (lock_down t d response)
  unfolding lock_down
  lock_down-Keeps response = record { keeps = λ s h. ground arith }

  process_vendor_configure-Keeps :
      (params : AuthenticatorVendorConfigureParameters) (cid : ChannelId)
      → Keeps (IsOver t d) (process_vendor_configure t d params cid)
  unfolding process_vendor_configure
  process_vendor_configure-Keeps params cid =
      search (device_rules, configure-Keeps, lock_down-Keeps) depth 15

  process_client_pin-Keeps :
      (params : AuthenticatorClientPinParameters)
      → Keeps (IsOver t d) (process_client_pin t d params)
  unfolding process_client_pin
  process_client_pin-Keeps params = on_pin-Keeps t d (process_subcommand d.pin params)

  -- The reset is refused before anything but the permission changes.
  process_reset-over :
      (cid : ChannelId) (now : ClockValue) (s : State t d)
      → IsOver t d s
      → process_reset t d cid now s
        ≡ (update_command_permission t d now s, err ctap2_err_not_allowed)
  unfolding process_reset check_command_permission update_command_permission
  process_reset-over cid now s over = ground arith

  kept-IsOver :
      (command : Command) (current : Option (StatefulCommand d.ecdsa.SecKey))
      → is_reset t d current ≡ false
      → is_reset t d (kept_stateful_command t d command current) ≡ false
  unfolding kept_stateful_command
  kept-IsOver authenticator_get_next_assertion none h = refl
  kept-IsOver authenticator_get_next_assertion (some (get_assertion state)) h = refl
  kept-IsOver authenticator_get_next_assertion (some reset) h = refl
  kept-IsOver authenticator_reset none h = refl
  kept-IsOver authenticator_reset (some (get_assertion state)) h = refl
  kept-IsOver authenticator_reset (some reset) h = h
  kept-IsOver authenticator_get_info current h = h
  kept-IsOver authenticator_selection current h = h
  kept-IsOver (authenticator_make_credential params) current h = refl
  kept-IsOver (authenticator_get_assertion params) current h = refl
  kept-IsOver (authenticator_client_pin params) current h = refl
  kept-IsOver (authenticator_vendor_configure params) current h = refl

  -- A command that does not leave the reset allowed.
  not_kept-IsOver :
      (command : Command) (current : Option (StatefulCommand d.ecdsa.SecKey))
      → leaves_reset command ≡ false
      → is_reset t d (kept_stateful_command t d command current) ≡ false
  unfolding kept_stateful_command
  not_kept-IsOver authenticator_get_next_assertion none h = refl
  not_kept-IsOver authenticator_get_next_assertion (some (get_assertion state)) h = refl
  not_kept-IsOver authenticator_get_next_assertion (some reset) h = refl
  not_kept-IsOver authenticator_reset current h = absurd cc
  not_kept-IsOver authenticator_get_info current h = absurd cc
  not_kept-IsOver authenticator_selection current h = absurd cc
  not_kept-IsOver (authenticator_make_credential params) current h = refl
  not_kept-IsOver (authenticator_get_assertion params) current h = refl
  not_kept-IsOver (authenticator_client_pin params) current h = refl
  not_kept-IsOver (authenticator_vendor_configure params) current h = refl

  -- A reset that is refused keeps the stateful command.
  process_reset-Keeps :
      (cid : ChannelId) (now : ClockValue) → Keeps (IsOver t d) (process_reset t d cid now)
  unfolding update_command_permission
  process_reset-Keeps cid now = record { keeps = λ s h. rw (process_reset-over cid now s h) h }

  run_command-Keeps :
      (command : Command) (cid : ChannelId) (now : ClockValue)
      → Keeps (IsOver t d) (run_command t d command cid now)
  unfolding run_command
  run_command-Keeps (authenticator_make_credential params) cid now =
      process_make_credential-Keeps t d params cid
  run_command-Keeps (authenticator_get_assertion params) cid now =
      process_get_assertion-Keeps t d params cid now
  run_command-Keeps authenticator_get_next_assertion cid now =
      process_get_next_assertion-Keeps t d now
  run_command-Keeps authenticator_get_info cid now = process_get_info-Keeps t d
  run_command-Keeps (authenticator_client_pin params) cid now = process_client_pin-Keeps params
  run_command-Keeps authenticator_reset cid now = process_reset-Keeps cid now
  run_command-Keeps authenticator_selection cid now = process_selection-Keeps t d cid
  run_command-Keeps (authenticator_vendor_configure params) cid now =
      process_vendor_configure-Keeps params cid

  process_parsed-IsOver :
      (parsed : Result Command Ctap2StatusCode) (cid : ChannelId) (now : ClockValue) (s : State t d)
      → IsOver t d s
      → IsOver t d (process_parsed t d parsed cid now s).0
  process_parsed-IsOver (err e) cid now s h = h
  process_parsed-IsOver (ok command) cid now s h =
      (run_command-Keeps command cid now).keeps (begin_command t d command s)
        (kept-IsOver command s.stateful_command_type h)

  process_all-IsOver :
      (requests : List (Request ClockValue)) (s : State t d)
      → IsOver t d s
      → IsOver t d (process_all requests s)
  unfolding process_all process_command
  process_all-IsOver [] s h = h
  process_all-IsOver (r ∷ requests) s h =
      process_all-IsOver requests _
        (process_parsed-IsOver (deserialize d.usize_bits r.message) r.cid r.now s h)

  -- The bytes of a reset, whatever follows the command's byte.
  deserialize-reset :
      (parameters : List ℕ) → deserialize d.usize_bits (7 ∷ parameters) ≡ ok authenticator_reset
  unfolding deserialize deserialize_as
  deserialize-reset parameters = refl

  refused :
      (parsed : Result Command Ctap2StatusCode) (cid : ChannelId) (now : ClockValue) (s : State t d)
      → parsed ≡ ok authenticator_reset
      → IsOver t d s
      → let after = process_parsed t d parsed cid now s in
        (after.1 ≡ status_byte ctap2_err_not_allowed ∷ [])
        × (after.0.persistent_store ≡ s.persistent_store)
        × (after.0.world ≡ s.world)
  unfolding run_command response_bytes update_command_permission
  refused (err e) cid now s p h = absurd cc
  refused (ok command) cid now s p h = ground (
    arith,
    process_reset-over cid now (begin_command t d authenticator_reset s)
        (kept-IsOver authenticator_reset s.stateful_command_type h),
  )

  -- Once a command other than the reset, the information and the selection has been read, a reset is
  -- never allowed again: after any further messages, at any time, a reset message is answered by
  -- CTAP2_ERR_NOT_ALLOWED, the store is not changed and the user is not asked.
  pub process_command-no_reset :
      (command : Command) (r : Request ClockValue) (later : List (Request ClockValue))
      (parameters : List ℕ) (cid : ChannelId) (now : ClockValue) (s : State t d)
      → deserialize d.usize_bits r.message ≡ ok command
      → leaves_reset command ≡ false
      → let before = process_all (r ∷ later) s in
        let after = process_command t d (7 ∷ parameters) cid now before in
        (after.1 ≡ status_byte ctap2_err_not_allowed ∷ [])
        × (after.0.persistent_store ≡ before.persistent_store)
        × (after.0.world ≡ before.world)
  unfolding process_command process_all
  process_command-no_reset command r later parameters cid now s p other =
      refused (deserialize d.usize_bits (7 ∷ parameters)) cid now (process_all (r ∷ later) s)
        (deserialize-reset parameters)
        (process_all-IsOver later _ (
          subst (λ parsed. IsOver t d (process_parsed t d parsed r.cid r.now s).0) (sym p)
            ((run_command-Keeps command r.cid r.now).keeps (begin_command t d command s)
              (not_kept-IsOver command s.stateful_command_type other))))
