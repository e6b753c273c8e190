-- ===== src/Ctap2/Firmware.antt =====
-- The authenticator behind the transport: the calls of `Ctap1Command::process_command` and
-- `CtapState::process_command` in src/ctap/hid/mod.rs, on one state.
use open_sk.Common.{ℕ, Bool, List, none, some}
use open_sk.Common.Results.{ok, err}
use open_sk.Timer.{Timer}
use open_sk.Hid.Protocol.{Authenticator, Ctap1Result, success, failure, panicked}
use open_sk.Ctap.Ctap1
use open_sk.Ctap2.Device.{Device, State, primitives, ctap1_state, with_ctap1_state}
use open_sk.Ctap2.Commands.{process_command}

module _ (t : Timer) (d : Device) where
  open t use {ClockValue}

  unfoldable pub process_ctap1 : List ℕ → State t d → ClockValue → State t d × Ctap1Result
  process_ctap1 message s now =
      elim (Ctap1.process_command t (primitives d) message (ctap1_state t d s) now) [
        | none ↦ (s, panicked)
        | some (c, err code) ↦ (with_ctap1_state t d s c, failure code)
        | some (c, ok response) ↦ (with_ctap1_state t d s c, success response)
      ]

  -- The feature with_ctap1 is on or off.
  abbrev pub firmware : Bool → Authenticator ClockValue
  firmware with_ctap1 = record {
    State = State t d;
    with_ctap1 = with_ctap1;
    process_ctap1 = process_ctap1;
    process_command = λ message cid s now. process_command t d message cid now s;
  }
