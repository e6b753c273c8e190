-- ===== src/Ctap/UserPresence.antt =====
-- User presence in src/ctap/ctap1.rs: what a command does without it.
use open_sk.Common.{ℕ, ◌≡◌, refl, arith, Bool, true, false, List}
use open_sk.Common.{some, inl, inr, Bool-cases}
use open_sk.Common.Results.{Result, ok, err}
use open_sk.Timer.{Timer}
use open_sk.Permission.Presence.{consume_up}
use open_sk.Apdu.Types.{ApduStatusCode, sw_cond_use_not_satisfied}
use open_sk.Ctap.Primitives.{Primitives}
use open_sk.Ctap.State.{Ctap, encrypt_key_handle}
use open_sk.Ctap.State.{increment_global_signature_counter}
use open_sk.Ctap.U2f.{Ctap1Flags, check_only, enforce_up_and_sign, dont_enforce_up_and_sign}
use open_sk.Ctap.U2f.{U2fCommand, register, authenticate, version, vendor_specific, try_from}
use open_sk.Ctap.Ctap1.{attest, process_register, process_authenticate, run_register}
use open_sk.Ctap.Ctap1.{run_authenticate, run, process_command, sign_assertion}

-- The commands that wait for the user.
abbrev pub needs_presence : U2fCommand → Bool
needs_presence (register challenge application) = true
needs_presence (authenticate challenge application key_handle enforce_up_and_sign) = true
needs_presence _ = false

module _ (t : Timer) (p : Primitives) where
  open t use {ClockValue}

  run-absent :
      (command : U2fCommand) (s : Ctap t p) (now : ClockValue)
      → needs_presence command ≡ true
      → (consume_up t s.u2f_up_state now).1 ≡ false
      → run t p command s now
        ≡ some (
          record s { u2f_up_state = (consume_up t s.u2f_up_state now).0 },
          err sw_cond_use_not_satisfied,
        )
  unfolding run run_register run_authenticate
  run-absent (register challenge application) s now n e = rw e refl
  run-absent (authenticate challenge application key_handle enforce_up_and_sign) s now n e =
      rw e refl
  run-absent (authenticate challenge application key_handle check_only) s now n e = absurd cc
  run-absent (authenticate challenge application key_handle dont_enforce_up_and_sign) s now n e =
      absurd cc
  run-absent version s now n e = absurd cc
  run-absent (vendor_specific payload) s now n e = absurd cc

  -- The user presence state is read and used up by no other part of a command.
  process_register-up :
      (challenge application : List ℕ) (s s' : Ctap t p) (r : Result (List ℕ) ApduStatusCode)
      → process_register t p challenge application s ≡ some (s', r)
      → s'.u2f_up_state ≡ s.u2f_up_state
  unfolding process_register attest encrypt_key_handle
  process_register-up challenge application s s' r e = ground arith

  process_authenticate-up :
      (challenge application key_handle : List ℕ) (flags : Ctap1Flags) (s : Ctap t p)
      → (process_authenticate t p challenge application key_handle flags s).0.u2f_up_state
        ≡ s.u2f_up_state
  unfolding process_authenticate sign_assertion increment_global_signature_counter
  process_authenticate-up challenge application key_handle flags s = ground arith

  run-present :
      (command : U2fCommand) (s s' : Ctap t p) (now : ClockValue)
      (r : Result (List ℕ) ApduStatusCode)
      → needs_presence command ≡ true
      → run t p command s now ≡ some (s', r)
      → s'.u2f_up_state ≡ (consume_up t s.u2f_up_state now).0
  unfolding run run_register run_authenticate
  run-present (register challenge application) s s' now r n e =
      let (up, present) = consume_up t s.u2f_up_state now in
      ground
        (arith, process_register-up challenge application (record s { u2f_up_state = up }) s' r)
  run-present (authenticate challenge application key_handle enforce_up_and_sign) s s' now r n e =
      let (up, present) = consume_up t s.u2f_up_state now in
      ground (
        arith,
        process_authenticate-up challenge application key_handle enforce_up_and_sign
            (record s { u2f_up_state = up }),
      )
  run-present (authenticate challenge application key_handle check_only) s s' now r n e = absurd cc
  run-present (authenticate challenge application key_handle dont_enforce_up_and_sign) s s' now r n
        e =
      absurd cc
  run-present version s s' now r n e = absurd cc
  run-present (vendor_specific payload) s s' now r n e = absurd cc

  -- A registration, and an authentication that enforces user presence, answers with data only where the
  -- user has been present, and then that presence is used up: the state of user presence after the
  -- command is the one that `consume_up` leaves.
  pub process_command-present :
      (message : List ℕ) (command : U2fCommand) (s s' : Ctap t p) (now : ClockValue)
      (response : List ℕ)
      → try_from message ≡ some (ok command)
      → needs_presence command ≡ true
      → process_command t p message s now ≡ some (s', ok response)
      → ((consume_up t s.u2f_up_state now).1 ≡ true)
        × (s'.u2f_up_state ≡ (consume_up t s.u2f_up_state now).0)
  unfolding process_command
  process_command-present message command s s' now response m n e =
      let ran = rw (m, process_command) at e in
      (
        elim (Bool-cases (consume_up t s.u2f_up_state now).1) [
          | inl present ↦ present
          | inr absent ↦ absurd (ground (arith, run-absent command s now n absent, ran))
        ],
        run-present command s s' now (ok response) n ran,
      )
