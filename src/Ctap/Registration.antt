-- ===== src/Ctap/Registration.antt =====
-- A registration of src/ctap/ctap1.rs and the authentications with the key handle that it answers.
use open_sk.Common.{
  ℕ, ◌≤◌, ◌≡◌, arith, List, length, ltb, some, if◌then◌else◌, subst, inl, inr, Bool-cases,
  Option-cases, eq_bytes,
}
use open_sk.Common.Results.{ok, err}
use open_sk.Common.Actions.{Result-cases}
use open_sk.Timer.{Timer}
use open_sk.Permission.Presence.{consume_up}
use open_sk.Apdu.Types.{sw_cond_use_not_satisfied, sw_wrong_data}
use open_sk.Ctap.Primitives.{Primitives, MasterKeys}
use open_sk.Ctap.State.{Ctap, encrypt_key_handle}
use open_sk.Ctap.KeyHandle.{IsHash, key_handle, decrypt-encrypt_key_handle}
use open_sk.Ctap.U2f.{Ctap1Flags, register, try_from}
use open_sk.Ctap.Ctap1.{
  attestation, attested_response, attest, process_register, run, run_register, process_authenticate,
  process_command, sign_assertion, is_check_only,
}
use open_sk.Ctap.Sizes.{encrypt_key_handle-store}
use open_sk.Ctap.Assertion.{process_authenticate-key_handle}

module _ (t : Timer) (p : Primitives) where
  open t use {ClockValue}

  -- The response is the attested one of the key, the handle and an attestation in the store.
  abbrev pub Attested : p.store.Store → p.ecdsa.SecKey → List ℕ → List ℕ → List ℕ → List ℕ → Type 0
  Attested store sk challenge application handle response =
      (certificate private_key : List ℕ) × (attestation_key : p.ecdsa.SecKey) × (attestation t p
          store
        ≡ ok (certificate, private_key))
      × (p.ecdsa.from_bytes private_key ≡ some attestation_key)
      × (response
          ≡ attested_response t p sk challenge application handle attestation_key certificate)

  attest-Attested :
      (s s' : Ctap t p) (sk : p.ecdsa.SecKey) (challenge application handle response : List ℕ)
      → attest t p s sk challenge application handle ≡ some (s', ok response)
      → Attested s.persistent_store sk challenge application handle response
  unfolding attest
  attest-Attested s s' sk challenge application handle response e =
      elim (Result-cases (attestation t p s.persistent_store)) [
        | inr (code, failed) ↦ absurd (ground (arith, e, failed))
        | inl ((certificate, private_key), found) ↦
            elim (Option-cases (p.ecdsa.from_bytes private_key)) [
              | inl invalid ↦ absurd (ground (arith, e, found, invalid))
              | inr (attestation_key, valid) ↦ (
                certificate,
                private_key,
                attestation_key,
                found,
                valid,
                ground (arith, e, found, valid),
              )
            ]
      ]

  -- The state in which a registration makes the key handle, with its key drawn.
  abbrev pub drawing : Ctap t p → ClockValue → Ctap t p
  drawing s now = record s {
    rng = (p.ecdsa.gensk s.rng).1;
    u2f_up_state = (consume_up t s.u2f_up_state now).0;
  }

  process_register-Attested :
      (challenge application response handle : List ℕ) (s s' : Ctap t p)
      → let (sk, rng') = p.ecdsa.gensk s.rng in
        (encrypt_key_handle t p (record s { rng = rng' }) sk application).1 ≡ ok handle
        → process_register t p challenge application s ≡ some (s', ok response)
        → (length handle ≤ 255)
          × Attested s.persistent_store sk challenge application handle response
  unfolding process_register
  process_register-Attested challenge application response handle s s' made e =
      let (sk, rng') = p.ecdsa.gensk s.rng in
      let drawn = record s { rng = rng' } in
      elim (Bool-cases (ltb 0xff (length handle))) [
        | inl long ↦ absurd (ground (arith, rw (process_register, made, long) at e))
        | inr short ↦ (
          ground (arith, short),
          subst (λ store. Attested store sk challenge application handle response)
              (encrypt_key_handle-store t p drawn sk application)
              (attest-Attested _ s' sk challenge application handle response
                (rw (process_register, made, short) at e)),
        )
      ]

  -- A registration that is answered has made a key for the application. The response holds its public
  -- key and its handle of at most 255 bytes, and is signed by the attestation of the store. From then
  -- on, as long as the master keys are the same, an authentication with this handle signs with the
  -- key for the application of 32 bytes that was registered, or is told that the handle is known where
  -- it only checks; for any other application the handle is unknown.
  pub process_command-registers :
      (message challenge application response : List ℕ) (s s' later : Ctap t p) (keys : MasterKeys)
      (now : ClockValue) (other nonce : List ℕ) (flags : Ctap1Flags)
      → IsHash application
      → try_from message ≡ some (ok (register challenge application))
      → p.store.master_keys s.persistent_store ≡ ok keys
      → p.store.master_keys later.persistent_store ≡ ok keys
      → process_command t p message s now ≡ some (s', ok response)
      → (sk : p.ecdsa.SecKey) × (handle : List ℕ) × (length handle ≤ 255)
        × Attested s.persistent_store sk challenge application handle response
        × (process_authenticate t p nonce other handle flags later ≡ (
            if eq_bytes other application
            then (if is_check_only flags
                then (later, err sw_cond_use_not_satisfied)
                else sign_assertion t p sk nonce other later)
            else (later, err sw_wrong_data)))
  unfolding process_command run run_register
  process_command-registers message challenge application response s s' later keys now other nonce
        flags ha m e f ran =
      let sk = (p.ecdsa.gensk s.rng).0 in
      let start = record s { u2f_up_state = (consume_up t s.u2f_up_state now).0 } in
      let handle = key_handle t p (drawing s now) keys sk application in
      let made =
        (decrypt-encrypt_key_handle t p (drawing s now) later keys sk application other ha e f).0 in
      let done = rw (m, process_command) at ran in
      elim (Bool-cases (consume_up t s.u2f_up_state now).1) [
        | inr absent ↦ absurd (ground (arith, rw absent at done))
        | inl present ↦
            let (small, attested) =
              process_register-Attested challenge application response handle start s' made
                (rw present at done) in
            (
              sk,
              handle,
              small,
              attested,
              process_authenticate-key_handle t p (drawing s now) later keys sk application other
                  nonce flags ha e f,
            )
      ]
