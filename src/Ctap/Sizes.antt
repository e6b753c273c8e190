-- ===== src/Ctap/Sizes.antt =====
-- The size of the responses of src/ctap/ctap1.rs.
use open_sk.Common.{ℕ, [], ◌+◌, ◌/◌, ◌%◌, ◌^◌, ◌≤◌, ◌≡◌, ◌≢◌, arith, List, ◌∷◌, ◌++◌, take, drop}
use open_sk.Common.{length, length-append, length-take, none, some, inl, inr, Option-cases, ltb}
use open_sk.Common.{Bool-cases}
use open_sk.Common.Results.{Result, ok, err}
use open_sk.Common.Actions.{Result-cases}
use open_sk.Timer.{Timer}
use open_sk.Permission.Presence.{consume_up}
use open_sk.Apdu.Types.{ApduStatusCode}
use open_sk.Ctap.Primitives.{Primitives}
use open_sk.Ctap.State.{Ctap, encrypt_key_handle, decrypt_credential_source, generate_auth_data}
use open_sk.Ctap.State.{increment_global_signature_counter}
use open_sk.Ctap.U2f.{Ctap1Flags, U2fCommand, register, authenticate, version, vendor_specific}
use open_sk.Ctap.U2f.{try_from}
use open_sk.Ctap.Ctap1.{Outcome, attestation, attested_response, register_response, attest}
use open_sk.Ctap.Ctap1.{process_register, process_authenticate, sign_assertion, run_register}
use open_sk.Ctap.Ctap1.{signature_data, user_presence_indicator_byte, is_check_only, is_enforce_up}
use open_sk.Common.{◌∙◌}
use open_sk.Ctap.Ctap1.{authenticate_response, run_authenticate, run, process_command}
use open_sk.Ctap.Messages.{try_from-no_panic}

-- A registration is the longest response: a key of 65 bytes, a handle of 255, a certificate of 1023, a
-- signature of 72 and two bytes more.
abbrev pub max_response : ℕ
max_response = 1417

abbrev pub IsSmall : Result (List ℕ) ApduStatusCode → Type 0
IsSmall (ok response) = length response ≤ max_response
IsSmall (err code) = Unit

module _ (t : Timer) (p : Primitives) where
  open t use {ClockValue}

  -- A command answers with a response that is not too long.
  abbrev pub Responds : Outcome t p → Type 0
  Responds none = ⊥
  Responds (some (s, r)) = IsSmall r

  attestation-parts :
      (store : p.store.Store) (certificate private_key : List ℕ)
      → attestation t p store ≡ ok (certificate, private_key)
      → (p.store.attestation_certificate store ≡ ok (some certificate))
        × (p.store.attestation_private_key store ≡ ok (some private_key))
  unfolding attestation
  attestation-parts store certificate private_key e = (ground arith, ground arith)

  -- The slice of five bytes behind the application, which an assertion takes of this, is in range.
  generate_auth_data-length :
      (s : Ctap t p) (application auth_data : List ℕ) (flag_byte : ℕ)
      → generate_auth_data t p s application flag_byte ≡ ok auth_data
      → length auth_data ≡ length application + 5
  unfolding generate_auth_data
  generate_auth_data-length s application auth_data flag_byte e =
      elim (Result-cases (p.store.global_signature_counter s.persistent_store)) [
        | inr (code, failed) ↦ absurd (ground (arith, e, failed))
        | inl (counter, found) ↦
            let shown =
              flag_byte
              ∷ counter / 2 ^ 24 % 256
              ∷ counter / 2 ^ 16 % 256
              ∷ counter / 2 ^ 8 % 256
              ∷ counter % 256
              ∷ [] in
            ground (arith, e, found, length-append application shown)
      ]

  pub encrypt_key_handle-store :
      (s : Ctap t p) (sk : p.ecdsa.SecKey) (application : List ℕ)
      → (encrypt_key_handle t p s sk application).0.persistent_store ≡ s.persistent_store
  unfolding encrypt_key_handle
  encrypt_key_handle-store s sk application = ground arith

  -- The documented sizes of keys and signatures, and what the store holds of the attestation.
  module _ (genpk_size : (sk : p.ecdsa.SecKey) → length (p.ecdsa.genpk sk) ≤ 65)
      (sign_size : (sk : p.ecdsa.SecKey) (bytes : List ℕ)
        → length (p.ecdsa.sign_rfc6979 sk bytes) ≤ 72) where
    attested_response-le :
        (sk attestation_key : p.ecdsa.SecKey)
        (challenge application key_handle certificate : List ℕ)
        → length key_handle ≤ 255
        → length certificate ≤ 1023
        → length
            (attested_response t p sk challenge application key_handle attestation_key certificate)
          ≤ max_response
    unfolding attested_response register_response
    attested_response-le sk attestation_key challenge application key_handle certificate hk hc =
        let user_pk = p.ecdsa.genpk sk in
        let signed = signature_data t p application challenge key_handle user_pk in
        let signature = p.ecdsa.sign_rfc6979 attestation_key signed in
        omega (
          arith,
          length-append user_pk
              (length key_handle % 2 ^ 8 ∷ (key_handle ++ (certificate ++ signature))),
          length-append key_handle (certificate ++ signature),
          length-append certificate signature,
          genpk_size sk,
          sign_size attestation_key signed,
          hk,
          hc,
        )

    authenticate_response-le :
        (sk : p.ecdsa.SecKey) (challenge application auth_data : List ℕ)
        → length (authenticate_response t p sk challenge application auth_data) ≤ max_response
    unfolding authenticate_response
    authenticate_response-le sk challenge application auth_data =
        let signed = auth_data ++ challenge in
        let rest = drop (length application) signed in
        omega (
          arith,
          length-append (take 5 rest) (p.ecdsa.sign_rfc6979 sk signed),
          length-take 5 rest,
          sign_size sk signed,
        )

    sign_assertion-IsSmall :
        (sk : p.ecdsa.SecKey) (challenge application : List ℕ) (s : Ctap t p)
        → IsSmall (sign_assertion t p sk challenge application s).1
    unfolding sign_assertion
    sign_assertion-IsSmall sk challenge application s =
        let (s', incremented) = increment_global_signature_counter t p s in
        elim (Result-cases incremented) [
          | inr (e, failed) ↦ rw failed tt
          | inl (u, done) ↦
              elim (Result-cases
                (generate_auth_data t p s' application user_presence_indicator_byte)) [
                  | inr (e, failed) ↦ rw (done, failed) tt
                  | inl (auth_data, made) ↦
                      rw (done, made) (authenticate_response-le sk challenge application auth_data)
                ]
        ]

    process_authenticate-IsSmall :
        (challenge application key_handle : List ℕ) (flags : Ctap1Flags) (s : Ctap t p)
        → IsSmall (process_authenticate t p challenge application key_handle flags s).1
    unfolding process_authenticate
    process_authenticate-IsSmall challenge application key_handle flags s =
        elim (Result-cases (decrypt_credential_source t p s key_handle application)) [
          | inr (e, failed) ↦ rw (failed, process_authenticate) tt
          | inl (none, e) ↦ rw (e, process_authenticate) tt
          | inl (some source, e) ↦ elim (Bool-cases (is_check_only flags)) [
            | inl only ↦ rw (e, process_authenticate, only) tt
            | inr signs ↦
                rw (e, process_authenticate, signs)
                  (sign_assertion-IsSmall source.private_key challenge application s)
          ]
        ]

    run_authenticate-Responds :
        (challenge application key_handle : List ℕ) (flags : Ctap1Flags) (s : Ctap t p)
        (now : ClockValue)
        → Responds (run_authenticate t p challenge application key_handle flags s now)
    unfolding run_authenticate
    run_authenticate-Responds challenge application key_handle flags s now =
        let (up, present) = consume_up t s.u2f_up_state now in
        let s' = record s { u2f_up_state = up } in
        elim (Bool-cases (is_enforce_up flags)) [
          | inr free ↦
              rw free (process_authenticate-IsSmall challenge application key_handle flags s)
          | inl enforced ↦ elim (Bool-cases (consume_up t s.u2f_up_state now).1) [
            | inr absent ↦ rw (enforced, absent) tt
            | inl there ↦
                rw (enforced, there)
                  (process_authenticate-IsSmall challenge application key_handle flags s')
          ]
        ]

    -- What the store holds of the attestation can be used.
    module _ (store : p.store.Store)
        (certificate_size : (certificate : List ℕ)
          → p.store.attestation_certificate store ≡ ok (some certificate)
          → length certificate ≤ 1023)
        (key_valid : (private_key : List ℕ)
          → p.store.attestation_private_key store ≡ ok (some private_key)
          → p.ecdsa.from_bytes private_key ≢ none) where
      attest-Responds :
          (s : Ctap t p) (sk : p.ecdsa.SecKey) (challenge application key_handle : List ℕ)
          → s.persistent_store ≡ store
          → length key_handle ≤ 255
          → Responds (attest t p s sk challenge application key_handle)
      unfolding attest
      attest-Responds s sk challenge application key_handle same hk =
          elim (Result-cases (attestation t p s.persistent_store)) [
            | inr (e, failed) ↦ rw (failed, attest) tt
            | inl ((certificate, private_key), found) ↦
                let (has_certificate, has_key) =
                  attestation-parts store certificate private_key (rw same at found) in
                elim (Option-cases (p.ecdsa.from_bytes private_key)) [
                  | inl invalid ↦ absurd (key_valid private_key has_key invalid)
                  | inr (attestation_key, valid) ↦
                      rw (found, attest, valid)
                        (attested_response-le sk attestation_key challenge application key_handle
                          certificate hk (certificate_size certificate has_certificate))
                ]
          ]

      process_register-Responds :
          (challenge application : List ℕ) (s : Ctap t p)
          → s.persistent_store ≡ store
          → Responds (process_register t p challenge application s)
      unfolding process_register
      process_register-Responds challenge application s same =
          let (sk, rng') = p.ecdsa.gensk s.rng in
          let s' = record s { rng = rng' } in
          let made = encrypt_key_handle t p s' sk application in
          elim (Result-cases made.1) [
            | inr (e, failed) ↦ rw (failed, process_register) tt
            | inl (key_handle, done) ↦ elim (Bool-cases (ltb 0xff (length key_handle))) [
              | inl long ↦ rw (done, process_register, long) tt
              | inr short ↦
                  rw (done, process_register, short)
                    (attest-Responds made.0 sk challenge application key_handle
                      (encrypt_key_handle-store s' sk application ∙ same) (ground (arith, short)))
            ]
          ]

      run-Responds :
          (command : U2fCommand) (s : Ctap t p) (now : ClockValue)
          → s.persistent_store ≡ store
          → Responds (run t p command s now)
      unfolding run run_register
      run-Responds (register challenge application) s now same =
          let (up, present) = consume_up t s.u2f_up_state now in
          elim (Bool-cases (consume_up t s.u2f_up_state now).1) [
            | inr absent ↦ rw absent tt
            | inl there ↦ rw there (
                process_register-Responds challenge application (record s { u2f_up_state = up })
                  same)
          ]
      run-Responds (authenticate challenge application key_handle flags) s now same =
          run_authenticate-Responds challenge application key_handle flags s now
      run-Responds version s now same = omega arith
      run-Responds (vendor_specific payload) s now same = tt

      pub process_command-Responds :
          (message : List ℕ) (s : Ctap t p) (now : ClockValue)
          → s.persistent_store ≡ store
          → Responds (process_command t p message s now)
      unfolding process_command
      process_command-Responds message s now same = elim (Option-cases (try_from message)) [
        | inl panics ↦ absurd (try_from-no_panic message panics)
        | inr (err code, e) ↦ rw (e, process_command) tt
        | inr (ok command, e) ↦ rw (e, process_command) (run-Responds command s now same)
      ]
