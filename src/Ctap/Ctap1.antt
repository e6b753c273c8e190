-- ===== src/Ctap/Ctap1.antt =====
-- `Ctap1Command` of src/ctap/ctap1.rs: registration and authentication by U2F.
use open_sk.Common.{ℕ, ◌%◌, ◌^◌, Bool, true, false, List, [], ◌∷◌, ◌++◌, take, drop, length}
use open_sk.Common.{Option, none, some, ltb, if◌then◌else◌, not}
use open_sk.Common.Results.{Result, ok, err, ◌>>=◌, map_err, ok_or}
use open_sk.Timer.{Timer}
use open_sk.Permission.Presence.{consume_up}
use open_sk.Apdu.Types.{ApduStatusCode, sw_success, sw_memerr, sw_wrong_data, sw_internal_exception}
use open_sk.Apdu.Types.{sw_cond_use_not_satisfied}
use open_sk.Ctap.Primitives.{Primitives}
use open_sk.Ctap.State.{Ctap, increment_global_signature_counter}
use open_sk.Ctap.State.{encrypt_key_handle, decrypt_credential_source, generate_auth_data}
use open_sk.Ctap.U2f.{Ctap1Flags, check_only, enforce_up_and_sign}
use open_sk.Ctap.U2f.{U2fCommand, register, authenticate, version, vendor_specific, try_from}

abbrev pub legacy_byte : ℕ
legacy_byte = 0x05

abbrev pub user_presence_indicator_byte : ℕ
user_presence_indicator_byte = 0x01

-- The bytes of "U2F_V2".
abbrev pub u2f_version_string : List ℕ
u2f_version_string = 0x55 ∷ 0x32 ∷ 0x46 ∷ 0x5f ∷ 0x56 ∷ 0x32 ∷ []

abbrev pub is_check_only : Ctap1Flags → Bool
is_check_only check_only = true
is_check_only _ = false

abbrev pub is_enforce_up : Ctap1Flags → Bool
is_enforce_up enforce_up_and_sign = true
is_enforce_up _ = false

module _ (t : Timer) (p : Primitives) where
  open t use {ClockValue}

  -- The state after the call and the result. `none` is a panic.
  abbrev pub Outcome : Type 0
  Outcome = Option (Ctap t p × Result (List ℕ) ApduStatusCode)

  -- The certificate and the private key of the attestation.
  unfoldable pub attestation : p.store.Store → Result (List ℕ × List ℕ) ApduStatusCode
  attestation store = do
    stored_certificate ← map_err (λ _. sw_memerr) (p.store.attestation_certificate store)
    certificate ← ok_or stored_certificate sw_internal_exception
    stored_key ← map_err (λ _. sw_internal_exception) (p.store.attestation_private_key store)
    private_key ← ok_or stored_key sw_internal_exception
    ok (certificate, private_key)

  unfoldable pub signature_data : List ℕ → List ℕ → List ℕ → List ℕ → List ℕ
  signature_data application challenge key_handle user_pk =
      0 ∷ application ++ (challenge ++ (key_handle ++ user_pk))

  unfoldable pub register_response : List ℕ → List ℕ → List ℕ → List ℕ → List ℕ
  register_response user_pk key_handle certificate signature =
      legacy_byte ∷ user_pk
      ++ (length key_handle % 2 ^ 8 ∷ key_handle ++ (certificate ++ signature))

  unfoldable pub attested_response :
      p.ecdsa.SecKey → List ℕ → List ℕ → List ℕ → p.ecdsa.SecKey → List ℕ → List ℕ
  attested_response sk challenge application key_handle attestation_key certificate =
      let user_pk = p.ecdsa.genpk sk in
      register_response user_pk key_handle certificate (
        p.ecdsa.sign_rfc6979 attestation_key
          (signature_data application challenge key_handle user_pk))

  -- What follows the key handle.
  unfoldable pub attest : Ctap t p → p.ecdsa.SecKey → List ℕ → List ℕ → List ℕ → Outcome
  attest s sk challenge application key_handle = elim (attestation s.persistent_store) [
    | err e ↦ some (s, err e)
    | ok (certificate, private_key) ↦ elim (p.ecdsa.from_bytes private_key) [
      | none ↦ none
      | some attestation_key ↦ some (
        s,
        ok (attested_response sk challenge application key_handle attestation_key certificate),
      )
    ]
  ]

  unfoldable pub process_register : List ℕ → List ℕ → Ctap t p → Outcome
  process_register challenge application s =
      let (sk, rng') = p.ecdsa.gensk s.rng in
      let (s', made) = encrypt_key_handle t p (record s { rng = rng' }) sk application in
      elim made [
        | err e ↦ some (s', err sw_internal_exception)
        | ok key_handle ↦
            if ltb 0xff (length key_handle)
            then some (s', err sw_internal_exception)
            else attest s' sk challenge application key_handle
      ]

  -- The signature over the authenticator data and the challenge, behind the presence and the counter.
  unfoldable pub authenticate_response : p.ecdsa.SecKey → List ℕ → List ℕ → List ℕ → List ℕ
  authenticate_response sk challenge application auth_data =
      take 5 (drop (length application) (auth_data ++ challenge))
      ++ p.ecdsa.sign_rfc6979 sk (auth_data ++ challenge)

  unfoldable pub sign_assertion :
      p.ecdsa.SecKey → List ℕ → List ℕ → Ctap t p → Ctap t p × Result (List ℕ) ApduStatusCode
  sign_assertion sk challenge application s =
      let (s', incremented) = increment_global_signature_counter t p s in
      let response = (do
        _ ← map_err (λ _. sw_wrong_data) incremented
        auth_data ←
            map_err (λ _. sw_wrong_data)
              (generate_auth_data t p s' application user_presence_indicator_byte)
        ok (authenticate_response sk challenge application auth_data)) in
      (s', response)

  unfoldable pub process_authenticate :
      List ℕ → List ℕ → List ℕ → Ctap1Flags → Ctap t p → Ctap t p × Result (List ℕ) ApduStatusCode
  process_authenticate challenge application key_handle flags s =
      elim (decrypt_credential_source t p s key_handle application) [
        | err e ↦ (s, err sw_wrong_data)
        | ok none ↦ (s, err sw_wrong_data)
        | ok (some source) ↦
            if is_check_only flags
            then (s, err sw_cond_use_not_satisfied)
            else sign_assertion source.private_key challenge application s
      ]

  unfoldable pub run_register : List ℕ → List ℕ → Ctap t p → ClockValue → Outcome
  run_register challenge application s now =
      let (up', present) = consume_up t s.u2f_up_state now in
      let s' = record s { u2f_up_state = up' } in
      if not present
      then some (s', err sw_cond_use_not_satisfied)
      else process_register challenge application s'

  unfoldable pub run_authenticate :
      List ℕ → List ℕ → List ℕ → Ctap1Flags → Ctap t p → ClockValue → Outcome
  run_authenticate challenge application key_handle flags s now =
      let (up', present) = consume_up t s.u2f_up_state now in
      let s' = record s { u2f_up_state = up' } in
      if is_enforce_up flags
      then (if not present
          then some (s', err sw_cond_use_not_satisfied)
          else some (process_authenticate challenge application key_handle flags s'))
      else some (process_authenticate challenge application key_handle flags s)

  -- The `match` on the command.
  unfoldable pub run : U2fCommand → Ctap t p → ClockValue → Outcome
  run (register challenge application) s now = run_register challenge application s now
  run (authenticate challenge application key_handle flags) s now =
      run_authenticate challenge application key_handle flags s now
  run version s now = some (s, ok u2f_version_string)
  run (vendor_specific payload) s now = some (s, err sw_success)

  unfoldable pub process_command : List ℕ → Ctap t p → ClockValue → Outcome
  process_command message s now = elim (try_from message) [
    | none ↦ none
    | some (err e) ↦ some (s, err e)
    | some (ok command) ↦ run command s now
  ]
