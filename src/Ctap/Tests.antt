-- ===== src/Ctap/Tests.antt =====
-- CTAP1 at concrete messages, over toy primitives.
use open_sk.Common.{
  ℕ, ◌+◌, ◌≡◌, ◌≢◌, ◌↔◌, refl, ap, arith, true, false, List, [], ◌∷◌, ◌++◌, All, none, some,
  replicate, length, ltb, if◌then◌else◌, eq_bytes, ◌≤◌,
}
use open_sk.Common.Bits.{IsByte}
use open_sk.Common.Results.{ok, err}
use open_sk.Timer.{ticking}
use open_sk.Permission
use open_sk.Permission.{waiting, granted, is_granted, is_positive}
use open_sk.Permission.Presence.{consume_up}
use open_sk.Apdu.Types.{sw_wrong_data, sw_cond_use_not_satisfied}
use open_sk.Apdu.Parse
use open_sk.Apdu.Parse.{
  parse_payload, parse_extended, build_extended, extended_le, extended_case, parse_first, parse_lc,
  slice, header_from, index, last, sub, read_u16, last_word,
}
use open_sk.Toy.{toy_rng, toy_ecdsa, toy_cipher, toy_hash}
use open_sk.Ctap.Primitives.{Primitives, PersistentStore, MasterKeys}
use open_sk.Ctap.State.{Ctap, encrypt_key_handle, decrypt_credential_source, source_from}
use open_sk.Ctap.KeyHandle.{IsHash, key_handle, length-key_handle, decrypt-encrypt_key_handle}
use open_sk.Ctap.U2f.{
  register, enforce_up_and_sign, try_from, parse_apdu, parse_instruction, parse_register,
}
use open_sk.Ctap.Ctap1.{
  process_command, process_authenticate, sign_assertion, run, run_register, process_register,
  attest, attestation, attested_response, is_check_only,
}
use open_sk.Ctap.Messages.{try_from-no_panic}
use open_sk.Ctap.Requests.{Requests, try_from-command_iff}
use open_sk.Ctap.UserPresence.{process_command-present}
use open_sk.Ctap.Registration.{Attested, process_command-registers}
use open_sk.Ctap.Assertion.{process_authenticate-key_handle}

abbrev toy_keys : MasterKeys
toy_keys = record { encryption = replicate 32 8; hmac = replicate 32 9 }

-- The store is its signature counter.
abbrev toy_store : PersistentStore
toy_store = record {
  Store = ℕ;
  master_keys = λ s. ok toy_keys;
  attestation_certificate = λ s. ok (some (0xce ∷ []));
  attestation_private_key = λ s. ok (some (replicate 32 2));
  global_signature_counter = λ s. ok s;
  incr_global_signature_counter = λ n s. (s + n, ok tt);
}

abbrev toy : Primitives
toy = record {
  rng = toy_rng;
  ecdsa = toy_ecdsa;
  aes256 = toy_cipher;
  aes256_key = λ bytes. length bytes;
  sha256 = toy_hash;
  store = toy_store;
}

-- The user has touched the key.
abbrev touched : Ctap ticking toy
touched = record {
  rng = 3;
  persistent_store = 40;
  u2f_up_state = record {
    needs_up = waiting;
    has_up = granted 1000;
    request_duration = 1000;
    presence_duration = 500;
  };
}

abbrev untouched : Ctap ticking toy
untouched = record {
  rng = 3;
  persistent_store = 40;
  u2f_up_state = record {
    needs_up = waiting;
    has_up = waiting;
    request_duration = 1000;
    presence_duration = 500;
  };
}

abbrev application : List ℕ
application = replicate 32 0x61

application-IsHash : IsHash application
application-IsHash = record { size = refl; bytes = omega arith }

abbrev challenge : List ℕ
challenge = replicate 32 0x63

abbrev registration : List ℕ
registration = 0 ∷ 1 ∷ 0 ∷ 0 ∷ 0 ∷ 0 ∷ 64 ∷ (challenge ++ application)

registration-IsByte : All IsByte registration
registration-IsByte = omega arith

decrypt-encrypt_key_handle_example :
    let handle = key_handle ticking toy touched toy_keys false application in
    ((encrypt_key_handle ticking toy touched false application).1 ≡ ok handle)
    × (decrypt_credential_source ticking toy untouched handle (replicate 32 0x62)
        ≡ ok (
            if eq_bytes (replicate 32 0x62) application
            then some (source_from ticking toy handle false)
            else none))
decrypt-encrypt_key_handle_example =
    decrypt-encrypt_key_handle ticking toy touched untouched toy_keys false application
      (replicate 32 0x62) application-IsHash refl refl

process_authenticate-key_handle_example :
    process_authenticate ticking toy challenge application
      (key_handle ticking toy touched toy_keys false application)
      enforce_up_and_sign
      untouched
    ≡ (if eq_bytes application application
        then sign_assertion ticking toy false challenge application untouched
        else (untouched, err sw_wrong_data))
process_authenticate-key_handle_example =
    process_authenticate-key_handle ticking toy touched untouched toy_keys false application
      application challenge enforce_up_and_sign application-IsHash refl refl

try_from-no_panic_example : try_from registration ≢ none
try_from-no_panic_example = try_from-no_panic registration

try_from-command_iff_example :
    (try_from registration ≡ some (ok (register challenge application)))
    ↔ Requests registration (register challenge application)
try_from-command_iff_example =
    try_from-command_iff registration (register challenge application) registration-IsByte

parse_registration : try_from registration ≡ some (ok (register challenge application))
unfolding try_from parse_apdu parse_instruction parse_register Parse.try_from parse_payload
    parse_first parse_extended parse_lc build_extended extended_le extended_case slice header_from
    index last sub read_u16 last_word
parse_registration = refl

-- The state after the registration: two draws, and the presence used up.
abbrev registered : Ctap ticking toy
registered = record {
  rng = 5;
  persistent_store = 40;
  u2f_up_state = record {
    needs_up = waiting;
    has_up = waiting;
    request_duration = 1000;
    presence_duration = 500;
  };
}

-- The state once the key is drawn.
abbrev drawn : Ctap ticking toy
drawn = record registered { rng = 4 }

abbrev registration_response : List ℕ
registration_response =
    attested_response ticking toy true challenge application
      (key_handle ticking toy drawn toy_keys true application) false (0xce ∷ [])

made :
    encrypt_key_handle ticking toy drawn true application
    ≡ (registered, ok (key_handle ticking toy drawn toy_keys true application))
unfolding encrypt_key_handle
made = refl

made_short : ltb 0xff (length (key_handle ticking toy drawn toy_keys true application)) ≡ false
made_short =
    ground (arith, length-key_handle ticking toy drawn toy_keys true application application-IsHash)

attested :
    attest ticking toy registered true challenge application
      (key_handle ticking toy drawn toy_keys true application)
    ≡ some (registered, ok registration_response)
unfolding attest attestation
attested = refl

run_registered :
    process_register ticking toy challenge application (record registered { rng = 3 })
    ≡ some (registered, ok registration_response)
unfolding process_register
run_registered = rw (process_register, made, made_short, ap (λ r. r.0) made) attested

run_registration :
    process_command ticking toy registration touched 5 ≡ some (registered, ok registration_response)
unfolding process_command run run_register consume_up is_granted is_positive
    Permission.check_expiration
run_registration = rw (parse_registration, process_command) run_registered

process_command-present_example :
    ((consume_up ticking touched.u2f_up_state 5).1 ≡ true)
    × (registered.u2f_up_state ≡ (consume_up ticking touched.u2f_up_state 5).0)
process_command-present_example =
    process_command-present ticking toy registration (register challenge application) touched
      registered 5 registration_response parse_registration refl run_registration

process_command-registers_example :
    (sk : toy_ecdsa.SecKey) × (handle : List ℕ) × (length handle ≤ 255)
    × Attested ticking toy 40 sk challenge application handle registration_response
    × (process_authenticate ticking toy
          (replicate 32 1)
          application
          handle
          enforce_up_and_sign
          registered
        ≡ (if eq_bytes application application
            then (if is_check_only enforce_up_and_sign
                then (registered, err sw_cond_use_not_satisfied)
                else sign_assertion ticking toy sk (replicate 32 1) application registered)
            else (registered, err sw_wrong_data)))
process_command-registers_example =
    process_command-registers ticking toy registration challenge application registration_response
      touched registered registered toy_keys 5 application (replicate 32 1) enforce_up_and_sign
      application-IsHash parse_registration refl refl run_registration
