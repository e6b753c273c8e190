-- ===== src/Pin/Token.antt =====
-- The subcommands of src/ctap/pin_protocol_v1.rs, one function each, and what the commands of
-- src/ctap/mod.rs ask the protocol.
use open_sk.Common.{ℕ, Bool, true, false, ◌&&◌, List, [], ◌∷◌, ◌++◌, replicate, bit_and}
use open_sk.Common.{Option, none, some, ◌==◌, ltb, eq_bytes, if◌then◌else◌, not}
use open_sk.Common.Results.{Result, ok, err, map_err}
use open_sk.Common.Results
use open_sk.Common.Actions.{◌>>=◌, done, fail, fail_if, reading, changing}
use open_sk.Crypto.Cbc.{cbc_encrypt}
use open_sk.Ctap.Status.{Ctap2StatusCode, ctap1_err_invalid_parameter}
use open_sk.Ctap.Status.{ctap2_err_pin_blocked, ctap2_err_pin_auth_invalid}
use open_sk.Ctap.Status.{ctap2_err_pin_auth_blocked, ctap2_err_invalid_subcommand}
use open_sk.Ctap.Status.{ctap2_err_unsupported_extension, ctap2_err_pin_policy_violation}
use open_sk.Ctap.State.{concat}
use open_sk.Storage.Read.{pin_hash, pin_retries, min_pin_length}
use open_sk.Storage.Write.{reset_pin_retries, set_min_pin_length}
use open_sk.Formats.Cose.{CoseKey, cose_from_pubkey, GetAssertionHmacSecretInput}
use open_sk.Formats.Responses.{AuthenticatorClientPinResponse}
use open_sk.Pin.Blocks.{blocks_of, zero_iv}
use open_sk.Pin.Secrets.{PinPrimitives, verify_pin_auth, encrypt_hmac_secret_output}
use open_sk.Pin.Verify.{State, Call, from_store, on_store, draw_agreement_key, draw_token}
use open_sk.Pin.Verify.{set_mismatches, check_and_store_new_pin, verify_pin_hash_enc}
use open_sk.Pin.Verify.{shared_secret, exchange_decryption_key, is_blocked}

pub data PinPermission : Type 0 where
  make_credential get_assertion credential_management bio_enrollment : PinPermission
  platform_configuration authenticator_configuration : PinPermission

-- `permission as u8`
unfoldable pub permission_bit : PinPermission → ℕ
permission_bit make_credential = 0x01
permission_bit get_assertion = 0x02
permission_bit credential_management = 0x04
permission_bit bio_enrollment = 0x08
permission_bit platform_configuration = 0x10
permission_bit authenticator_configuration = 0x20

abbrev pub Response : Type 0
Response = AuthenticatorClientPinResponse

abbrev pub is_set : Option (List ℕ) → Bool
is_set none = false
is_set (some hash) = true

module _ (p : PinPrimitives) where
  abbrev pub set_permissions : ℕ → Option (List ℕ) → State p → State p
  set_permissions permissions rp_id s = record s {
    pin_protocol = record s.pin_protocol { permissions = permissions; permissions_rp_id = rp_id };
  }

  -- The retries are not used up.
  abbrev pub check_retries : Call p (Unit {0})
  check_retries = do
    retries ← from_store p (pin_retries p.store)
    fail_if (retries == 0) ctap2_err_pin_blocked

  unfoldable pub process_get_pin_retries : Call p Response
  process_get_pin_retries = do
    retries ← from_store p (pin_retries p.store)
    done (record { key_agreement = none; pin_token = none; retries = some retries })

  unfoldable pub process_get_key_agreement : Call p Response
  process_get_key_agreement s = (
    s,
    ok (record {
      key_agreement =
          some (cose_from_pubkey p.ecdh (p.ecdh.genpk s.pin_protocol.key_agreement_key));
      pin_token = none;
      retries = none;
    }),
  )

  unfoldable pub process_set_pin : CoseKey → List ℕ → List ℕ → Call p (Unit {0})
  process_set_pin key_agreement pin_auth new_pin_enc = do
    stored ← from_store p (pin_hash p.store)
    _ ← fail_if (is_set stored) ctap2_err_pin_auth_invalid
    pin_decryption_key ← reading (exchange_decryption_key p key_agreement pin_auth new_pin_enc)
    _ ← on_store p (check_and_store_new_pin p pin_decryption_key new_pin_enc)
    on_store p (reset_pin_retries p.store)

  unfoldable pub process_change_pin : CoseKey → List ℕ → List ℕ → List ℕ → Call p (Unit {0})
  process_change_pin key_agreement pin_auth new_pin_enc pin_hash_enc = do
    _ ← check_retries
    pin_decryption_key ←
        reading (exchange_decryption_key p key_agreement pin_auth (new_pin_enc ++ pin_hash_enc))
    _ ← verify_pin_hash_enc p pin_decryption_key pin_hash_enc
    _ ← on_store p (check_and_store_new_pin p pin_decryption_key new_pin_enc)
    changing (draw_token p)

  unfoldable pub encrypted_token : p.aes256.Key → State p → List ℕ
  encrypted_token key s =
      concat (cbc_encrypt p.aes256 key zero_iv (blocks_of 2 s.pin_protocol.pin_uv_auth_token))

  unfoldable pub process_get_pin_token : CoseKey → List ℕ → Call p Response
  process_get_pin_token key_agreement pin_hash_enc = do
    _ ← check_retries
    secret ← reading (λ s. shared_secret p s.pin_protocol.key_agreement_key key_agreement)
    _ ← verify_pin_hash_enc p (p.aes256_key secret) pin_hash_enc
    pin_token ← reading (λ s. ok (encrypted_token (p.aes256_key secret) s))
    _ ← changing (set_permissions 0x03 none)
    done (record { key_agreement = none; pin_token = some pin_token; retries = none })

  unfoldable pub process_get_pin_uv_auth_token_using_uv_with_permissions :
      CoseKey → ℕ → Option (List ℕ) → Call p Response
  process_get_pin_uv_auth_token_using_uv_with_permissions key_agreement permissions rp_id =
      fail ctap2_err_invalid_subcommand

  unfoldable pub process_get_uv_retries : Call p Response
  process_get_uv_retries = fail ctap2_err_invalid_subcommand

  -- The message that authenticates a new minimum length.
  unfoldable pub min_pin_length_message : ℕ → List ℕ
  min_pin_length_message min_length =
      replicate 32 0xff ++ (0x06 ∷ 0x08 ∷ min_length ∷ 0 ∷ 0 ∷ 0 ∷ [])

  unfoldable pub authenticate_min_pin_length :
      ℕ → Option (List ℕ) → State p → Result {0, 0} Unit Ctap2StatusCode
  authenticate_min_pin_length min_length none s = err ctap2_err_pin_auth_invalid
  authenticate_min_pin_length min_length (some pin_auth) s =
      if is_blocked p s
      then err ctap2_err_pin_auth_blocked
      else if not (
          verify_pin_auth p s.pin_protocol.pin_uv_auth_token (min_pin_length_message min_length)
            pin_auth)
      then err ctap2_err_pin_auth_invalid
      else ok tt

  unfoldable pub process_set_min_pin_length :
      ℕ → Option (List (List ℕ)) → Option (List ℕ) → Call p (Unit {0})
  process_set_min_pin_length min_length (some rp_ids) pin_auth =
      fail ctap2_err_unsupported_extension
  process_set_min_pin_length min_length none pin_auth = do
    stored ← from_store p (pin_hash p.store)
    _ ←
        reading
          (λ s. if is_set stored then authenticate_min_pin_length min_length pin_auth s else ok tt)
    old_length ← from_store p (min_pin_length p.store)
    _ ← fail_if (ltb min_length old_length) ctap2_err_pin_policy_violation
    on_store p (set_min_pin_length p.store min_length)

  unfoldable pub process_get_pin_uv_auth_token_using_pin_with_permissions :
      CoseKey → List ℕ → ℕ → Option (List ℕ) → Call p Response
  process_get_pin_uv_auth_token_using_pin_with_permissions key_agreement pin_hash_enc permissions
        rp_id =
      do
        _ ← fail_if (permissions == 0) ctap1_err_invalid_parameter
        _ ←
            fail_if (not (bit_and permissions 0x03 == 0) && not (is_set rp_id))
              ctap1_err_invalid_parameter
        response ← process_get_pin_token key_agreement pin_hash_enc
        _ ← changing (set_permissions permissions rp_id)
        done response

  unfoldable pub verify_pin_auth_token : List ℕ → List ℕ → State p → Bool
  verify_pin_auth_token hmac_contents pin_auth s =
      verify_pin_auth p s.pin_protocol.pin_uv_auth_token hmac_contents pin_auth

  unfoldable pub reset : State p → State p
  reset s = set_permissions 0 none (set_mismatches p 0 (draw_token p (draw_agreement_key p s)))

  -- The HMAC check, and the outputs.
  unfoldable pub hmac_secret_output :
      List ℕ → List ℕ → List ℕ → List ℕ → Result (List ℕ) Ctap2StatusCode
  hmac_secret_output secret salt_enc salt_auth cred_random =
      if not (verify_pin_auth p secret salt_enc salt_auth)
      then err ctap2_err_unsupported_extension
      else encrypt_hmac_secret_output p secret salt_enc cred_random

  unfoldable pub process_hmac_secret :
      GetAssertionHmacSecretInput → List ℕ → State p → Result (List ℕ) Ctap2StatusCode
  process_hmac_secret input cred_random s =
      Results.◌>>=◌ (shared_secret p s.pin_protocol.key_agreement_key input.key_agreement)
        (λ secret. hmac_secret_output secret input.salt_enc input.salt_auth cred_random)

  unfoldable pub has_permission : PinPermission → State p → Result {0, 0} Unit Ctap2StatusCode
  has_permission permission s =
      if not (bit_and (permission_bit permission) s.pin_protocol.permissions == 0)
      then ok tt
      else err ctap2_err_pin_auth_invalid

  -- The state after the call and the result.
  abbrev pub rp_id_check :
      List ℕ → State p → Option (List ℕ) → State p × Result {0, 0} Unit Ctap2StatusCode
  rp_id_check rp_id s none = (set_permissions s.pin_protocol.permissions (some rp_id) s, ok tt)
  rp_id_check rp_id s (some permitted) =
      (s, if not (eq_bytes rp_id permitted) then err ctap2_err_pin_auth_invalid else ok tt)

  unfoldable pub has_permission_for_rp_id : List ℕ → Call p (Unit {0})
  has_permission_for_rp_id rp_id s = rp_id_check rp_id s s.pin_protocol.permissions_rp_id
