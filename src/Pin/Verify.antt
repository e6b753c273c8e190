-- ===== src/Pin/Verify.antt =====
-- The state of src/ctap/pin_protocol_v1.rs, and the checks of the PIN.
use open_sk.Common.{ℕ, ◌+◌, ◌%◌, ◌^◌, Bool, ◌||◌, List, [], ◌∷◌, take, length}
use open_sk.Common.{Option, none, some, ◌==◌, ltb, leb, eq_bytes, if◌then◌else◌, not}
use open_sk.Common.Results.{Result, ok, err, ok_or}
use open_sk.Common.Results
use open_sk.Common.Actions.{Action, ◌>>=◌, done, fail, fail_if, reading, changing}
use open_sk.Crypto.Cbc.{cbc_decrypt}
use open_sk.Ctap.Status.{Ctap2StatusCode, ctap2_err_pin_auth_blocked, ctap2_err_pin_invalid}
use open_sk.Ctap.Status.{ctap2_err_pin_blocked, ctap2_err_pin_required}
use open_sk.Ctap.Status.{ctap2_err_pin_policy_violation, ctap2_err_pin_auth_invalid}
use open_sk.Ctap.State.{concat}
use open_sk.Storage.Read.{pin_hash, pin_retries, min_pin_length, pin_auth_length}
use open_sk.Storage.Write.{Storing, set_pin_hash, decr_pin_retries, reset_pin_retries}
use open_sk.Formats.Cose.{CoseKey, pubkey_from_cose}
use open_sk.Pin.Blocks.{zero_iv}
use open_sk.Pin.Secrets.{PinPrimitives, verify_pin_auth, decrypt_pin, pin_padded_length}

pub record PinProtocolV1 (SecKey : Type 0) : Type 0 where
  pub key_agreement_key : SecKey
  pub pin_uv_auth_token : List ℕ
  pub consecutive_pin_mismatches : ℕ
  pub permissions : ℕ
  pub permissions_rp_id : Option (List ℕ)

-- What the calls of the protocol read and change: `self`, `rng` and `persistent_store`.
pub record PinState (SecKey Rng Store : Type 0) : Type 0 where
  pub rng : Rng
  pub persistent_store : Store
  pub pin_protocol : PinProtocolV1 SecKey

module _ (p : PinPrimitives) where
  abbrev pub State : Type 0
  State = PinState p.ecdh.SecKey p.rng.Rng p.store.Store

  abbrev pub Call : Type 0 → Type 0
  Call A = Action State Ctap2StatusCode A

  abbrev pub from_store : {A : Type 0} → (p.store.Store → Result A Ctap2StatusCode) → Call A
  from_store f s = (s, f s.persistent_store)

  abbrev pub on_store : Storing p.store → Call (Unit {0})
  on_store call s =
      let (store', result) = call s.persistent_store in
      (record s { persistent_store = store' }, result)

  -- `SecKey::gensk(rng)`
  abbrev pub draw_agreement_key : State → State
  draw_agreement_key s =
      let (sk, rng') = p.ecdh.gensk s.rng in
      record s { rng = rng'; pin_protocol = record s.pin_protocol { key_agreement_key = sk } }

  abbrev pub draw_token : State → State
  draw_token s =
      let (token, rng') = p.rng.gen_uniform_u8x32 s.rng in
      record s { rng = rng'; pin_protocol = record s.pin_protocol { pin_uv_auth_token = token } }

  abbrev pub set_mismatches : ℕ → State → State
  set_mismatches n s = record s {
    pin_protocol = record s.pin_protocol { consecutive_pin_mismatches = n };
  }

  unfoldable pub new_protocol : p.rng.Rng → PinProtocolV1 p.ecdh.SecKey × p.rng.Rng
  new_protocol rng =
      let (sk, rng1) = p.ecdh.gensk rng in
      let (token, rng2) = p.rng.gen_uniform_u8x32 rng1 in
      (
        record {
          key_agreement_key = sk;
          pin_uv_auth_token = token;
          consecutive_pin_mismatches = 0;
          permissions = 0;
          permissions_rp_id = none;
        },
        rng2,
      )

  -- The length that the PIN policy asks for, and the hash that is stored.
  unfoldable pub store_pin : List ℕ → ℕ → Storing p.store
  store_pin pin min_length =
      if ltb (length pin) min_length || length pin == pin_padded_length
      then fail ctap2_err_pin_policy_violation
      else set_pin_hash p.store (take 16 (p.sha256.hash pin))

  unfoldable pub check_and_store_new_pin : p.aes256.Key → List ℕ → Storing p.store
  check_and_store_new_pin aes_dec_key new_pin_enc = do
    pin ←
        reading (λ _. ok_or (decrypt_pin p aes_dec_key new_pin_enc) ctap2_err_pin_policy_violation)
    min_length ← reading (min_pin_length p.store)
    store_pin pin min_length

  -- Whether too many PINs have been wrong since the last boot or the last right one.
  unfoldable pub is_blocked : State → Bool
  is_blocked s = leb 3 s.pin_protocol.consecutive_pin_mismatches

  -- A mismatch is counted, and answered by whether it is one too many.
  unfoldable pub count_mismatch : Call (Unit {0})
  count_mismatch s =
      let s' = set_mismatches ((s.pin_protocol.consecutive_pin_mismatches + 1) % 2 ^ 8) s in
      (s', err (if is_blocked s' then ctap2_err_pin_auth_blocked else ctap2_err_pin_invalid))

  -- A wrong PIN.
  unfoldable pub handle_mismatch : Call (Unit {0})
  handle_mismatch = do
    _ ← changing draw_agreement_key
    retries ← from_store (pin_retries p.store)
    _ ← fail_if (retries == 0) ctap2_err_pin_blocked
    count_mismatch

  -- The hash that the platform sent, decrypted.
  unfoldable pub decrypted_hash : p.aes256.Key → List ℕ → List ℕ
  decrypted_hash aes_dec_key pin_hash_enc =
      concat (cbc_decrypt p.aes256 aes_dec_key zero_iv (pin_hash_enc ∷ []))

  -- The comparison with the stored hash, once a retry is used up.
  unfoldable pub compare_pin_hash : p.aes256.Key → List ℕ → List ℕ → Call (Unit {0})
  compare_pin_hash aes_dec_key pin_hash_enc stored = do
    _ ← fail_if (not (length pin_hash_enc == pin_auth_length)) ctap2_err_pin_invalid
    if eq_bytes stored (decrypted_hash aes_dec_key pin_hash_enc) then done tt else handle_mismatch

  -- The case of a PIN that is set.
  unfoldable pub check_pin_hash : p.aes256.Key → List ℕ → List ℕ → Call (Unit {0})
  check_pin_hash aes_dec_key pin_hash_enc stored = do
    _ ← reading (λ s. if is_blocked s then err ctap2_err_pin_auth_blocked else ok tt)
    _ ← on_store (decr_pin_retries p.store)
    compare_pin_hash aes_dec_key pin_hash_enc stored

  abbrev pub if_set : (List ℕ → Call (Unit {0})) → Option (List ℕ) → Call (Unit {0})
  if_set check none = fail ctap2_err_pin_required
  if_set check (some stored) = check stored

  unfoldable pub verify_pin_hash_enc : p.aes256.Key → List ℕ → Call (Unit {0})
  verify_pin_hash_enc aes_dec_key pin_hash_enc = do
    stored ← from_store (pin_hash p.store)
    _ ← if_set (check_pin_hash aes_dec_key pin_hash_enc) stored
    _ ← on_store (reset_pin_retries p.store)
    changing (set_mismatches 0)

  -- `exchange_x_sha256` with a key that the platform sent.
  unfoldable pub shared_secret : p.ecdh.SecKey → CoseKey → Result (List ℕ) Ctap2StatusCode
  shared_secret key key_agreement =
      Results.◌>>=◌ (pubkey_from_cose p.ecdh key_agreement)
        (λ pk. ok (p.ecdh.exchange_x_sha256 key pk))

  unfoldable pub exchange_decryption_key :
      CoseKey → List ℕ → List ℕ → State → Result p.aes256.Key Ctap2StatusCode
  exchange_decryption_key key_agreement pin_auth authenticated_message s =
      Results.◌>>=◌ (shared_secret s.pin_protocol.key_agreement_key key_agreement) (λ secret.
        if not (verify_pin_auth p secret authenticated_message pin_auth)
        then err ctap2_err_pin_auth_invalid
        else ok (p.aes256_key secret))
