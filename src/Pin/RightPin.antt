-- ===== src/Pin/RightPin.antt =====
-- The right PIN, sent to src/ctap/pin_protocol_v1.rs by a platform that agreed on a key.
use open_sk.Common.{ℕ, ◌≤◌, ◌≡◌, refl, ap, subst, ◌∙◌, arith}
use open_sk.Common.{false, List, [], ◌∷◌, length, All, ◌==◌}
use open_sk.Common.{none, some, eq_bytes_refl, append-nil}
use open_sk.Common.{take_all}
use open_sk.Common.Bits.{IsByte}
use open_sk.Common.Results.{ok}
use open_sk.Crypto.Cbc.{IsBlock, cbc_decrypt}
use open_sk.Ctap.State.{concat}
use open_sk.Storage.Read.{pin_hash, pin_retries}
use open_sk.Storage.Write.{decr_pin_retries, reset_pin_retries}
use open_sk.Storage.Retries.{reset_pin_retries-pin_retries}
use open_sk.Formats.Cose.{cose_from_pubkey}
use open_sk.Pin.Blocks.{blocks_of, zero_iv, blocks_of-IsBlock, concat-blocks_of, length-blocks_of}
use open_sk.Pin.Secrets.{PinPrimitives}
use open_sk.Pin.Verify.{State, is_blocked, compare_pin_hash, check_pin_hash, verify_pin_hash_enc}
use open_sk.Pin.Verify.{decrypted_hash, set_mismatches}
use open_sk.Pin.Token.{process_get_pin_token, encrypted_token, set_permissions}
use open_sk.Pin.Guessing.{IsReliable}
use open_sk.Pin.HmacSecret.{platform_secret, encrypted, decrypted, length-encrypted}
use open_sk.Pin.HmacSecret.{shared_secret-platform, decrypt-encrypted}

module _ (p : PinPrimitives) where
  compare_pin_hash-right :
      (key : p.aes256.Key) (pin_hash_enc stored : List ℕ) (s : State p)
      → length pin_hash_enc ≡ 16
      → decrypted_hash p key pin_hash_enc ≡ stored
      → compare_pin_hash p key pin_hash_enc stored s ≡ (s, ok tt)
  unfolding compare_pin_hash
  compare_pin_hash-right key pin_hash_enc stored s e d =
      rw (compare_pin_hash, e, d, eq_bytes_refl stored) refl

  -- The state in which a retry is used up, and the one after a right PIN.
  abbrev lowered : State p → State p
  lowered s = record s { persistent_store = (decr_pin_retries p.store s.persistent_store).0 }

  abbrev pub opened : State p → State p
  opened s =
      set_mismatches p 0
        (record s { persistent_store = (reset_pin_retries p.store (lowered s).persistent_store).0 })

  check_pin_hash-right :
      (key : p.aes256.Key) (pin_hash_enc stored : List ℕ) (s : State p)
      → is_blocked p s ≡ false
      → (decr_pin_retries p.store s.persistent_store).1 ≡ ok tt
      → length pin_hash_enc ≡ 16
      → decrypted_hash p key pin_hash_enc ≡ stored
      → check_pin_hash p key pin_hash_enc stored s ≡ (lowered s, ok tt)
  unfolding check_pin_hash
  check_pin_hash-right key pin_hash_enc stored s b o e d =
      ground (arith, compare_pin_hash-right key pin_hash_enc stored (lowered s) e d)

  verify_pin_hash_enc-right :
      (key : p.aes256.Key) (pin_hash_enc stored : List ℕ) (s : State p) (n : ℕ)
      → IsReliable p
      → pin_retries p.store s.persistent_store ≡ ok n
      → pin_hash p.store s.persistent_store ≡ ok (some stored)
      → is_blocked p s ≡ false
      → length pin_hash_enc ≡ 16
      → decrypted_hash p key pin_hash_enc ≡ stored
      → verify_pin_hash_enc p key pin_hash_enc s ≡ (opened s, ok tt)
  unfolding verify_pin_hash_enc
  verify_pin_hash_enc-right key pin_hash_enc stored s n reliable r h b e d = ground (
    arith,
    check_pin_hash-right key pin_hash_enc stored s b (reliable.decr_ok s.persistent_store n r) e d,
    reliable.reset_ok (lowered s).persistent_store,
  )

  -- The encrypted hash is one block, and is decrypted to the hash.
  decrypted_hash-encrypted :
      (secret stored : List ℕ)
      → IsBlock stored
      → decrypted_hash p (p.aes256_key secret) (encrypted p secret (stored ∷ [])) ≡ stored
  unfolding decrypted_hash blocks_of
  decrypted_hash-encrypted secret stored h =
      let sent = encrypted p secret (stored ∷ []) in
      let size : length sent ≤ 16 =
        omega (arith, length-encrypted p secret (stored ∷ []) (h, tt)) in
      subst
        (λ block. concat (cbc_decrypt p.aes256 (p.aes256_key secret) zero_iv (block ∷ [])) ≡ stored)
        (take_all 16 sent size)
        (ap concat (decrypt-encrypted p secret (stored ∷ []) (h, tt)) ∙ append-nil stored)

  encrypted_token-decrypted :
      (secret : List ℕ) (s : State p)
      → length s.pin_protocol.pin_uv_auth_token ≡ 32
      → All IsByte s.pin_protocol.pin_uv_auth_token
      → decrypted p secret 2 (encrypted_token p (p.aes256_key secret) s)
        ≡ s.pin_protocol.pin_uv_auth_token
  unfolding encrypted_token
  encrypted_token-decrypted secret s e h =
      let token = s.pin_protocol.pin_uv_auth_token in
      let blocks = blocks_of 2 token in
      subst (λ n. decrypted p secret n (encrypted p secret blocks) ≡ token)
        (length-blocks_of 2 token)
        (ap concat (decrypt-encrypted p secret blocks (blocks_of-IsBlock 2 token e h))
          ∙ concat-blocks_of 2 token e)

  -- A platform that sends the hash of the PIN that is set is answered with the token, which it can
  -- decrypt, and the permissions to make credentials and to get assertions. The count of mismatches
  -- and the retries start anew. It needs a retry left, and less than three mismatches since the last
  -- right PIN; the store has to take every retry counter.
  pub process_get_pin_token-right :
      (theirs : p.ecdh.SecKey) (stored : List ℕ) (s : State p) (n : ℕ)
      → IsReliable p
      → pin_hash p.store s.persistent_store ≡ ok (some stored)
      → IsBlock stored
      → pin_retries p.store s.persistent_store ≡ ok n
      → (n == 0) ≡ false
      → is_blocked p s ≡ false
      → length s.pin_protocol.pin_uv_auth_token ≡ 32
      → All IsByte s.pin_protocol.pin_uv_auth_token
      → let secret = platform_secret p theirs s in
        let after = set_permissions p 3 none (opened s) in
        (pin_token : List ℕ) × (process_get_pin_token p
            (cose_from_pubkey p.ecdh (p.ecdh.genpk theirs))
            (encrypted p secret (stored ∷ []))
            s
          ≡ (
            after,
            ok (record { key_agreement = none; pin_token = some pin_token; retries = none }),
          ))
        × (decrypted p secret 2 pin_token ≡ s.pin_protocol.pin_uv_auth_token)
        × (pin_retries p.store after.persistent_store ≡ ok 8)
  unfolding process_get_pin_token
  process_get_pin_token-right theirs stored s n reliable h block e left b size bytes =
      let secret = platform_secret p theirs s in
      let key = p.aes256_key secret in
      let sent = encrypted p secret (stored ∷ []) in
      (
        encrypted_token p key (opened s),
        ground (
          arith,
          shared_secret-platform p theirs s,
          verify_pin_hash_enc-right key sent stored s n reliable e h b
              (length-encrypted p secret (stored ∷ []) (block, tt))
              (decrypted_hash-encrypted secret stored block),
        ),
        encrypted_token-decrypted secret (opened s) size bytes,
        reset_pin_retries-pin_retries p.store (lowered s).persistent_store
            (reliable.reset_ok (lowered s).persistent_store),
      )
