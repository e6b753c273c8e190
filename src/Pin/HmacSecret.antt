-- ===== src/Pin/HmacSecret.antt =====
-- The hmac-secret extension of src/ctap/pin_protocol_v1.rs, as the platform sees it.
use open_sk.Common.{ℕ, ◌*◌, ◌≡◌, refl, ap, subst, ◌∙◌, arith, true, List, [], ◌∷◌, ◌++◌}
use open_sk.Common.{
  take, length, All, All-append, ◌⊎◌, inl, inr, length-take, append-nil, eq_bytes_refl,
}
use open_sk.Common.{length-append}
use open_sk.Common.Results.{ok}
use open_sk.Crypto.Cbc.{Block16, IsBlock, cbc_encrypt, cbc_decrypt, cbc_decrypt-cbc_encrypt}
use open_sk.Crypto.Cbc.{cbc_encrypt-IsBlock, length-cbc_encrypt}
use open_sk.Crypto.Hmac.{hmac_256, hmac_256_size, hmac_256_bytes, verify_hmac_256_first_128bits}
use open_sk.Ctap.State.{concat}
use open_sk.Formats.Cose.{cose_from_pubkey}
use open_sk.Formats.RoundTrip.{pubkey_from_cose-cose_from_pubkey}
use open_sk.Pin.Blocks.{blocks_of, zero_iv, zero_iv-IsBlock, blocks_of-concat, blocks_of-IsBlock}
use open_sk.Pin.Blocks.{concat-blocks_of, length-blocks_of, length-concat, concat-append}
use open_sk.Pin.Secrets.{PinPrimitives, verify_pin_auth, encrypt_hmac_secret_output, salt_outputs}
use open_sk.Pin.Secrets.{salt_output}
use open_sk.Pin.Verify.{State, shared_secret}
use open_sk.Pin.Token.{process_hmac_secret, hmac_secret_output}

module _ (p : PinPrimitives) where
  -- The secret that the platform computes from its key and the authenticator's public key.
  abbrev pub platform_secret : p.ecdh.SecKey → State p → List ℕ
  platform_secret theirs s =
      p.ecdh.exchange_x_sha256 theirs (p.ecdh.genpk s.pin_protocol.key_agreement_key)

  -- Encryption and decryption of the platform.
  abbrev pub encrypted : List ℕ → List Block16 → List ℕ
  encrypted secret blocks = concat (cbc_encrypt p.aes256 (p.aes256_key secret) zero_iv blocks)

  abbrev pub decrypted : List ℕ → ℕ → List ℕ → List ℕ
  decrypted secret n bytes =
      concat (cbc_decrypt p.aes256 (p.aes256_key secret) zero_iv (blocks_of n bytes))

  -- The platform's authentication of what it sends.
  abbrev pub pin_auth_of : List ℕ → List ℕ → List ℕ
  pin_auth_of secret contents = take 16 (hmac_256 p.sha256 secret contents)

  pub shared_secret-platform :
      (theirs : p.ecdh.SecKey) (s : State p)
      → shared_secret p s.pin_protocol.key_agreement_key
          (cose_from_pubkey p.ecdh (p.ecdh.genpk theirs))
        ≡ ok (platform_secret theirs s)
  unfolding shared_secret
  shared_secret-platform theirs s =
      rw
        (
          pubkey_from_cose-cose_from_pubkey p.ecdh (p.ecdh.genpk theirs),
          p.ecdh.exchange_comm s.pin_protocol.key_agreement_key theirs,
        )
        refl

  pub verify-pin_auth_of :
      (secret contents : List ℕ)
      → verify_pin_auth p secret contents (pin_auth_of secret contents) ≡ true
  unfolding verify_pin_auth verify_hmac_256_first_128bits
  verify-pin_auth_of secret contents = ground (
    arith,
    length-take 16 (hmac_256 p.sha256 secret contents),
    hmac_256_size p.sha256 secret contents,
    eq_bytes_refl (pin_auth_of secret contents),
  )

  pub length-encrypted :
      (secret : List ℕ) (blocks : List Block16)
      → All IsBlock blocks
      → length (encrypted secret blocks) ≡ 16 * length blocks
  length-encrypted secret blocks h =
      length-concat (cbc_encrypt p.aes256 (p.aes256_key secret) zero_iv blocks)
        (cbc_encrypt-IsBlock p.aes256 (p.aes256_key secret) zero_iv blocks zero_iv-IsBlock h)
      ∙ ap (λ n. 16 * n) (length-cbc_encrypt p.aes256 (p.aes256_key secret) zero_iv blocks)

  -- What one side encrypts, the other decrypts.
  pub decrypt-encrypted :
      (secret : List ℕ) (blocks : List Block16)
      → All IsBlock blocks
      → cbc_decrypt p.aes256
          (p.aes256_key secret)
          zero_iv
          (blocks_of (length blocks) (encrypted secret blocks))
        ≡ blocks
  decrypt-encrypted secret blocks h =
      let key = p.aes256_key secret in
      let sent = cbc_encrypt p.aes256 key zero_iv blocks in
      rw
        (
          ← length-cbc_encrypt p.aes256 key zero_iv blocks,
          blocks_of-concat sent (cbc_encrypt-IsBlock p.aes256 key zero_iv blocks zero_iv-IsBlock h),
        )
        (cbc_decrypt-cbc_encrypt p.aes256 key zero_iv blocks zero_iv-IsBlock h)

  -- The outputs that the platform is promised: the HMAC of each salt, which is two blocks.
  abbrev pub salt_hmacs : List ℕ → List Block16 → List ℕ
  salt_hmacs cred_random (a ∷ b ∷ more) =
      hmac_256 p.sha256 cred_random (a ++ b) ++ salt_hmacs cred_random more
  salt_hmacs cred_random _ = []

  salt_output-IsBlock :
      (cred_random : List ℕ) (salt : List Block16) → All IsBlock (salt_output p cred_random salt)
  unfolding salt_output
  salt_output-IsBlock cred_random salt =
      blocks_of-IsBlock 2 (hmac_256 p.sha256 cred_random (concat salt))
        (hmac_256_size p.sha256 cred_random (concat salt))
        (hmac_256_bytes p.sha256 cred_random (concat salt))

  length-salt_output :
      (cred_random : List ℕ) (salt : List Block16) → length (salt_output p cred_random salt) ≡ 2
  unfolding salt_output
  length-salt_output cred_random salt =
      length-blocks_of 2 (hmac_256 p.sha256 cred_random (concat salt))

  concat-salt_output :
      (cred_random : List ℕ) (a b : Block16)
      → concat (salt_output p cred_random (a ∷ b ∷ [])) ≡ hmac_256 p.sha256 cred_random (a ++ b)
  unfolding salt_output
  concat-salt_output cred_random a b =
      concat-blocks_of 2 (hmac_256 p.sha256 cred_random (a ++ (b ++ [])))
        (hmac_256_size p.sha256 cred_random (a ++ (b ++ [])))
      ∙ ap (λ t. hmac_256 p.sha256 cred_random (a ++ t)) (append-nil b)

  -- The blocks that the authenticator encrypts, for one salt and for two.
  record IsAnswer (cred_random : List ℕ) (salts outputs : List Block16) : Type 0 where
    blocks : All IsBlock outputs
    count : length outputs ≡ length salts
    hmacs : concat outputs ≡ salt_hmacs cred_random salts

  salt_outputs-one :
      (cred_random : List ℕ) (a b : Block16)
      → IsAnswer cred_random (a ∷ b ∷ []) (salt_outputs p cred_random 2 (a ∷ b ∷ []))
  unfolding salt_outputs
  salt_outputs-one cred_random a b = record {
    blocks =
        rw (append-nil (salt_output p cred_random (a ∷ b ∷ [])))
          (salt_output-IsBlock cred_random (a ∷ b ∷ []));
    count =
        rw (append-nil (salt_output p cred_random (a ∷ b ∷ [])))
          (length-salt_output cred_random (a ∷ b ∷ []));
    hmacs =
        rw
          (
            append-nil (salt_output p cred_random (a ∷ b ∷ [])),
            append-nil (hmac_256 p.sha256 cred_random (a ++ b)),
          )
          (concat-salt_output cred_random a b);
  }

  salt_outputs-two :
      (cred_random : List ℕ) (a b c d : Block16)
      → IsAnswer cred_random
          (a ∷ b ∷ c ∷ d ∷ [])
          (salt_outputs p cred_random 4 (a ∷ b ∷ c ∷ d ∷ []))
  unfolding salt_outputs
  salt_outputs-two cred_random a b c d =
      let first = salt_output p cred_random (a ∷ b ∷ []) in
      let second = salt_output p cred_random (c ∷ d ∷ []) in
      record {
        blocks =
            All-append IsBlock first second (salt_output-IsBlock cred_random (a ∷ b ∷ []))
              (salt_output-IsBlock cred_random (c ∷ d ∷ []));
        count = omega (
          arith,
          length-append first second,
          length-salt_output cred_random (a ∷ b ∷ []),
          length-salt_output cred_random (c ∷ d ∷ []),
        );
        hmacs =
            rw
              (
                concat-append first second,
                concat-salt_output cred_random a b,
                concat-salt_output cred_random c d,
                append-nil (hmac_256 p.sha256 cred_random (c ++ d)),
              )
              refl;
      }

  salt_outputs-IsAnswer :
      (cred_random : List ℕ) (salts : List Block16)
      → (length salts ≡ 2) ⊎ (length salts ≡ 4)
      → IsAnswer cred_random salts (salt_outputs p cred_random (length salts) salts)
  salt_outputs-IsAnswer cred_random (a ∷ b ∷ []) n = salt_outputs-one cred_random a b
  salt_outputs-IsAnswer cred_random (a ∷ b ∷ c ∷ d ∷ []) n = salt_outputs-two cred_random a b c d
  salt_outputs-IsAnswer cred_random [] n = ground arith
  salt_outputs-IsAnswer cred_random (a ∷ []) n = ground arith
  salt_outputs-IsAnswer cred_random (a ∷ b ∷ c ∷ []) n = ground arith
  salt_outputs-IsAnswer cred_random (a ∷ b ∷ c ∷ d ∷ e ∷ more) n = ground arith

  -- The check of the size, and the number of blocks.
  encrypt_hmac_secret_output-sized :
      (secret cred_random bytes : List ℕ) (salts : List Block16) (n : ℕ)
      → (n ≡ 2) ⊎ (n ≡ 4)
      → length bytes ≡ 16 * n
      → cbc_decrypt p.aes256 (p.aes256_key secret) zero_iv (blocks_of n bytes) ≡ salts
      → encrypt_hmac_secret_output p secret bytes cred_random
        ≡ ok (encrypted secret (salt_outputs p cred_random n salts))
  unfolding encrypt_hmac_secret_output
  encrypt_hmac_secret_output-sized secret cred_random bytes salts n (inl two) e d =
      let size : length bytes ≡ 32 = omega (arith, e, two) in
      let same =
        subst (λ m. cbc_decrypt p.aes256 (p.aes256_key secret) zero_iv (blocks_of m bytes) ≡ salts)
          two d in
      rw (two, encrypt_hmac_secret_output, size, same) refl
  encrypt_hmac_secret_output-sized secret cred_random bytes salts n (inr four) e d =
      let size : length bytes ≡ 64 = omega (arith, e, four) in
      let same =
        subst (λ m. cbc_decrypt p.aes256 (p.aes256_key secret) zero_iv (blocks_of m bytes) ≡ salts)
          four d in
      rw (four, encrypt_hmac_secret_output, size, same) refl

  -- A platform that agreed on a key with the authenticator sends one salt or two, encrypted and
  -- authenticated, and decrypts the answer to the HMAC of each salt under the credential's secret.
  pub process_hmac_secret-salts :
      (theirs : p.ecdh.SecKey) (cred_random : List ℕ) (salts : List Block16) (s : State p)
      → All IsBlock salts
      → (length salts ≡ 2) ⊎ (length salts ≡ 4)
      → let secret = platform_secret theirs s in
        let salt_enc = encrypted secret salts in
        (answer : List ℕ) × (process_hmac_secret p
            (record {
              key_agreement = cose_from_pubkey p.ecdh (p.ecdh.genpk theirs);
              salt_enc = salt_enc;
              salt_auth = pin_auth_of secret salt_enc;
            })
            cred_random
            s
          ≡ ok answer)
        × (decrypted secret (length salts) answer ≡ salt_hmacs cred_random salts)
  unfolding process_hmac_secret hmac_secret_output
  process_hmac_secret-salts theirs cred_random salts s h n =
      let secret = platform_secret theirs s in
      let salt_enc = encrypted secret salts in
      let outputs = salt_outputs p cred_random (length salts) salts in
      let is_answer = salt_outputs-IsAnswer cred_random salts n in
      (
        encrypted secret outputs,
        rw (shared_secret-platform theirs s, verify-pin_auth_of secret salt_enc)
            (encrypt_hmac_secret_output-sized secret cred_random salt_enc salts (length salts) n
              (length-encrypted secret salts h) (decrypt-encrypted secret salts h)),
        subst (λ m. decrypted secret m (encrypted secret outputs) ≡ salt_hmacs cred_random salts)
            is_answer.count
            (ap concat (decrypt-encrypted secret outputs is_answer.blocks) ∙ is_answer.hmacs),
      )
