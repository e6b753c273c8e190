-- ===== src/Pin/SetPin.antt =====
-- The PIN that src/ctap/pin_protocol_v1.rs takes out of what a platform encrypts.
use open_sk.Common.{ℕ, zero, suc, ◌-◌, ◌≤◌, ◌<◌, ◌≡◌, refl, ap, subst, ◌∙◌, arith, List, [], ◌∷◌}
use open_sk.Common.{◌++◌, take, length, replicate, All, none, some, false, ◌||◌, ◌==◌, ltb}
use open_sk.Common.{if◌then◌else◌, length-append, length-replicate, length-take, All-append}
use open_sk.Common.Bits.{IsByte}
use open_sk.Common.Results.{ok}
use open_sk.Common.Actions.{fail}
use open_sk.Ctap.Status.{ctap2_err_pin_policy_violation}
use open_sk.Ctap.State.{concat}
use open_sk.Storage.Read.{pin_hash, pin_retries, min_pin_length}
use open_sk.Storage.Write.{reset_pin_retries, set_pin_hash}
use open_sk.Storage.Retries.{reset_pin_retries-pin_retries, reset_pin_retries-pin_hash}
use open_sk.Storage.Retries.{set_pin_hash-pin_hash}
use open_sk.Formats.Cose.{cose_from_pubkey}
use open_sk.Pin.Blocks.{blocks_of, blocks_of-IsBlock, concat-blocks_of, length-blocks_of}
use open_sk.Pin.Secrets.{PinPrimitives, decrypt_pin, take_while_nonzero}
use open_sk.Pin.Verify.{State, store_pin, check_and_store_new_pin, exchange_decryption_key}
use open_sk.Pin.Token.{process_set_pin}
use open_sk.Pin.HmacSecret.{platform_secret, encrypted, decrypted, pin_auth_of, length-encrypted}
use open_sk.Pin.HmacSecret.{shared_secret-platform, verify-pin_auth_of, decrypt-encrypted}

-- The PIN padded to 64 bytes by zeros.
abbrev pub padded : List ℕ → List ℕ
padded pin = pin ++ replicate (64 - length pin) 0

-- A PIN of bytes that are not zero.
abbrev pub IsPinByte : ℕ → Type 0
IsPinByte c = (0 < c) × IsByte c

zeros_end : (n : ℕ) → take_while_nonzero (replicate n 0) ≡ []
unfolding take_while_nonzero
zeros_end zero = refl
zeros_end (suc n) = refl

take_while_nonzero-padded :
    (pin : List ℕ) (n : ℕ) → All IsPinByte pin → take_while_nonzero (pin ++ replicate n 0) ≡ pin
unfolding take_while_nonzero
take_while_nonzero-padded [] n h = zeros_end n
take_while_nonzero-padded (c ∷ pin) n h = ground (arith, h.0.0, take_while_nonzero-padded pin n h.1)

length-padded : (pin : List ℕ) → length pin < 64 → length (padded pin) ≡ 64
length-padded pin h =
    let zeros : List ℕ = replicate (64 - length pin) 0 in
    omega (arith, length-append pin zeros, length-replicate {A = ℕ} (64 - length pin) 0)

zeros-IsByte : (n : ℕ) → All IsByte (replicate n 0)
zeros-IsByte zero = tt
zeros-IsByte (suc n) = (omega arith, zeros-IsByte n)

pin-IsByte : (pin : List ℕ) → All IsPinByte pin → All IsByte pin
pin-IsByte [] h = tt
pin-IsByte (c ∷ pin) h = (h.0.1, pin-IsByte pin h.1)

padded-IsByte : (pin : List ℕ) → All IsPinByte pin → All IsByte (padded pin)
padded-IsByte pin h =
    All-append IsByte pin (replicate (64 - length pin) 0) (pin-IsByte pin h)
      (zeros-IsByte (64 - length pin))

-- The length that the policy refuses.
allowed : (size m : ℕ) → m ≤ size → size < 64 → (ltb size m || size == 64) ≡ false
allowed size m le lt = ground arith

module _ (p : PinPrimitives) where
  -- What the platform sends for a new PIN.
  abbrev pub new_pin_enc_of : List ℕ → List ℕ → List ℕ
  new_pin_enc_of secret pin = encrypted p secret (blocks_of 4 (padded pin))

  new_pin_enc-size :
      (secret pin : List ℕ)
      → length pin < 64
      → All IsPinByte pin
      → length (new_pin_enc_of secret pin) ≡ 64
  new_pin_enc-size secret pin lt h =
      let blocks = blocks_of 4 (padded pin) in
      omega (
        arith,
        length-encrypted p secret blocks
            (blocks_of-IsBlock 4 (padded pin) (length-padded pin lt) (padded-IsByte pin h)),
        length-blocks_of 4 (padded pin),
      )

  new_pin_enc-decrypted :
      (secret pin : List ℕ)
      → length pin < 64
      → All IsPinByte pin
      → decrypted p secret 4 (new_pin_enc_of secret pin) ≡ padded pin
  new_pin_enc-decrypted secret pin lt h =
      let blocks = blocks_of 4 (padded pin) in
      let size = length-padded pin lt in
      subst (λ n. decrypted p secret n (encrypted p secret blocks) ≡ padded pin)
        (length-blocks_of 4 (padded pin))
        (ap concat (
            decrypt-encrypted p secret blocks
              (blocks_of-IsBlock 4 (padded pin) size (padded-IsByte pin h)))
          ∙ concat-blocks_of 4 (padded pin) size)

  pub decrypt_pin-new_pin_enc :
      (secret pin : List ℕ)
      → length pin < 64
      → All IsPinByte pin
      → decrypt_pin p (p.aes256_key secret) (new_pin_enc_of secret pin) ≡ some pin
  unfolding decrypt_pin
  decrypt_pin-new_pin_enc secret pin lt h =
      rw
        (
          decrypt_pin,
          new_pin_enc-size secret pin lt h,
          new_pin_enc-decrypted secret pin lt h,
          take_while_nonzero-padded pin (64 - length pin) h,
        )
        refl

  -- The hash that is stored of a PIN.
  abbrev pub pin_hash_of : List ℕ → List ℕ
  pin_hash_of pin = take 16 (p.sha256.hash pin)

  -- The store takes every PIN hash, and lets the retry counter be removed.
  pub record TakesPins : Type 0 where
    pub set_ok :
        (hash : List ℕ) (store : p.store.Store) → (set_pin_hash p.store hash store).1 ≡ ok tt
    pub reset_ok : (store : p.store.Store) → (reset_pin_retries p.store store).1 ≡ ok tt

  store_pin-allowed :
      (pin : List ℕ) (m : ℕ)
      → m ≤ length pin
      → length pin < 64
      → store_pin p pin m ≡ set_pin_hash p.store (pin_hash_of pin)
  unfolding store_pin
  store_pin-allowed pin m le lt =
      ap
        (λ b.
          if b then fail ctap2_err_pin_policy_violation else set_pin_hash p.store (pin_hash_of pin))
        (allowed (length pin) m le lt)

  check_and_store_new_pin-eq :
      (secret pin : List ℕ) (store : p.store.Store) (m : ℕ)
      → min_pin_length p.store store ≡ ok m
      → m ≤ length pin
      → length pin < 64
      → All IsPinByte pin
      → check_and_store_new_pin p (p.aes256_key secret) (new_pin_enc_of secret pin) store
        ≡ set_pin_hash p.store (pin_hash_of pin) store
  unfolding check_and_store_new_pin
  check_and_store_new_pin-eq secret pin store m e le lt h = ground (
    arith,
    decrypt_pin-new_pin_enc secret pin lt h,
    ap (λ call. call store) (store_pin-allowed pin m le lt),
  )

  -- The store after the PIN is set.
  abbrev pub with_pin : List ℕ → p.store.Store → p.store.Store
  with_pin pin store =
      (reset_pin_retries p.store (set_pin_hash p.store (pin_hash_of pin) store).0).0

  -- Where no PIN is set, a platform that agreed on a key sets one: of at least the least length and
  -- below 64 bytes, none of them zero. Then the hash of this PIN is stored, all retries are left, and
  -- nothing else of the protocol changes. The store has to take the hash.
  pub process_set_pin-new :
      (theirs : p.ecdh.SecKey) (pin : List ℕ) (s : State p) (m : ℕ)
      → TakesPins
      → pin_hash p.store s.persistent_store ≡ ok none
      → min_pin_length p.store s.persistent_store ≡ ok m
      → m ≤ length pin
      → length pin < 64
      → All IsPinByte pin
      → let secret = platform_secret p theirs s in
        let new_pin_enc = new_pin_enc_of secret pin in
        let store = with_pin pin s.persistent_store in
        (process_set_pin p
            (cose_from_pubkey p.ecdh (p.ecdh.genpk theirs))
            (pin_auth_of p secret new_pin_enc)
            new_pin_enc
            s
          ≡ (record s { persistent_store = store }, ok tt))
        × (pin_hash p.store store ≡ ok (some (pin_hash_of pin)))
        × (pin_retries p.store store ≡ ok 8)
  unfolding process_set_pin exchange_decryption_key
  process_set_pin-new theirs pin s m takes h e le lt bytes =
      let secret = platform_secret p theirs s in
      let hashed = set_pin_hash p.store (pin_hash_of pin) s.persistent_store in
      let removed = takes.reset_ok hashed.0 in
      (
        ground (
          arith,
          shared_secret-platform p theirs s,
          verify-pin_auth_of p secret (new_pin_enc_of secret pin),
          check_and_store_new_pin-eq secret pin s.persistent_store m e le lt bytes,
          takes.set_ok (pin_hash_of pin) s.persistent_store,
          removed,
        ),
        reset_pin_retries-pin_hash p.store hashed.0 removed
            ∙ set_pin_hash-pin_hash p.store s.persistent_store (pin_hash_of pin)
                (omega (arith, length-take 16 (p.sha256.hash pin), p.sha256.hash_size pin))
                (takes.set_ok (pin_hash_of pin) s.persistent_store),
        reset_pin_retries-pin_retries p.store hashed.0 removed,
      )
