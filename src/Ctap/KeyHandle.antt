-- ===== src/Ctap/KeyHandle.antt =====
-- Key handles of src/ctap/mod.rs: a handle gives its key back to the application it was made for.
use open_sk.Common.{drop-past, ℕ, ◌∙◌, ◌+◌, ◌-◌, ◌*◌, ◌≡◌, refl, ap, arith, List, [], ◌∷◌, ◌++◌}
use open_sk.Common.{
  take, drop, length, All, length-take, length-drop, length-append, take_exact, drop_exact,
  take-append-drop,
}
use open_sk.Common.{none, some, eq_bytes, if◌then◌else◌, append_assoc, append-nil, take_all}
use open_sk.Common.Bits.{IsByte, take-IsByte, drop-IsByte}
use open_sk.Common.Results.{ok}
use open_sk.Timer.{Timer}
use open_sk.Crypto.Cbc.{Block16, IsBlock, cbc_encrypt, cbc_decrypt-cbc_encrypt}
use open_sk.Crypto.Cbc.{cbc_encrypt-IsBlock, length-cbc_encrypt}
use open_sk.Crypto.Hmac.{hmac_256, hmac_256_size, verify-hmac_256}
use open_sk.Ctap.Primitives.{Primitives, MasterKeys}
use open_sk.Ctap.State.{Ctap, key_blocks, concat, block_at, encrypted_id}
use open_sk.Ctap.State.{encrypt_key_handle, decrypted_blocks, source_from, source_in_blocks}
use open_sk.Ctap.State.{verified_source, decrypt_credential_source}

-- An application is the hash of a name: 32 bytes.
pub record IsHash (hash : List ℕ) : Type 0 where
  pub size : length hash ≡ 32
  pub bytes : All IsByte hash

block_at-suc :
    (block rest : List ℕ) (i : ℕ)
    → length block ≡ 16
    → block_at (block ++ rest) (i + 1) ≡ block_at rest i
block_at-suc block rest i e =
    ap (take 16) (drop-past block rest (16 * i) (16 * (i + 1)) (omega (arith, e)))

block_at-zero : (block rest : List ℕ) → length block ≡ 16 → block_at (block ++ rest) 0 ≡ block
block_at-zero block rest e = take_exact 16 block rest e

-- Blocks behind an initialization vector are found where they were put.
blocks_at :
    (iv b1 b2 b3 b4 tail : List ℕ)
    → length iv ≡ 16
    → All (λ b. length b ≡ 16) (b1 ∷ b2 ∷ b3 ∷ b4 ∷ [])
    → let id = iv ++ (b1 ++ (b2 ++ (b3 ++ (b4 ++ tail)))) in
      (take 16 id ≡ iv)
      × (block_at id 1 ≡ b1)
      × (block_at id 2 ≡ b2)
      × (block_at id 3 ≡ b3)
      × (block_at id 4 ≡ b4)
blocks_at iv b1 b2 b3 b4 tail hi h =
    let h1 = h.0 in
    let h2 = h.1.0 in
    let h3 = h.1.1.0 in
    let h4 = h.1.1.1.0 in
    let r1 = b1 ++ (b2 ++ (b3 ++ (b4 ++ tail))) in
    let r2 = b2 ++ (b3 ++ (b4 ++ tail)) in
    let r3 = b3 ++ (b4 ++ tail) in
    let r4 = b4 ++ tail in
    (
      take_exact 16 iv r1 hi,
      block_at-suc iv r1 0 hi ∙ block_at-zero b1 r2 h1,
      block_at-suc iv r1 1 hi ∙ block_at-suc b1 r2 0 h1 ∙ block_at-zero b2 r3 h2,
      block_at-suc iv r1 2 hi
          ∙ block_at-suc b1 r2 1 h1
          ∙ block_at-suc b2 r3 0 h2
          ∙ block_at-zero b3 r4 h3,
      block_at-suc iv r1 3 hi
          ∙ block_at-suc b1 r2 2 h1
          ∙ block_at-suc b2 r3 1 h2
          ∙ block_at-suc b3 r4 0 h3
          ∙ block_at-zero b4 tail h4,
    )

key_blocks-IsBlock :
    (sk application : List ℕ)
    → IsHash sk
    → IsHash application
    → All IsBlock (key_blocks sk application)
key_blocks-IsBlock sk application h k =
    (half_low sk h, (half_high sk h, (half_low application k, (half_high application k, tt))))
  where
    half_low : (xs : List ℕ) → IsHash xs → IsBlock (take 16 xs)
    half_low xs h = record {
      size = omega (arith, length-take 16 xs, h.size);
      bytes = take-IsByte 16 xs h.bytes;
    }

    half_high : (xs : List ℕ) → IsHash xs → IsBlock (drop 16 xs)
    half_high xs h = record {
      size = omega (arith, length-drop 16 xs, h.size);
      bytes = drop-IsByte 16 xs h.bytes;
    }

-- The credential ID behind its initialization vector, with what stands behind the blocks.
blocks_found :
    (iv mac : List ℕ) (blocks : List Block16)
    → length iv ≡ 16
    → length blocks ≡ 4
    → All IsBlock blocks
    → let id = (iv ++ concat blocks) ++ mac in
      (take 16 id ≡ iv)
      × (block_at id 1 ∷ block_at id 2 ∷ block_at id 3 ∷ block_at id 4 ∷ [] ≡ blocks)
      × (length (iv ++ concat blocks) ≡ 80)
blocks_found iv mac (b1 ∷ b2 ∷ b3 ∷ b4 ∷ []) hi n h =
    let (h1, (h2, (h3, (h4, _)))) = h in
    let (e0, e1, e2, e3, e4) =
      blocks_at iv b1 b2 b3 b4 mac hi (h1.size, (h2.size, (h3.size, (h4.size, tt)))) in
    let flat : (iv ++ (b1 ++ (b2 ++ (b3 ++ (b4 ++ []))))) ++ mac
        ≡ iv ++ (b1 ++ (b2 ++ (b3 ++ (b4 ++ mac)))) =
      simp (append_assoc, append-nil) refl in
    (
      rw (flat, e0) refl,
      rw (flat, e1, e2, e3, e4) refl,
      simp
          (
            length-append iv (b1 ++ (b2 ++ (b3 ++ (b4 ++ [])))),
            length-append b1 (b2 ++ (b3 ++ (b4 ++ []))),
            length-append b2 (b3 ++ (b4 ++ [])),
            length-append b3 (b4 ++ []),
            length-append b4 [],
            hi,
            h1.size,
            h2.size,
            h3.size,
            h4.size,
          )
          refl,
    )
blocks_found iv mac _ hi n h = absurd (omega (arith, n))

halves : (xs : List ℕ) → take 16 xs ++ (drop 16 xs ++ []) ≡ xs
halves xs = rw (append-nil (drop 16 xs), take-append-drop 16 xs) refl

module _ (t : Timer) (p : Primitives) where
  -- The blocks of an ID decrypt to the key and the application.
  decrypted-encrypted_id :
      (keys : MasterKeys) (iv mac : List ℕ) (sk : p.ecdsa.SecKey) (application : List ℕ)
      → IsBlock iv
      → IsHash application
      → (decrypted_blocks t p keys (encrypted_id t p keys iv sk application ++ mac)
          ≡ key_blocks (p.ecdsa.to_bytes sk) application)
        × (length (encrypted_id t p keys iv sk application) ≡ 80)
  unfolding decrypted_blocks encrypted_id
  decrypted-encrypted_id keys iv mac sk application hi ha =
      let key = p.aes256_key keys.encryption in
      let plain = key_blocks (p.ecdsa.to_bytes sk) application in
      let hk : IsHash (p.ecdsa.to_bytes sk) = record {
        size = p.ecdsa.to_bytes_size sk;
        bytes = p.ecdsa.to_bytes_bytes sk;
      } in
      let hp = key_blocks-IsBlock (p.ecdsa.to_bytes sk) application hk ha in
      let (e0, e1, e2) =
        blocks_found iv mac (cbc_encrypt p.aes256 key iv plain) hi.size
          (length-cbc_encrypt p.aes256 key iv plain)
          (cbc_encrypt-IsBlock p.aes256 key iv plain hi hp) in
      (rw (e0, e1) (cbc_decrypt-cbc_encrypt p.aes256 key iv plain hi hp), e2)

  source_in_blocks-key_blocks :
      (id rp_id_hash : List ℕ) (sk : p.ecdsa.SecKey) (application : List ℕ)
      → source_in_blocks t p id rp_id_hash (key_blocks (p.ecdsa.to_bytes sk) application)
        ≡ (if eq_bytes rp_id_hash application then some (source_from t p id sk) else none)
  unfolding source_in_blocks
  source_in_blocks-key_blocks id rp_id_hash sk application =
      rw (halves application, halves (p.ecdsa.to_bytes sk), p.ecdsa.from_bytes-to_bytes sk)
        (ground arith)

  verified_source-handle :
      (keys : MasterKeys) (iv : List ℕ) (sk : p.ecdsa.SecKey) (application rp_id_hash : List ℕ)
      → IsBlock iv
      → IsHash application
      → let id = encrypted_id t p keys iv sk application in
        let handle = id ++ hmac_256 p.sha256 keys.hmac id in
        (verified_source t p keys handle rp_id_hash
          ≡ (if eq_bytes rp_id_hash application then some (source_from t p handle sk) else none))
        × (length handle ≡ 112)
  unfolding verified_source
  verified_source-handle keys iv sk application rp_id_hash hi ha =
      let id = encrypted_id t p keys iv sk application in
      let mac = hmac_256 p.sha256 keys.hmac id in
      let (decrypted, id_size) = decrypted-encrypted_id keys iv mac sk application hi ha in
      let mac_size = hmac_256_size p.sha256 keys.hmac id in
      let size : length (id ++ mac) ≡ 112 =
        omega (arith, length-append id mac, id_size, mac_size) in
      let payload : length id ≡ length (id ++ mac) - 32 = omega (arith, size, id_size) in
      (
        rw
            (
              take_exact (length (id ++ mac) - 32) id mac payload,
              drop_exact (length (id ++ mac) - 32) id mac payload,
              take_all 32 mac (omega (arith, mac_size)),
              verify-hmac_256 p.sha256 keys.hmac id,
              decrypted,
            )
            (source_in_blocks-key_blocks (id ++ mac) rp_id_hash sk application),
        size,
      )

  -- The handle that `encrypt_key_handle` makes of the keys in the store.
  abbrev pub key_handle : Ctap t p → MasterKeys → p.ecdsa.SecKey → List ℕ → List ℕ
  key_handle s keys sk application =
      let id = encrypted_id t p keys (take 16 (p.rng.gen_uniform_u8x32 s.rng).0) sk application in
      id ++ hmac_256 p.sha256 keys.hmac id

  iv-IsBlock : (rng : p.rng.Rng) → IsBlock (take 16 (p.rng.gen_uniform_u8x32 rng).0)
  iv-IsBlock rng =
      let random = (p.rng.gen_uniform_u8x32 rng).0 in
      record {
        size = omega (arith, length-take 16 random, p.rng.u8x32_size rng);
        bytes = take-IsByte 16 random (p.rng.u8x32_bytes rng);
      }

  pub length-key_handle :
      (s : Ctap t p) (keys : MasterKeys) (sk : p.ecdsa.SecKey) (application : List ℕ)
      → IsHash application
      → length (key_handle s keys sk application) ≡ 112
  length-key_handle s keys sk application ha =
      (verified_source-handle keys _ sk application application (iv-IsBlock s.rng) ha).1

  -- A key handle that is made for an application of 32 bytes, and decrypted later with the same
  -- master keys, gives the private key back to that application, and nothing to any other.
  pub decrypt-encrypt_key_handle :
      (s later : Ctap t p) (keys : MasterKeys) (sk : p.ecdsa.SecKey)
      (application rp_id_hash : List ℕ)
      → IsHash application
      → p.store.master_keys s.persistent_store ≡ ok keys
      → p.store.master_keys later.persistent_store ≡ ok keys
      → let handle = key_handle s keys sk application in
        ((encrypt_key_handle t p s sk application).1 ≡ ok handle)
        × (decrypt_credential_source t p later handle rp_id_hash
            ≡ ok (
                if eq_bytes rp_id_hash application then some (source_from t p handle sk) else none))
  unfolding encrypt_key_handle decrypt_credential_source
  decrypt-encrypt_key_handle s later keys sk application rp_id_hash ha e f =
      let random = (p.rng.gen_uniform_u8x32 s.rng).0 in
      let (found, size) =
        verified_source-handle keys (take 16 random) sk application rp_id_hash (iv-IsBlock s.rng)
          ha in
      (rw (e, encrypt_key_handle) refl, rw (size, f, found) refl)
