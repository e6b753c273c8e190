-- ===== src/Crypto/Cbc.antt =====
-- libraries/crypto/src/cbc.rs, over the block cipher that `Encrypt16BytesBlock` and
-- `Decrypt16BytesBlock` promise.
use open_sk.Common.{ℕ, suc, ◌≡◌, refl, ap, arith, List, [], ◌∷◌, length, All, bit_xor}
use open_sk.Common.Bits.{IsByte}
use open_sk.Common.Xor.{xor_involutive, xor-IsByte}

-- A `Block16`, `[u8; 16]`, is a list of bytes.
abbrev pub Block16 : Type 0
Block16 = List ℕ

pub record IsBlock (block : Block16) : Type 0 where
  pub size : length block ≡ 16
  pub bytes : All IsByte block

-- A keyed permutation of blocks.
pub record BlockCipher : Type 1 where
  pub Key : Type 0
  pub encrypt_block : Key → Block16 → Block16
  pub decrypt_block : Key → Block16 → Block16
  pub encrypt_block-IsBlock :
      (key : Key) (block : Block16) → IsBlock block → IsBlock (encrypt_block key block)
  pub decrypt-encrypt :
      (key : Key) (block : Block16)
      → IsBlock block
      → decrypt_block key (encrypt_block key block) ≡ block

unfoldable pub xor_block_16 : Block16 → Block16 → Block16
xor_block_16 [] mask = []
xor_block_16 (b ∷ block) [] = b ∷ block
xor_block_16 (b ∷ block) (m ∷ mask) = bit_xor b m ∷ xor_block_16 block mask

module _ (c : BlockCipher) where
  -- The blocks after the call.
  unfoldable pub cbc_encrypt : c.Key → Block16 → List Block16 → List Block16
  cbc_encrypt key iv [] = []
  cbc_encrypt key iv (block ∷ blocks) =
      let encrypted = c.encrypt_block key (xor_block_16 block iv) in
      encrypted ∷ cbc_encrypt key encrypted blocks

  unfoldable pub cbc_decrypt : c.Key → Block16 → List Block16 → List Block16
  cbc_decrypt key iv [] = []
  cbc_decrypt key iv (block ∷ blocks) =
      xor_block_16 (c.decrypt_block key block) iv ∷ cbc_decrypt key block blocks

xor_block_16-length : (block mask : Block16) → length (xor_block_16 block mask) ≡ length block
unfolding xor_block_16
xor_block_16-length [] mask = refl
xor_block_16-length (b ∷ block) [] = refl
xor_block_16-length (b ∷ block) (m ∷ mask) = ap suc (xor_block_16-length block mask)

xor_block_16-bytes :
    (block mask : Block16)
    → All IsByte block
    → All IsByte mask
    → All IsByte (xor_block_16 block mask)
unfolding xor_block_16
xor_block_16-bytes [] mask h k = tt
xor_block_16-bytes (b ∷ block) [] h k = h
xor_block_16-bytes (b ∷ block) (m ∷ mask) h k =
    (xor-IsByte b m h.0 k.0, xor_block_16-bytes block mask h.1 k.1)

xor_block_16-IsBlock :
    (block mask : Block16) → IsBlock block → IsBlock mask → IsBlock (xor_block_16 block mask)
xor_block_16-IsBlock block mask h k = record {
  size = omega (arith, xor_block_16-length block mask, h.size);
  bytes = xor_block_16-bytes block mask h.bytes k.bytes;
}

xor_block_16_involutive :
    (block mask : Block16)
    → All IsByte block
    → All IsByte mask
    → xor_block_16 (xor_block_16 block mask) mask ≡ block
unfolding xor_block_16
xor_block_16_involutive [] mask h k = refl
xor_block_16_involutive (b ∷ block) [] h k = refl
xor_block_16_involutive (b ∷ block) (m ∷ mask) h k =
    rw (xor_involutive b m h.0 k.0, xor_block_16_involutive block mask h.1 k.1) refl

module _ (c : BlockCipher) where
  -- Decryption undoes encryption, under the same key and initialization vector, on any number of blocks.
  pub cbc_decrypt-cbc_encrypt :
      (key : c.Key) (iv : Block16) (blocks : List Block16)
      → IsBlock iv
      → All IsBlock blocks
      → cbc_decrypt c key iv (cbc_encrypt c key iv blocks) ≡ blocks
  unfolding cbc_decrypt cbc_encrypt
  cbc_decrypt-cbc_encrypt key iv [] hi hb = refl
  cbc_decrypt-cbc_encrypt key iv (block ∷ blocks) hi hb =
      let masked = xor_block_16-IsBlock block iv hb.0 hi in
      rw
        (
          c.decrypt-encrypt key (xor_block_16 block iv) masked,
          xor_block_16_involutive block iv hb.0.bytes hi.bytes,
          cbc_decrypt-cbc_encrypt key (c.encrypt_block key (xor_block_16 block iv)) blocks
              (c.encrypt_block-IsBlock key (xor_block_16 block iv) masked) hb.1,
        )
        refl

  pub cbc_encrypt-IsBlock :
      (key : c.Key) (iv : Block16) (blocks : List Block16)
      → IsBlock iv
      → All IsBlock blocks
      → All IsBlock (cbc_encrypt c key iv blocks)
  unfolding cbc_encrypt
  cbc_encrypt-IsBlock key iv [] hi hb = tt
  cbc_encrypt-IsBlock key iv (block ∷ blocks) hi hb =
      let encrypted =
        c.encrypt_block-IsBlock key (xor_block_16 block iv)
          (xor_block_16-IsBlock block iv hb.0 hi) in
      (
        encrypted,
        cbc_encrypt-IsBlock key (c.encrypt_block key (xor_block_16 block iv)) blocks encrypted hb.1,
      )

  pub length-cbc_encrypt :
      (key : c.Key) (iv : Block16) (blocks : List Block16)
      → length (cbc_encrypt c key iv blocks) ≡ length blocks
  unfolding cbc_encrypt
  length-cbc_encrypt key iv [] = refl
  length-cbc_encrypt key iv (block ∷ blocks) =
      ap suc (length-cbc_encrypt key (c.encrypt_block key (xor_block_16 block iv)) blocks)
