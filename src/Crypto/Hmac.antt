-- ===== src/Crypto/Hmac.antt =====
-- libraries/crypto/src/hmac.rs, over a hash function of blocks of 64 bytes.
use open_sk.Common.{ℕ, ◌≡◌, Bool, true, List, [], ◌∷◌, ◌++◌, length, take, replicate, All}
use open_sk.Common.Bits.{IsByte}
use open_sk.Common.{bit_xor, leb, if◌then◌else◌, eq_bytes, eq_bytes_refl}

-- `Hash256`: `update` and `finalize` hash what was added, in its order.
pub record Hash256 : Type 0 where
  pub hash : List ℕ → List ℕ
  pub hash_size : (contents : List ℕ) → length (hash contents) ≡ 32
  pub hash_bytes : (contents : List ℕ) → All IsByte (hash contents)

abbrev pub block_size : ℕ
block_size = 64

unfoldable pub xor_pad : List ℕ → List ℕ → List ℕ
xor_pad pad [] = pad
xor_pad [] (k ∷ key) = []
xor_pad (p ∷ pad) (k ∷ key) = bit_xor p k ∷ xor_pad pad key

module _ (h : Hash256) where
  unfoldable pub hmac_256 : List ℕ → List ℕ → List ℕ
  hmac_256 key contents =
      let padded = if leb (length key) block_size then key else h.hash key in
      let ipad = xor_pad (replicate block_size 0x36) padded in
      let opad = xor_pad (replicate block_size 0x5c) padded in
      h.hash (opad ++ h.hash (ipad ++ contents))

  unfoldable pub verify_hmac_256 : List ℕ → List ℕ → List ℕ → Bool
  verify_hmac_256 key contents mac = eq_bytes (hmac_256 key contents) mac

  unfoldable pub verify_hmac_256_first_128bits : List ℕ → List ℕ → List ℕ → Bool
  verify_hmac_256_first_128bits key contents pin = eq_bytes (take 16 (hmac_256 key contents)) pin

  pub hmac_256_size : (key contents : List ℕ) → length (hmac_256 key contents) ≡ 32
  unfolding hmac_256
  hmac_256_size key contents = h.hash_size _

  pub hmac_256_bytes : (key contents : List ℕ) → All IsByte (hmac_256 key contents)
  unfolding hmac_256
  hmac_256_bytes key contents = h.hash_bytes _

  pub verify-hmac_256 :
      (key contents : List ℕ) → verify_hmac_256 key contents (hmac_256 key contents) ≡ true
  unfolding verify_hmac_256
  verify-hmac_256 key contents = eq_bytes_refl (hmac_256 key contents)
