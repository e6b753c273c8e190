-- ===== src/Pin/Secrets.antt =====
-- The functions of src/ctap/pin_protocol_v1.rs that check, encrypt and decrypt.
use open_sk.Common.{ℕ, ◌/◌, Bool, false, ◌&&◌, List, [], ◌∷◌, ◌++◌, take, drop, length}
use open_sk.Common.{Option, none, some, ◌==◌, if◌then◌else◌, not}
use open_sk.Common.Results.{Result, ok, err}
use open_sk.Crypto.Cbc.{BlockCipher, Block16, cbc_encrypt, cbc_decrypt}
use open_sk.Crypto.Hmac.{Hash256, hmac_256, verify_hmac_256_first_128bits}
use open_sk.Ctap.Status.{Ctap2StatusCode, ctap2_err_unsupported_extension}
use open_sk.Ctap.State.{concat}
use open_sk.Ctap.Primitives.{Rng256, Ecdh}
use open_sk.Store.Interface.{KeyStore}
use open_sk.Storage.Read.{pin_auth_length}
use open_sk.Pin.Blocks.{blocks_of, zero_iv}

-- What the protocol uses: the generator, key agreement, AES-256, SHA-256 and the store.
pub record PinPrimitives : Type 1 where
  pub rng : Rng256
  pub ecdh : Ecdh rng.Rng
  pub aes256 : BlockCipher
  pub aes256_key : List ℕ → aes256.Key
  pub sha256 : Hash256
  pub store : KeyStore

abbrev pub pin_padded_length : ℕ
pin_padded_length = 64

abbrev pub pin_token_length : ℕ
pin_token_length = 32

-- `take_while(|&c| c != 0)`
unfoldable pub take_while_nonzero : List ℕ → List ℕ
take_while_nonzero [] = []
take_while_nonzero (c ∷ rest) =
    let later = take_while_nonzero rest in if c == 0 then [] else c ∷ later

module _ (p : PinPrimitives) where
  unfoldable pub verify_pin_auth : List ℕ → List ℕ → List ℕ → Bool
  verify_pin_auth hmac_key hmac_contents pin_auth =
      if not (length pin_auth == pin_auth_length)
      then false
      else verify_hmac_256_first_128bits p.sha256 hmac_key hmac_contents pin_auth

  -- The HMAC of a salt of two blocks, in two blocks.
  unfoldable pub salt_output : List ℕ → List Block16 → List Block16
  salt_output cred_random salt = blocks_of 2 (hmac_256 p.sha256 cred_random (concat salt))

  -- The first salt and, where there are four blocks, the second one are replaced by their HMAC.
  unfoldable pub salt_outputs : List ℕ → ℕ → List Block16 → List Block16
  salt_outputs cred_random block_len blocks =
      let second = take 2 (drop 2 blocks) in
      salt_output cred_random (take 2 blocks)
      ++ (if block_len == 4 then salt_output cred_random second else drop 2 blocks)

  unfoldable pub encrypt_hmac_secret_output :
      List ℕ → List ℕ → List ℕ → Result (List ℕ) Ctap2StatusCode
  encrypt_hmac_secret_output shared_secret salt_enc cred_random =
      let key = p.aes256_key shared_secret in
      let block_len = length salt_enc / 16 in
      let blocks = cbc_decrypt p.aes256 key zero_iv (blocks_of block_len salt_enc) in
      let outputs = salt_outputs cred_random block_len blocks in
      if not (length salt_enc == 32) && not (length salt_enc == 64)
      then err ctap2_err_unsupported_extension
      else ok (concat (cbc_encrypt p.aes256 key zero_iv outputs))

  unfoldable pub decrypt_pin : p.aes256.Key → List ℕ → Option (List ℕ)
  decrypt_pin aes_dec_key new_pin_enc =
      let blocks = cbc_decrypt p.aes256 aes_dec_key zero_iv (blocks_of 4 new_pin_enc) in
      if not (length new_pin_enc == pin_padded_length)
      then none
      else some (take_while_nonzero (concat blocks))
