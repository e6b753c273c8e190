-- ===== src/Crypto/Tests.antt =====
-- CBC at concrete blocks, over the identity as a cipher.
use open_sk.Common.{ℕ, ◌≡◌, refl, List, [], ◌∷◌, replicate}
use open_sk.Crypto.Cbc.{Block16, BlockCipher, cbc_encrypt, xor_block_16}

abbrev plain_cipher : BlockCipher
plain_cipher = record {
  Key = ℕ;
  encrypt_block = λ key block. block;
  decrypt_block = λ key block. block;
  encrypt_block-IsBlock = λ key block h. h;
  decrypt-encrypt = λ key block h. refl;
}

abbrev two_blocks : List Block16
two_blocks = replicate 16 3 ∷ replicate 16 5 ∷ []

encrypt_two :
    cbc_encrypt plain_cipher 0 (replicate 16 1) two_blocks ≡ replicate 16 2 ∷ replicate 16 7 ∷ []
unfolding cbc_encrypt xor_block_16
encrypt_two = refl
