-- ===== src/Ctap/Primitives.antt =====
-- What src/ctap uses of the other components: ECDSA and AES of libraries/crypto, the random numbers,
-- and the persistent store of src/ctap/storage.rs.
use open_sk.Common.{ℕ, ◌≡◌, List, length, All, Option, some}
use open_sk.Common.Bits.{IsByte}
use open_sk.Common.Results.{Result}
use open_sk.Crypto.Cbc.{BlockCipher}
use open_sk.Crypto.Hmac.{Hash256}
use open_sk.Ctap.Status.{Ctap2StatusCode}

-- `Rng256`. A draw is the value and the generator after it.
pub record Rng256 : Type 1 where
  pub Rng : Type 0
  pub gen_uniform_u8x32 : Rng → List ℕ × Rng
  pub first_of_uniform_u32x8 : Rng → ℕ × Rng
  pub u8x32_size : (rng : Rng) → length (gen_uniform_u8x32 rng).0 ≡ 32
  pub u8x32_bytes : (rng : Rng) → All IsByte (gen_uniform_u8x32 rng).0

-- `crypto::ecdsa`: keys, and signatures in the form of `to_asn1_der`. A public key is its
-- `to_uncompressed`.
pub record Ecdsa (Rng : Type 0) : Type 1 where
  pub SecKey : Type 0
  pub gensk : Rng → SecKey × Rng
  pub genpk : SecKey → List ℕ
  pub to_bytes : SecKey → List ℕ
  pub from_bytes : List ℕ → Option SecKey
  pub sign_rfc6979 : SecKey → List ℕ → List ℕ
  pub to_bytes_size : (sk : SecKey) → length (to_bytes sk) ≡ 32
  pub to_bytes_bytes : (sk : SecKey) → All IsByte (to_bytes sk)
  pub from_bytes-to_bytes : (sk : SecKey) → from_bytes (to_bytes sk) ≡ some sk

-- `crypto::ecdh`: keys, the shared secret, and the coordinates of a public key.
pub record Ecdh (Rng : Type 0) : Type 1 where
  pub SecKey : Type 0
  pub PubKey : Type 0
  pub gensk : Rng → SecKey × Rng
  pub genpk : SecKey → PubKey
  pub exchange_x_sha256 : SecKey → PubKey → List ℕ
  pub to_coordinates : PubKey → List ℕ × List ℕ
  pub from_coordinates : List ℕ → List ℕ → Option PubKey
  pub exchange_comm :
      (ours theirs : SecKey)
      → exchange_x_sha256 ours (genpk theirs) ≡ exchange_x_sha256 theirs (genpk ours)
  pub x_size : (pk : PubKey) → length (to_coordinates pk).0 ≡ 32
  pub y_size : (pk : PubKey) → length (to_coordinates pk).1 ≡ 32
  pub from-to_coordinates :
      (pk : PubKey) → from_coordinates (to_coordinates pk).0 (to_coordinates pk).1 ≡ some pk

pub record MasterKeys : Type 0 where
  pub encryption : List ℕ
  pub hmac : List ℕ

-- `PersistentStore`
pub record PersistentStore : Type 1 where
  pub Store : Type 0
  pub master_keys : Store → Result MasterKeys Ctap2StatusCode
  pub attestation_certificate : Store → Result (Option (List ℕ)) Ctap2StatusCode
  pub attestation_private_key : Store → Result (Option (List ℕ)) Ctap2StatusCode
  pub global_signature_counter : Store → Result ℕ Ctap2StatusCode
  pub incr_global_signature_counter : ℕ → Store → Store × Result {0, 0} Unit Ctap2StatusCode

pub record Primitives : Type 1 where
  pub rng : Rng256
  pub ecdsa : Ecdsa rng.Rng
  pub aes256 : BlockCipher
  pub aes256_key : List ℕ → aes256.Key
  pub sha256 : Hash256
  pub store : PersistentStore
