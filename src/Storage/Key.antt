-- ===== src/Storage/Key.antt =====
-- The keys of src/ctap/storage/key.rs.
use open_sk.Common.{ℕ, Bool, ◌&&◌, leb, ltb}

abbrev pub num_persistent_keys : ℕ
num_persistent_keys = 20

abbrev pub attestation_private_key_key : ℕ
attestation_private_key_key = 1

abbrev pub attestation_certificate_key : ℕ
attestation_certificate_key = 2

abbrev pub aaguid_key : ℕ
aaguid_key = 3

abbrev pub credentials_start : ℕ
credentials_start = 1700

abbrev pub credentials_end : ℕ
credentials_end = 2000

-- `CREDENTIALS.contains`
abbrev pub is_credential_key : ℕ → Bool
is_credential_key key = leb credentials_start key && ltb key credentials_end

abbrev pub cred_random_secret_key : ℕ
cred_random_secret_key = 2041

abbrev pub min_pin_length_key : ℕ
min_pin_length_key = 2043

abbrev pub pin_retries_key : ℕ
pin_retries_key = 2044

abbrev pub pin_hash_key : ℕ
pin_hash_key = 2045

abbrev pub master_keys_key : ℕ
master_keys_key = 2046

abbrev pub global_signature_counter_key : ℕ
global_signature_counter_key = 2047
