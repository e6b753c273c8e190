-- ===== src/Storage/Read.antt =====
-- What src/ctap/storage.rs reads from the persistent store, but for the credentials.
use open_sk.Common.{ℕ, ◌+◌, ◌*◌, ◌^◌, Bool, take, drop, length, get_or}
use open_sk.Common.{Option, none, some, ◌==◌, if◌then◌else◌}
use open_sk.Common.Results.{Result, ok, err, ◌>>=◌, map_err, ok_or}
use open_sk.Ctap.Status.{Ctap2StatusCode, ctap2_err_key_store_full, ctap2_err_vendor_internal_error}
use open_sk.Ctap.Status.{ctap2_err_vendor_hardware_failure, ctap1_err_other}
use open_sk.Ctap.Primitives.{MasterKeys}
use open_sk.Store.Interface.{
  KeyStore, Value, StoreError, invalid_argument, no_capacity, no_lifetime,
}
use open_sk.Store.Interface.{storage_error, invalid_storage}
use open_sk.Storage.Key.{attestation_private_key_key, attestation_certificate_key, aaguid_key}
use open_sk.Storage.Key.{cred_random_secret_key, min_pin_length_key, pin_retries_key, pin_hash_key}
use open_sk.Storage.Key.{master_keys_key, global_signature_counter_key}

abbrev pub max_pin_retries : ℕ
max_pin_retries = 8

abbrev pub default_min_pin_length : ℕ
default_min_pin_length = 4

abbrev pub initial_signature_counter : ℕ
initial_signature_counter = 1

abbrev pub pin_auth_length : ℕ
pin_auth_length = 16

abbrev pub attestation_private_key_length : ℕ
attestation_private_key_length = 32

abbrev pub aaguid_length : ℕ
aaguid_length = 16

-- `From<StoreError> for Ctap2StatusCode`
abbrev pub from_store_error : StoreError → Ctap2StatusCode
from_store_error no_capacity = ctap2_err_key_store_full
from_store_error no_lifetime = ctap2_err_key_store_full
from_store_error invalid_argument = ctap2_err_vendor_internal_error
from_store_error invalid_storage = ctap2_err_vendor_hardware_failure
from_store_error storage_error = ctap1_err_other

-- `u32::from_ne_bytes` on the little-endian device.
abbrev pub from_ne_bytes : Value → ℕ
from_ne_bytes value =
    get_or value 0 0
    + 2 ^ 8 * get_or value 1 0
    + 2 ^ 16 * get_or value 2 0
    + 2 ^ 24 * get_or value 3 0

-- A value of the given length, or an internal error.
abbrev pub sized : ℕ → Value → Result Value Ctap2StatusCode
sized n value = if length value == n then ok value else err ctap2_err_vendor_internal_error

-- The single byte of an entry that may be absent.
abbrev pub byte_or : ℕ → Option Value → Result ℕ Ctap2StatusCode
byte_or default none = ok default
byte_or default (some value) =
    if length value == 1 then ok (get_or value 0 0) else err ctap2_err_vendor_internal_error

-- An entry of the given length that may be absent.
abbrev pub optional : ℕ → Option Value → Result (Option Value) Ctap2StatusCode
optional n none = ok none
optional n (some value) =
    if length value == n then ok (some value) else err ctap2_err_vendor_internal_error

abbrev pub counter_in : Option Value → Result ℕ Ctap2StatusCode
counter_in none = ok initial_signature_counter
counter_in (some value) =
    if length value == 4 then ok (from_ne_bytes value) else err ctap2_err_vendor_internal_error

module _ (k : KeyStore) where
  -- `self.store.find(key)?`
  abbrev pub find : k.Store → ℕ → Result (Option Value) Ctap2StatusCode
  find s key = map_err from_store_error (k.find s key)

  -- An entry of the given length that has to be there.
  abbrev pub required : k.Store → ℕ → ℕ → Result Value Ctap2StatusCode
  required s key n = do
    entry ← find s key
    value ← ok_or entry ctap2_err_vendor_internal_error
    sized n value

  unfoldable pub global_signature_counter : k.Store → Result ℕ Ctap2StatusCode
  global_signature_counter s = do entry ← find s global_signature_counter_key; counter_in entry

  unfoldable pub master_keys : k.Store → Result MasterKeys Ctap2StatusCode
  master_keys s = do
    keys ← required s master_keys_key 64
    ok (record { encryption = take 32 keys; hmac = take 32 (drop 32 keys) })

  unfoldable pub cred_random_secret : Bool → k.Store → Result Value Ctap2StatusCode
  cred_random_secret has_uv s = do
    secret ← required s cred_random_secret_key 64
    ok (take 32 (drop (if has_uv then 32 else 0) secret))

  unfoldable pub pin_hash : k.Store → Result (Option Value) Ctap2StatusCode
  pin_hash s = do entry ← find s pin_hash_key; optional pin_auth_length entry

  unfoldable pub pin_retries : k.Store → Result ℕ Ctap2StatusCode
  pin_retries s = do entry ← find s pin_retries_key; byte_or max_pin_retries entry

  unfoldable pub min_pin_length : k.Store → Result ℕ Ctap2StatusCode
  min_pin_length s = do entry ← find s min_pin_length_key; byte_or default_min_pin_length entry

  unfoldable pub attestation_private_key : k.Store → Result (Option Value) Ctap2StatusCode
  attestation_private_key s = do
    entry ← find s attestation_private_key_key
    optional attestation_private_key_length entry

  unfoldable pub attestation_certificate : k.Store → Result (Option Value) Ctap2StatusCode
  attestation_certificate s = find s attestation_certificate_key

  unfoldable pub aaguid : k.Store → Result Value Ctap2StatusCode
  aaguid s = required s aaguid_key aaguid_length
