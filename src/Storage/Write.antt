-- ===== src/Storage/Write.antt =====
-- What src/ctap/storage.rs writes to the persistent store, but for the credentials.
use open_sk.Common.{ℕ, ◌+◌, ◌-◌, ◌/◌, ◌%◌, ◌^◌, [], ◌∷◌, ◌++◌}
use open_sk.Common.{none, some, ◌==◌, if◌then◌else◌}
use open_sk.Common.Actions.{Action, ◌>>=◌, done, fail, reading, converting}
use open_sk.Common.Results.{ok, map_err}
use open_sk.Ctap.Status.{Ctap2StatusCode, ctap2_err_vendor_internal_error}
use open_sk.Ctap.Primitives.{Rng256}
use open_sk.Store.Interface.{KeyStore, Value}
use open_sk.Storage.Key.{num_persistent_keys, attestation_private_key_key, aaguid_key, pin_hash_key}
use open_sk.Storage.Key.{attestation_certificate_key, cred_random_secret_key, min_pin_length_key}
use open_sk.Storage.Key.{pin_retries_key, master_keys_key, global_signature_counter_key}
use open_sk.Storage.Read.{from_store_error, find, global_signature_counter, pin_retries}

-- `u32::to_ne_bytes` on the little-endian device.
abbrev pub to_ne_bytes : ℕ → Value
to_ne_bytes n = n % 256 ∷ n / 2 ^ 8 % 256 ∷ n / 2 ^ 16 % 256 ∷ n / 2 ^ 24 % 256 ∷ []

module _ (k : KeyStore) where
  abbrev pub Storing : Type 0
  Storing = Action k.Store Ctap2StatusCode (Unit {0})

  -- `self.store.insert(key, value)?`
  abbrev pub insert : ℕ → Value → Storing
  insert key value = converting from_store_error (k.insert key value)

  abbrev pub remove : ℕ → Storing
  remove key = converting from_store_error (k.remove key)

  -- An entry that is written once.
  abbrev pub insert_new : ℕ → Value → Storing
  insert_new key value = do
    entry ← reading (λ s. find k s key)
    elim entry [ none ↦ insert key value | some _ ↦ fail ctap2_err_vendor_internal_error ]

  unfoldable pub incr_global_signature_counter : ℕ → Storing
  incr_global_signature_counter increment = do
    old_value ← reading (global_signature_counter k)
    insert global_signature_counter_key (to_ne_bytes ((old_value + increment) % 2 ^ 32))

  unfoldable pub set_pin_hash : Value → Storing
  set_pin_hash pin_hash = insert pin_hash_key pin_hash

  -- `saturating_sub`, and a write only where it lowers.
  unfoldable pub write_lower : ℕ → Storing
  write_lower old_value =
      if old_value - 1 == old_value then done tt else insert pin_retries_key ((old_value - 1) ∷ [])

  unfoldable pub decr_pin_retries : Storing
  decr_pin_retries = do old_value ← reading (pin_retries k); write_lower old_value

  unfoldable pub reset_pin_retries : Storing
  reset_pin_retries = remove pin_retries_key

  unfoldable pub set_min_pin_length : ℕ → Storing
  set_min_pin_length min_pin_length = insert min_pin_length_key (min_pin_length ∷ [])

  unfoldable pub set_attestation_private_key : Value → Storing
  set_attestation_private_key private_key = insert_new attestation_private_key_key private_key

  unfoldable pub set_attestation_certificate : Value → Storing
  set_attestation_certificate certificate = insert_new attestation_certificate_key certificate

  unfoldable pub set_aaguid : Value → Storing
  set_aaguid aaguid = insert aaguid_key aaguid

-- The store and the generator that `init` draws from. `AAGUID` is generated by the build.
pub record Seeded (Rng Store : Type 0) : Type 0 where
  pub rng : Rng
  pub store : Store

module _ (k : KeyStore) (r : Rng256) (built_aaguid : Value) where
  abbrev pub Seeding : Type 0
  Seeding = Action (Seeded r.Rng k.Store) Ctap2StatusCode (Unit {0})

  -- A call on the store alone.
  abbrev pub on_store : Storing k → Seeding
  on_store call s = let (store', result) = call s.store in (record s { store = store' }, result)

  -- An entry that is made where it is missing.
  abbrev pub if_missing : ℕ → Seeding → Seeding
  if_missing key make = do
    found ← reading (λ s. map_err from_store_error (k.find_handle s.store key))
    elim found [ none ↦ make | some _ ↦ done tt ]

  -- Two draws.
  unfoldable pub draw_twice : Action (Seeded r.Rng k.Store) Ctap2StatusCode (Value × Value)
  draw_twice s =
      let (first, rng1) = r.gen_uniform_u8x32 s.rng in
      let (second, rng2) = r.gen_uniform_u8x32 rng1 in (record s { rng = rng2 }, ok (first, second))

  unfoldable pub make_master_keys : Seeding
  make_master_keys = do
    (encryption_key, hmac_key) ← draw_twice
    on_store (insert k master_keys_key (encryption_key ++ hmac_key))

  unfoldable pub make_cred_random : Seeding
  make_cred_random = do
    (with_uv, without_uv) ← draw_twice
    on_store (insert k cred_random_secret_key (without_uv ++ with_uv))

  unfoldable pub init : Seeding
  init = do
    _ ← if_missing master_keys_key make_master_keys
    _ ← if_missing cred_random_secret_key make_cred_random
    if_missing aaguid_key (on_store (set_aaguid k built_aaguid))

  unfoldable pub reset : Seeding
  reset = do _ ← on_store (converting from_store_error (k.clear num_persistent_keys)); init
