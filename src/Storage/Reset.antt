-- ===== src/Storage/Reset.antt =====
-- What `reset` and `init` of src/ctap/storage.rs leave of the entries.
use open_sk.Common.{ℕ, ◌≤◌, ◌<◌, ◌≡◌, ◌≢◌, refl, ap, true, inl, inr, ◌∙◌, arith, none}
use open_sk.Common.Results.{Result, ok, map_err}
use open_sk.Common.Actions.{◌>>=◌, Result-cases}
use open_sk.Ctap.Status.{Ctap2StatusCode}
use open_sk.Ctap.Primitives.{Rng256}
use open_sk.Store.Interface.{KeyStore, Value}
use open_sk.Storage.Key.{
  num_persistent_keys, is_credential_key, pin_hash_key, pin_retries_key, min_pin_length_key,
  global_signature_counter_key, attestation_private_key_key, attestation_certificate_key,
}
use open_sk.Storage.Key.{master_keys_key, cred_random_secret_key, aaguid_key}
use open_sk.Storage.Read.{find, from_store_error, pin_hash, pin_retries, global_signature_counter}
use open_sk.Storage.Read.{min_pin_length, attestation_private_key, attestation_certificate}
use open_sk.Storage.Write.{insert, Seeded, Seeding, on_store, if_missing, draw_twice, init, reset}
use open_sk.Storage.Write.{make_master_keys, make_cred_random, set_aaguid}
use open_sk.Storage.Retries.{find-insert_ne}

module _ (k : KeyStore) (r : Rng256) (built_aaguid : Value) where
  abbrev State : Type 0
  State = Seeded r.Rng k.Store

  -- Where the call succeeds, the entry is as it was.
  abbrev Keeps : ℕ → State → State × Result {0, 0} Unit Ctap2StatusCode → Type 0
  Keeps other s t = t.1 ≡ ok tt → find k t.0.store other ≡ find k s.store other

  insert-Keeps :
      (key other : ℕ) (value : Value) (s : State)
      → other ≢ key
      → Keeps other s (on_store k r built_aaguid (insert k key value) s)
  insert-Keeps key other value s ne h = find-insert_ne k s.store key other value ne h

  if_missing-Keeps :
      (key other : ℕ) (make : Seeding k r built_aaguid) (s : State)
      → ((t : State) → Keeps other t (make t))
      → Keeps other s (if_missing k r built_aaguid key make s)
  if_missing-Keeps key other make s kept h = ground (arith, kept s)

  make_master_keys-Keeps :
      (other : ℕ) (s : State)
      → other ≢ master_keys_key
      → Keeps other s (make_master_keys k r built_aaguid s)
  unfolding make_master_keys draw_twice
  make_master_keys-Keeps other s ne h = find-insert_ne k s.store master_keys_key other _ ne h

  make_cred_random-Keeps :
      (other : ℕ) (s : State)
      → other ≢ cred_random_secret_key
      → Keeps other s (make_cred_random k r built_aaguid s)
  unfolding make_cred_random draw_twice
  make_cred_random-Keeps other s ne h = find-insert_ne k s.store cred_random_secret_key other _ ne h

  -- The keys that `init` may write.
  abbrev IsOther : ℕ → Type 0
  IsOther other =
      (other ≢ master_keys_key) × (other ≢ cred_random_secret_key) × (other ≢ aaguid_key)

  credential-IsOther : (key : ℕ) → is_credential_key key ≡ true → IsOther key
  credential-IsOther key c = ground arith

  credential_le : (key : ℕ) → is_credential_key key ≡ true → num_persistent_keys ≤ key
  credential_le key c = ground arith

  Keeps-bind :
      (other : ℕ) (first second : Seeding k r built_aaguid) (s : State)
      → Keeps other s (first s)
      → ((t : State) → Keeps other t (second t))
      → Keeps other s ((first >>= λ _. second) s)
  Keeps-bind other first second s kept later h = ground (arith, kept, later (first s).0)

  -- The three steps of `init`.
  abbrev master_keys_step : Seeding k r built_aaguid
  master_keys_step = if_missing k r built_aaguid master_keys_key (make_master_keys k r built_aaguid)

  abbrev cred_random_step : Seeding k r built_aaguid
  cred_random_step =
      if_missing k r built_aaguid cred_random_secret_key (make_cred_random k r built_aaguid)

  abbrev aaguid_step : Seeding k r built_aaguid
  aaguid_step =
      if_missing k r built_aaguid aaguid_key (on_store k r built_aaguid (set_aaguid k built_aaguid))

  cred_random_step-Keeps :
      (other : ℕ) (s : State) → IsOther other → Keeps other s (cred_random_step s)
  cred_random_step-Keeps other s o =
      if_missing-Keeps cred_random_secret_key other (make_cred_random k r built_aaguid) s
        (λ t. make_cred_random-Keeps other t o.1)

  aaguid_step-Keeps : (other : ℕ) (s : State) → IsOther other → Keeps other s (aaguid_step s)
  unfolding set_aaguid
  aaguid_step-Keeps other s o =
      if_missing-Keeps aaguid_key other (on_store k r built_aaguid (set_aaguid k built_aaguid)) s
        (λ t. insert-Keeps aaguid_key other built_aaguid t o.2)

  init-Keeps : (other : ℕ) (s : State) → IsOther other → Keeps other s (init k r built_aaguid s)
  unfolding init
  init-Keeps other s o =
      Keeps-bind other master_keys_step (cred_random_step >>= λ _. aaguid_step) s
        (if_missing-Keeps master_keys_key other (make_master_keys k r built_aaguid) s
          (λ t. make_master_keys-Keeps other t o.0))
        (λ t.
          Keeps-bind other cred_random_step aaguid_step t (cred_random_step-Keeps other t o)
            (λ u. aaguid_step-Keeps other u o))

  -- What the store holds after `clear`.
  abbrev cleared : State → State
  cleared s = record s { store = (k.clear num_persistent_keys s.store).0 }

  reset-find :
      (other : ℕ) (s : State)
      → IsOther other
      → (reset k r built_aaguid s).1 ≡ ok tt
      → ((k.clear num_persistent_keys s.store).1 ≡ ok tt)
        × (find k (reset k r built_aaguid s).0.store other ≡ find k (cleared s).store other)
  unfolding reset
  reset-find other s o h = elim (Result-cases (k.clear num_persistent_keys s.store).1) [
    | inr (e, c) ↦ ground arith
    | inl (tt, c) ↦ (c, ground (arith, init-Keeps other (cleared s) o))
  ]

  reset-forgets :
      (other : ℕ) (s : State)
      → IsOther other
      → num_persistent_keys ≤ other
      → (reset k r built_aaguid s).1 ≡ ok tt
      → find k (reset k r built_aaguid s).0.store other ≡ ok none
  reset-forgets other s o le h =
      let (c, e) = reset-find other s o h in
      e ∙ ap (map_err from_store_error) (k.find-clear s.store num_persistent_keys other le c)

  reset-keeps :
      (other : ℕ) (s : State)
      → IsOther other
      → other < num_persistent_keys
      → (reset k r built_aaguid s).1 ≡ ok tt
      → find k (reset k r built_aaguid s).0.store other ≡ find k s.store other
  reset-keeps other s o lt h =
      let (c, e) = reset-find other s o h in
      e ∙ ap (map_err from_store_error) (k.find-clear_lt s.store num_persistent_keys other lt c)

  -- After a reset that succeeds there is no PIN and no credential, all PIN retries are left, the least
  -- PIN length is 4 and the signature counter is 1; the attestation key and certificate are those from
  -- before the reset.
  pub reset_lem :
      (s : Seeded r.Rng k.Store)
      → (reset k r built_aaguid s).1 ≡ ok tt
      → let store = (reset k r built_aaguid s).0.store in
        (pin_hash k store ≡ ok none)
        × (pin_retries k store ≡ ok 8)
        × (min_pin_length k store ≡ ok 4)
        × (global_signature_counter k store ≡ ok 1)
        × ((key : ℕ) → is_credential_key key ≡ true → find k store key ≡ ok none)
        × (attestation_private_key k store ≡ attestation_private_key k s.store)
        × (attestation_certificate k store ≡ attestation_certificate k s.store)
  unfolding pin_hash pin_retries min_pin_length global_signature_counter attestation_private_key
      attestation_certificate
  reset_lem s h = (
    rw (reset-forgets pin_hash_key s (omega arith) (omega arith) h) refl,
    rw (reset-forgets pin_retries_key s (omega arith) (omega arith) h) refl,
    rw (reset-forgets min_pin_length_key s (omega arith) (omega arith) h) refl,
    rw (reset-forgets global_signature_counter_key s (omega arith) (omega arith) h) refl,
    (λ key c. reset-forgets key s (credential-IsOther key c) (credential_le key c) h),
    rw (reset-keeps attestation_private_key_key s (omega arith) (omega arith) h) refl,
    rw (reset-keeps attestation_certificate_key s (omega arith) (omega arith) h) refl,
  )
