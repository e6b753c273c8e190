-- ===== src/Storage/Retries.antt =====
-- What the writes of src/ctap/storage.rs do to the PIN hash and the PIN retries that are read later.
use open_sk.Common.{ℕ, zero, suc, false, ◌-◌, ◌≡◌, ◌≢◌, refl, ap, sym, arith, [], ◌∷◌, length}
use open_sk.Common.{some, ◌==◌, ◌∙◌, if◌then◌else◌}
use open_sk.Common.Actions.{done}
use open_sk.Common.Results.{ok, err, map_err}
use open_sk.Store.Interface.{KeyStore, Value, Answer}
use open_sk.Storage.Key.{pin_hash_key, pin_retries_key}
use open_sk.Storage.Read.{from_store_error, find, pin_hash, pin_retries}
use open_sk.Storage.Write.{insert, set_pin_hash, decr_pin_retries, reset_pin_retries}
use open_sk.Storage.Write.{write_lower}

-- A call that succeeds once its error is converted has succeeded before.
pub answered_ok : (r : Answer) → map_err from_store_error r ≡ ok tt → r ≡ ok tt
answered_ok (ok tt) h = refl
answered_ok (err e) h = cc

differs : (n : ℕ) → (suc n - 1 == suc n) ≡ false
differs n = ground arith

module _ (k : KeyStore) where
  pub find-insert :
      (s : k.Store) (key : ℕ) (value : Value)
      → (insert k key value s).1 ≡ ok tt
      → find k (insert k key value s).0 key ≡ ok (some value)
  find-insert s key value h =
      ap (map_err from_store_error) (k.find-insert s key value (answered_ok _ h))

  pub find-insert_ne :
      (s : k.Store) (key other : ℕ) (value : Value)
      → other ≢ key
      → (insert k key value s).1 ≡ ok tt
      → find k (insert k key value s).0 other ≡ find k s other
  find-insert_ne s key other value ne h =
      ap (map_err from_store_error) (k.find-insert_ne s key other value ne (answered_ok _ h))

  pub set_pin_hash-pin_hash :
      (s : k.Store) (hash : Value)
      → length hash ≡ 16
      → (set_pin_hash k hash s).1 ≡ ok tt
      → pin_hash k (set_pin_hash k hash s).0 ≡ ok (some hash)
  unfolding set_pin_hash pin_hash
  set_pin_hash-pin_hash s hash e h = rw (find-insert s pin_hash_key hash h, e) refl

  pub reset_pin_retries-pin_retries :
      (s : k.Store)
      → (reset_pin_retries k s).1 ≡ ok tt
      → pin_retries k (reset_pin_retries k s).0 ≡ ok 8
  unfolding reset_pin_retries pin_retries
  reset_pin_retries-pin_retries s h = rw (k.find-remove s pin_retries_key (answered_ok _ h)) refl

  pub reset_pin_retries-pin_hash :
      (s : k.Store)
      → (reset_pin_retries k s).1 ≡ ok tt
      → pin_hash k (reset_pin_retries k s).0 ≡ pin_hash k s
  unfolding reset_pin_retries pin_hash
  reset_pin_retries-pin_hash s h =
      rw (k.find-remove_ne s pin_retries_key pin_hash_key (omega arith) (answered_ok _ h)) refl

  -- Where a retry is left, the write happens.
  write_lower-suc :
      (s : k.Store) (n : ℕ)
      → write_lower k (suc n) s ≡ insert k pin_retries_key ((suc n - 1) ∷ []) s
  unfolding write_lower
  write_lower-suc s n =
      ap (λ b. (if b then done tt else insert k pin_retries_key ((suc n - 1) ∷ [])) s) (differs n)

  write_lower-pin_retries :
      (s : k.Store) (n : ℕ)
      → pin_retries k s ≡ ok n
      → (write_lower k n s).1 ≡ ok tt
      → pin_retries k (write_lower k n s).0 ≡ ok (n - 1)
  unfolding write_lower pin_retries
  write_lower-pin_retries s zero e h = e
  write_lower-pin_retries s (suc n) e h =
      rw
        (
          write_lower-suc s n,
          find-insert s pin_retries_key ((suc n - 1) ∷ [])
              (ap (λ r. r.1) (sym (write_lower-suc s n)) ∙ h),
        )
        refl

  write_lower-pin_hash :
      (s : k.Store) (n : ℕ)
      → (write_lower k n s).1 ≡ ok tt
      → pin_hash k (write_lower k n s).0 ≡ pin_hash k s
  unfolding write_lower pin_hash
  write_lower-pin_hash s zero h = refl
  write_lower-pin_hash s (suc n) h =
      rw
        (
          write_lower-suc s n,
          find-insert_ne s pin_retries_key pin_hash_key ((suc n - 1) ∷ []) (omega arith)
              (ap (λ r. r.1) (sym (write_lower-suc s n)) ∙ h),
        )
        refl

  decr_pin_retries-eq :
      (s : k.Store) (n : ℕ) → pin_retries k s ≡ ok n → decr_pin_retries k s ≡ write_lower k n s
  unfolding decr_pin_retries
  decr_pin_retries-eq s n e =
      ap (λ r. elim r [ ok old_value ↦ write_lower k old_value s | err e ↦ (s, err e) ]) e

  -- A retry is used up, unless none is left.
  pub decr_pin_retries-pin_retries :
      (s : k.Store) (n : ℕ)
      → pin_retries k s ≡ ok n
      → (decr_pin_retries k s).1 ≡ ok tt
      → pin_retries k (decr_pin_retries k s).0 ≡ ok (n - 1)
  decr_pin_retries-pin_retries s n e h =
      let eq = decr_pin_retries-eq s n e in rw eq (write_lower-pin_retries s n e (rw (← eq) h))

  pub decr_pin_retries-pin_hash :
      (s : k.Store) (n : ℕ)
      → pin_retries k s ≡ ok n
      → (decr_pin_retries k s).1 ≡ ok tt
      → pin_hash k (decr_pin_retries k s).0 ≡ pin_hash k s
  decr_pin_retries-pin_hash s n e h =
      let eq = decr_pin_retries-eq s n e in rw eq (write_lower-pin_hash s n (rw (← eq) h))
