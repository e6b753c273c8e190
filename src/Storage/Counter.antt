-- ===== src/Storage/Counter.antt =====
-- The signature counter of src/ctap/storage.rs, and what a reset leaves.
use open_sk.Common.{ℕ, ◌+◌, ◌%◌, ◌^◌, ◌<◌, ◌≡◌, ap, sym, ◌∙◌, arith}
use open_sk.Common.Results.{ok, err}
use open_sk.Store.Interface.{KeyStore}
use open_sk.Storage.Key.{global_signature_counter_key}
use open_sk.Storage.Read.{from_ne_bytes, global_signature_counter}
use open_sk.Storage.Write.{to_ne_bytes, insert, incr_global_signature_counter}
use open_sk.Storage.Retries.{find-insert}

from-to_ne_bytes : (n : ℕ) → n < 2 ^ 32 → from_ne_bytes (to_ne_bytes n) ≡ n
from-to_ne_bytes n h = omega (arith, h)

module _ (k : KeyStore) where
  incr_global_signature_counter-eq :
      (s : k.Store) (n increment : ℕ)
      → global_signature_counter k s ≡ ok n
      → incr_global_signature_counter k increment s
        ≡ insert k global_signature_counter_key (to_ne_bytes ((n + increment) % 2 ^ 32)) s
  unfolding incr_global_signature_counter
  incr_global_signature_counter-eq s n increment e =
      ap
        (λ r. elim r [
          | ok old_value ↦
              insert k global_signature_counter_key (to_ne_bytes ((old_value + increment) % 2 ^ 32))
                s
          | err e' ↦ (s, err e')
        ])
        e

  counter-insert :
      (s : k.Store) (n : ℕ)
      → n < 2 ^ 32
      → (insert k global_signature_counter_key (to_ne_bytes n) s).1 ≡ ok tt
      → global_signature_counter k (insert k global_signature_counter_key (to_ne_bytes n) s).0
        ≡ ok n
  unfolding global_signature_counter
  counter-insert s n lt h =
      rw (find-insert k s global_signature_counter_key (to_ne_bytes n) h)
        (ap (λ m. ok m) (from-to_ne_bytes n lt))

  -- The increment is added to the signature counter that is read later, where a u32 wraps around.
  pub incr_global_signature_counter-adds :
      (s : k.Store) (n increment : ℕ)
      → global_signature_counter k s ≡ ok n
      → (incr_global_signature_counter k increment s).1 ≡ ok tt
      → global_signature_counter k (incr_global_signature_counter k increment s).0
        ≡ ok ((n + increment) % 2 ^ 32)
  incr_global_signature_counter-adds s n increment e h =
      let eq = incr_global_signature_counter-eq s n increment e in
      rw eq (counter-insert s ((n + increment) % 2 ^ 32) (omega arith) (ap (λ r. r.1) (sym eq) ∙ h))
