-- ===== src/Pin/Guessing.antt =====
-- How many wrong PINs src/ctap/pin_protocol_v1.rs compares with the one that is set.
use open_sk.Common.{ℕ, ◌≡◌, ◌∙◌, arith}
use open_sk.Common.{Bool, true, false, ◌&&◌, List, Option, none, some, not}
use open_sk.Common.{◌==◌, inl, inr}
use open_sk.Common.Results.{Result, ok, err}
use open_sk.Common.Actions.{Result-cases}
use open_sk.Ctap.Status.{Ctap2StatusCode}
use open_sk.Storage.Read.{pin_hash, pin_retries}
use open_sk.Storage.Write.{decr_pin_retries, reset_pin_retries}
use open_sk.Formats.Cose.{CoseKey}
use open_sk.Pin.Secrets.{PinPrimitives}
use open_sk.Pin.Verify.{State, is_blocked, handle_mismatch, count_mismatch, compare_pin_hash}
use open_sk.Pin.Verify.{check_pin_hash, verify_pin_hash_enc, shared_secret}
use open_sk.Pin.Token.{process_get_pin_token}

abbrev pub is_err : {A : Type 0} → Result A Ctap2StatusCode → Bool
is_err (ok a) = false
is_err (err e) = true

module _ (p : PinPrimitives) where
  -- The call failed and left this store.
  abbrev pub Failed : p.store.Store → {A : Type 0} → State p × Result A Ctap2StatusCode → Type 0
  Failed store r = (r.0.persistent_store ≡ store) × (is_err r.1 ≡ true)

  handle_mismatch-Failed : (s : State p) → Failed s.persistent_store (handle_mismatch p s)
  unfolding handle_mismatch count_mismatch
  handle_mismatch-Failed s = ground arith

  -- The store a mismatch or a hash of the wrong size leaves.
  compare_pin_hash-store :
      (key : p.aes256.Key) (pin_hash_enc stored : List ℕ) (s : State p)
      → (compare_pin_hash p key pin_hash_enc stored s).0.persistent_store ≡ s.persistent_store
  unfolding compare_pin_hash
  compare_pin_hash-store key pin_hash_enc stored s = ground (arith, handle_mismatch-Failed s)

  check_pin_hash-blocked :
      (key : p.aes256.Key) (pin_hash_enc stored : List ℕ) (s : State p)
      → is_blocked p s ≡ true
      → Failed s.persistent_store (check_pin_hash p key pin_hash_enc stored s)
  unfolding check_pin_hash
  check_pin_hash-blocked key pin_hash_enc stored s b = ground arith

  check_pin_hash-store :
      (key : p.aes256.Key) (pin_hash_enc stored : List ℕ) (s : State p)
      → is_blocked p s ≡ false
      → (decr_pin_retries p.store s.persistent_store).1 ≡ ok tt
      → (check_pin_hash p key pin_hash_enc stored s).0.persistent_store
        ≡ (decr_pin_retries p.store s.persistent_store).0
  unfolding check_pin_hash
  check_pin_hash-store key pin_hash_enc stored s b d = ground (
    arith,
    compare_pin_hash-store key pin_hash_enc stored
        (record s { persistent_store = (decr_pin_retries p.store s.persistent_store).0 }),
  )

  -- Where the PIN is wrong, the stores of the checks are the last ones.
  verify_pin_hash_enc-Failed :
      (key : p.aes256.Key) (pin_hash_enc stored : List ℕ) (s : State p)
      → pin_hash p.store s.persistent_store ≡ ok (some stored)
      → ((store : p.store.Store) → (reset_pin_retries p.store store).1 ≡ ok tt)
      → is_err (verify_pin_hash_enc p key pin_hash_enc s).1 ≡ true
      → (verify_pin_hash_enc p key pin_hash_enc s).0.persistent_store
        ≡ (check_pin_hash p key pin_hash_enc stored s).0.persistent_store
  unfolding verify_pin_hash_enc
  verify_pin_hash_enc-Failed key pin_hash_enc stored s h reliable e =
      ground (arith, reliable (check_pin_hash p key pin_hash_enc stored s).0.persistent_store)

-- Whether there is a PIN.
abbrev pub has_pin : Result (Option (List ℕ)) Ctap2StatusCode → Bool
has_pin (ok (some stored)) = true
has_pin _ = false

abbrev pub has_retries : Result ℕ Ctap2StatusCode → Bool
has_retries (ok n) = not (n == 0)
has_retries (err e) = false

module _ (p : PinPrimitives) where
  -- The store takes every retry counter, and removes it.
  pub record IsReliable : Type 0 where
    pub decr_ok :
        (store : p.store.Store) (n : ℕ)
        → pin_retries p.store store ≡ ok n
        → (decr_pin_retries p.store store).1 ≡ ok tt
    pub reset_ok : (store : p.store.Store) → (reset_pin_retries p.store store).1 ≡ ok tt

  -- Whether a PIN that is sent now is checked against the one that is set.
  abbrev pub is_open : State p → Bool
  is_open s = has_pin (pin_hash p.store s.persistent_store) && not (is_blocked p s)

  abbrev pub compares : CoseKey → State p → Bool
  compares key_agreement s =
      has_retries (pin_retries p.store s.persistent_store)
      && (not (is_err (shared_secret p s.pin_protocol.key_agreement_key key_agreement))
          && is_open s)

  verify-closed :
      (key : p.aes256.Key) (pin_hash_enc : List ℕ) (s : State p)
      → is_open s ≡ false
      → Failed p s.persistent_store (verify_pin_hash_enc p key pin_hash_enc s)
  unfolding verify_pin_hash_enc
  verify-closed key pin_hash_enc s c = elim (Result-cases (pin_hash p.store s.persistent_store)) [
    | inl (none, h) ↦ ground arith
    | inl (some stored, h) ↦ ground (arith, check_pin_hash-blocked p key pin_hash_enc stored s)
    | inr (e, h) ↦ ground arith
  ]

  verify-open :
      (key : p.aes256.Key) (pin_hash_enc : List ℕ) (s : State p) (n : ℕ)
      → IsReliable
      → pin_retries p.store s.persistent_store ≡ ok n
      → is_open s ≡ true
      → is_err (verify_pin_hash_enc p key pin_hash_enc s).1 ≡ true
      → (verify_pin_hash_enc p key pin_hash_enc s).0.persistent_store
        ≡ (decr_pin_retries p.store s.persistent_store).0
  verify-open key pin_hash_enc s n reliable e o f =
      elim (Result-cases (pin_hash p.store s.persistent_store)) [
        | inl (none, h) ↦ ground arith
        | inl (some stored, h) ↦
            verify_pin_hash_enc-Failed p key pin_hash_enc stored s h reliable.reset_ok f
            ∙ check_pin_hash-store p key pin_hash_enc stored s (ground arith)
                (reliable.decr_ok s.persistent_store n e)
        | inr (e, h) ↦ ground arith
      ]

  pub token-closed :
      (key_agreement : CoseKey) (pin_hash_enc : List ℕ) (s : State p)
      → compares key_agreement s ≡ false
      → (process_get_pin_token p key_agreement pin_hash_enc s).0.persistent_store
        ≡ s.persistent_store
  unfolding process_get_pin_token
  token-closed key_agreement pin_hash_enc s c =
      elim (Result-cases (pin_retries p.store s.persistent_store)) [
        | inr (e, h) ↦ ground arith
        | inl (n, h) ↦
            elim (Result-cases (shared_secret p s.pin_protocol.key_agreement_key key_agreement)) [
              | inr (e, k) ↦ ground arith
              | inl (secret, k) ↦ ground (arith, verify-closed (p.aes256_key secret) pin_hash_enc s)
            ]
      ]

  pub token-open :
      (key_agreement : CoseKey) (pin_hash_enc : List ℕ) (s : State p)
      → IsReliable
      → compares key_agreement s ≡ true
      → is_err (process_get_pin_token p key_agreement pin_hash_enc s).1 ≡ true
      → (process_get_pin_token p key_agreement pin_hash_enc s).0.persistent_store
        ≡ (decr_pin_retries p.store s.persistent_store).0
  unfolding process_get_pin_token
  token-open key_agreement pin_hash_enc s reliable c f =
      elim (Result-cases (pin_retries p.store s.persistent_store)) [
        | inr (e, h) ↦ ground arith
        | inl (n, h) ↦
            elim (Result-cases (shared_secret p s.pin_protocol.key_agreement_key key_agreement)) [
              | inr (e, k) ↦ ground arith
              | inl (secret, k) ↦
                  ground (arith, verify-open (p.aes256_key secret) pin_hash_enc s n reliable h)
            ]
      ]
