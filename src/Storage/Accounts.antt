-- ===== src/Storage/Accounts.antt =====
-- Which entry `store_credential` of src/ctap/storage.rs writes.
use open_sk.Common.{ℕ, ◌+◌, ◌-◌, ◌≡◌, refl, ap, subst, ◌∙◌, arith, Bool, true, false}
use open_sk.Common.{List, [], ◌∷◌, length, get_or, replicate, All, Option, none, some}
use open_sk.Common.{inl, inr, Option-cases}
use open_sk.Common.Results.{Result, ok}
use open_sk.Common.Actions.{Result-cases}
use open_sk.Ctap.Status.{Ctap2StatusCode}
use open_sk.Ctap.Primitives.{Ecdsa}
use open_sk.Formats.Source.{Source}
use open_sk.Store.Interface.{KeyStore, Value}
use open_sk.Storage.Key.{credentials_start}
use open_sk.Storage.Write.{insert}
use open_sk.Storage.Credentials.{Item, first_free, scan}
use open_sk.Storage.Credentials.{key_for, credential_entry, store_credential, iter_credentials}
use open_sk.Storage.Credentials.{serialize_credential, max_supported_residential_keys}
use open_sk.Storage.Slots.{
  first_free_lem, clash, IsSlot, marked, scan-length, scan-items, scan-old_key, scan-same, Spares,
}

module _ (k : KeyStore) {Rng : Type 0} (ecdsa : Ecdsa Rng) (bits : ℕ) where
  -- No item has a key that is not marked.
  Spares-free :
      (new : Source ecdsa) (key : ℕ) (items : List (Item k ecdsa bits)) (keys : List Bool)
      → All (λ item. marked k ecdsa bits keys item.0 ≡ true) items
      → marked k ecdsa bits keys key ≡ false
      → Spares k ecdsa bits new key items
  Spares-free new key [] keys m free = tt
  Spares-free new key ((other, credential) ∷ items) keys m free =
      (inl (λ e. clash (rw (← e) m.0) free), Spares-free new key items keys m.1 free)

  key_for_lem :
      (new : Source ecdsa) (items : List (Item k ecdsa bits)) (r : List Bool × Option ℕ) (key : ℕ)
      → scan k ecdsa bits new items (replicate max_supported_residential_keys false) none ≡ ok r
      → key_for k ecdsa bits r.0 r.1 ≡ ok key
      → IsSlot k ecdsa bits key × Spares k ecdsa bits new key items
  unfolding key_for
  key_for_lem new items (keys, some old) key h e =
      let found : some old ≡ some key = ground arith in
      elim (scan-old_key k ecdsa bits new items _ none (keys, some old) key h found) [
        | inl none_old ↦ ground arith
        | inr (slot, free) ↦ (
          slot,
          scan-same k ecdsa bits new items _ none (keys, some old) key refl (λ key' f. ground arith)
              h found,
        )
      ]
  key_for_lem new items (keys, none) key h e = elim (Option-cases (first_free keys)) [
    | inl f ↦ ground arith
    | inr (i, f) ↦
        let (free, lt) = first_free_lem keys i f in
        let n : length keys ≡ 150 = scan-length k ecdsa bits new items _ none (keys, none) h in
        let key_eq : key ≡ credentials_start + i = ground arith in
        let shifted : key - credentials_start ≡ i = omega (arith, key_eq) in
        (
          (omega (arith, key_eq), omega (arith, shifted, lt, n)),
          Spares-free new key items keys
              (scan-items k ecdsa bits new items _ none (keys, none) refl h)
              (ap (λ j. get_or keys j false) shifted ∙ free),
        )
  ]

  credential_entry_lem :
      (new : Source ecdsa) (s : k.Store) (items : List (Item k ecdsa bits))
      (end : Result {0, 0} Unit Ctap2StatusCode) (entry : ℕ × Value)
      → iter_credentials k ecdsa bits s ≡ ok (items, end)
      → credential_entry k ecdsa bits new s ≡ ok entry
      → (serialize_credential k ecdsa bits new ≡ ok entry.1)
        × IsSlot k ecdsa bits entry.0
        × Spares k ecdsa bits new entry.0 items
  unfolding credential_entry
  credential_entry_lem new s items end entry h e =
      let keys = replicate max_supported_residential_keys false in
      elim (Result-cases (scan k ecdsa bits new items keys none)) [
        | inr (e₁, h₁) ↦ ground arith
        | inl (r, h₁) ↦ elim (Result-cases end) [
          | inr (e₂, h₂) ↦ ground arith
          | inl (tt, h₂) ↦ elim (Result-cases (key_for k ecdsa bits r.0 r.1)) [
            | inr (e₃, h₃) ↦ ground arith
            | inl (key, h₃) ↦ elim (Result-cases (serialize_credential k ecdsa bits new)) [
              | inr (e₄, h₄) ↦ ground arith
              | inl (value, h₄) ↦
                  let written : (key, value) ≡ entry = ground arith in
                  let (slot, spares) = key_for_lem new items r key h₁ h₃ in
                  subst
                    (λ entry'.
                      (serialize_credential k ecdsa bits new ≡ ok entry'.1)
                      × IsSlot k ecdsa bits entry'.0
                      × Spares k ecdsa bits new entry'.0 items)
                    written (h₄, slot, spares)
            ]
          ]
        ]
      ]

  -- Where a credential is stored, its serialization has been written to one entry, under one of the
  -- 150 keys, and every credential that this key held is one of the same relying party and user: no
  -- other account is overwritten. `items` are the credentials that the iteration yields before.
  pub store_credential-Spares :
      (new : Source ecdsa) (s : k.Store) (items : List (Item k ecdsa bits))
      (end : Result {0, 0} Unit Ctap2StatusCode)
      → iter_credentials k ecdsa bits s ≡ ok (items, end)
      → (store_credential k ecdsa bits new s).1 ≡ ok tt
      → (key : ℕ) × (value : Value) × (store_credential k ecdsa bits new s ≡ insert k key value s)
        × (serialize_credential k ecdsa bits new ≡ ok value)
        × IsSlot k ecdsa bits key
        × Spares k ecdsa bits new key items
  unfolding store_credential
  store_credential-Spares new s items end h e =
      elim (Result-cases (credential_entry k ecdsa bits new s)) [
        | inr (e₁, h₁) ↦ ground arith
        | inl ((key, value), h₁) ↦
            let (serialized, slot, spares) =
              credential_entry_lem new s items end (key, value) h h₁ in
            (key, value, ground arith, serialized, slot, spares)
      ]
