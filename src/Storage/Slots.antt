-- ===== src/Storage/Slots.antt =====
-- The slots that the loop of `store_credential` of src/ctap/storage.rs marks.
use open_sk.Common.{
  ℕ_discrete, ℕ, zero, suc, ◌-◌, ◌≤◌, ◌<◌, ◌≡◌, ◌≢◌, refl, ap, subst, sym, ◌∙◌, arith, Bool, true,
  false,
}
use open_sk.Common.{List, [], ◌∷◌, length, get_or, All, Option, some}
use open_sk.Common.{if◌then◌else◌, ◌⊎◌, inl, inr}
use open_sk.Common.Results.{ok}
use open_sk.Ctap.Primitives.{Ecdsa}
use open_sk.Formats.Source.{Source}
use open_sk.Store.Interface.{KeyStore}
use open_sk.Storage.Key.{credentials_start}
use open_sk.Storage.Credentials.{Item, mark, first_free, same_account, scan}
use open_sk.Storage.Credentials.{max_supported_residential_keys}

mark_lem : (i : ℕ) (keys : List Bool) → i < length keys → get_or (mark i keys) i false ≡ true
unfolding mark
mark_lem i [] h = absurd (omega arith)
mark_lem zero (b ∷ keys) h = refl
mark_lem (suc i) (b ∷ keys) h = mark_lem i keys (omega arith)

mark-keeps :
    (i j : ℕ) (keys : List Bool) → get_or keys j false ≡ true → get_or (mark i keys) j false ≡ true
unfolding mark
mark-keeps i j [] h = h
mark-keeps zero zero (b ∷ keys) h = refl
mark-keeps zero (suc j) (b ∷ keys) h = h
mark-keeps (suc i) zero (b ∷ keys) h = h
mark-keeps (suc i) (suc j) (b ∷ keys) h = mark-keeps i j keys h

length-mark : (i : ℕ) (keys : List Bool) → length (mark i keys) ≡ length keys
unfolding mark
length-mark i [] = refl
length-mark zero (b ∷ keys) = refl
length-mark (suc i) (b ∷ keys) = ap suc (length-mark i keys)

pub first_free_lem :
    (keys : List Bool) (i : ℕ)
    → first_free keys ≡ some i
    → (get_or keys i false ≡ false) × (i < length keys)
unfolding first_free
first_free_lem [] i h = ground arith
first_free_lem (false ∷ keys) zero h = (refl, omega arith)
first_free_lem (false ∷ keys) (suc i) h = ground arith
first_free_lem (true ∷ keys) zero h = ground arith
first_free_lem (true ∷ keys) (suc i) h = ground (arith, first_free_lem keys i)

pub clash : {b : Bool} → b ≡ true → b ≢ false
clash t f = cc

-- The key that an item leaves as the one of the account.
chosen_key :
    (same : Bool) (key : ℕ) (old_key : Option ℕ) (result : ℕ)
    → (if same then some key else old_key) ≡ some result
    → (key ≡ result) ⊎ (old_key ≡ some result)
chosen_key true key old_key result h = inl (ground arith)
chosen_key false key old_key result h = inr h

module _ (k : KeyStore) {Rng : Type 0} (ecdsa : Ecdsa Rng) (bits : ℕ) where
  -- A key of the 150 that are used, and whether it is marked.
  abbrev pub IsSlot : ℕ → Type 0
  IsSlot key =
      (credentials_start ≤ key) × (key - credentials_start < max_supported_residential_keys)

  abbrev pub marked : List Bool → ℕ → Bool
  marked keys key = get_or keys (key - credentials_start) false

  -- The loop goes on: the key of the item is a slot that was not marked, and no account is met twice.
  record Goes (new : Source ecdsa) (key : ℕ) (credential : Source ecdsa)
      (items : List (Item k ecdsa bits)) (keys : List Bool) (old_key : Option ℕ)
      (r : List Bool × Option ℕ) : Type 0 where
    slot : IsSlot key
    unmarked : marked keys key ≡ false
    rest :
        scan k ecdsa bits new items
          (mark (key - credentials_start) keys)
          (if same_account k ecdsa bits credential new then some key else old_key)
        ≡ ok r

  scan-Goes :
      (new : Source ecdsa) (key : ℕ) (credential : Source ecdsa) (items : List (Item k ecdsa bits))
      (keys : List Bool) (old_key : Option ℕ) (r : List Bool × Option ℕ)
      → scan k ecdsa bits new ((key, credential) ∷ items) keys old_key ≡ ok r
      → Goes new key credential items keys old_key r
  unfolding scan
  scan-Goes new key credential items keys old_key r h = record {
    slot = ground arith;
    unmarked = ground arith;
    rest = ground arith;
  }

  pub scan-length :
      (new : Source ecdsa) (items : List (Item k ecdsa bits)) (keys : List Bool)
      (old_key : Option ℕ) (r : List Bool × Option ℕ)
      → scan k ecdsa bits new items keys old_key ≡ ok r
      → length r.0 ≡ length keys
  unfolding scan
  scan-length new [] keys old_key r h = ground arith
  scan-length new ((key, credential) ∷ items) keys old_key r h =
      scan-length new items (mark (key - credentials_start) keys) _ r
        (scan-Goes new key credential items keys old_key r h).rest
      ∙ length-mark (key - credentials_start) keys

  scan-marked :
      (new : Source ecdsa) (items : List (Item k ecdsa bits)) (keys : List Bool)
      (old_key : Option ℕ) (r : List Bool × Option ℕ) (j : ℕ)
      → scan k ecdsa bits new items keys old_key ≡ ok r
      → get_or keys j false ≡ true
      → get_or r.0 j false ≡ true
  unfolding scan
  scan-marked new [] keys old_key r j h m = ground arith
  scan-marked new ((key, credential) ∷ items) keys old_key r j h m =
      scan-marked new items (mark (key - credentials_start) keys) _ r j
        (scan-Goes new key credential items keys old_key r h).rest
        (mark-keeps (key - credentials_start) j keys m)

  -- Every item has a slot, which is marked in the end.
  pub scan-items :
      (new : Source ecdsa) (items : List (Item k ecdsa bits)) (keys : List Bool)
      (old_key : Option ℕ) (r : List Bool × Option ℕ)
      → length keys ≡ max_supported_residential_keys
      → scan k ecdsa bits new items keys old_key ≡ ok r
      → All (λ item. marked r.0 item.0 ≡ true) items
  scan-items new [] keys old_key r n h = tt
  scan-items new ((key, credential) ∷ items) keys old_key r n h =
      let goes = scan-Goes new key credential items keys old_key r h in
      let i = key - credentials_start in
      (
        scan-marked new items (mark i keys) _ r i goes.rest
            (mark_lem i keys (omega (arith, n, goes.slot.1))),
        scan-items new items (mark i keys) _ r (length-mark i keys ∙ n) goes.rest,
      )

  pub scan-old_key :
      (new : Source ecdsa) (items : List (Item k ecdsa bits)) (keys : List Bool)
      (old_key : Option ℕ) (r : List Bool × Option ℕ) (key : ℕ)
      → scan k ecdsa bits new items keys old_key ≡ ok r
      → r.1 ≡ some key
      → (old_key ≡ some key) ⊎ (IsSlot key × (marked keys key ≡ false))
  unfolding scan
  scan-old_key new [] keys old_key r key h e = inl (ground arith)
  scan-old_key new ((other, credential) ∷ items) keys old_key r key h e =
      let goes = scan-Goes new other credential items keys old_key r h in
      elim (scan-old_key new items (mark (other - credentials_start) keys) _ r key goes.rest e) [
        | inr (slot, free) ↦ inr (
          slot,
          ground (arith, mark-keeps (other - credentials_start) (key - credentials_start) keys),
        )
        | inl same ↦
            elim (chosen_key (same_account k ecdsa bits credential new) other old_key key same) [
              | inr old ↦ inl old
              | inl e' ↦ inr (
                  subst (λ key'. IsSlot key' × (marked keys key' ≡ false)) e'
                    (goes.slot, goes.unmarked))
            ]
      ]

  -- The key of the account is marked.
  abbrev IsMarked : List Bool → Option ℕ → Type 0
  IsMarked keys old_key = (key : ℕ) → old_key ≡ some key → marked keys key ≡ true

  mark-IsMarked :
      (other : ℕ) (keys : List Bool) (old_key : Option ℕ) (same : Bool)
      → length keys ≡ max_supported_residential_keys
      → IsSlot other
      → IsMarked keys old_key
      → IsMarked (mark (other - credentials_start) keys) (if same then some other else old_key)
  mark-IsMarked other keys old_key same n slot m key e =
      elim (chosen_key same other old_key key e) [
        | inl e' ↦
            subst (λ key'. marked (mark (other - credentials_start) keys) key' ≡ true) e'
              (mark_lem (other - credentials_start) keys (omega (arith, n, slot.1)))
        | inr old ↦
            mark-keeps (other - credentials_start) (key - credentials_start) keys (m key old)
      ]

  -- The key of another account does not become the one of this account.
  other_key :
      (new : Source ecdsa) (other : ℕ) (items : List (Item k ecdsa bits)) (keys : List Bool)
      (old_key : Option ℕ) (r : List Bool × Option ℕ)
      → length keys ≡ max_supported_residential_keys
      → IsSlot other
      → marked keys other ≡ false
      → IsMarked keys old_key
      → scan k ecdsa bits new items (mark (other - credentials_start) keys) old_key ≡ ok r
      → r.1 ≢ some other
  other_key new other items keys old_key r n slot free m h e =
      elim (scan-old_key new items (mark (other - credentials_start) keys) old_key r other h e) [
        | inl old ↦ ground (arith, m other old, free)
        | inr (slot', free') ↦
            ground
              (arith, free', mark_lem (other - credentials_start) keys (omega (arith, n, slot.1)))
      ]

  head_same :
      (new : Source ecdsa) (other : ℕ) (items : List (Item k ecdsa bits)) (keys : List Bool)
      (old_key : Option ℕ) (r : List Bool × Option ℕ) (same : Bool)
      → length keys ≡ max_supported_residential_keys
      → IsSlot other
      → marked keys other ≡ false
      → IsMarked keys old_key
      → scan k ecdsa bits new items
          (mark (other - credentials_start) keys)
          (if same then some other else old_key)
        ≡ ok r
      → r.1 ≡ some other
      → same ≡ true
  head_same new other items keys old_key r true n slot free m h e = refl
  head_same new other items keys old_key r false n slot free m h e =
      absurd (other_key new other items keys old_key r n slot free m h e)

  -- Every item has another key or is one of the account.
  abbrev pub Spares : Source ecdsa → ℕ → List (Item k ecdsa bits) → Type 0
  Spares new key items =
      All (λ item. (item.0 ≢ key) ⊎ (same_account k ecdsa bits item.1 new ≡ true)) items

  -- No other account has the key of the account.
  pub scan-same :
      (new : Source ecdsa) (items : List (Item k ecdsa bits)) (keys : List Bool)
      (old_key : Option ℕ) (r : List Bool × Option ℕ) (key : ℕ)
      → length keys ≡ max_supported_residential_keys
      → IsMarked keys old_key
      → scan k ecdsa bits new items keys old_key ≡ ok r
      → r.1 ≡ some key
      → Spares new key items
  scan-same new [] keys old_key r key n m h e = tt
  scan-same new ((other, credential) ∷ items) keys old_key r key n m h e =
      let goes = scan-Goes new other credential items keys old_key r h in
      let same = same_account k ecdsa bits credential new in
      (
        elim (ℕ_discrete other key) [
          | no ne ↦ inl ne
          | yes e' ↦ inr (
              head_same new other items keys old_key r same n goes.slot goes.unmarked m goes.rest
                (e ∙ ap (λ key'. some key') (sym e')))
        ],
        scan-same new items (mark (other - credentials_start) keys) _ r key
            (length-mark (other - credentials_start) keys ∙ n)
            (mark-IsMarked other keys old_key same n goes.slot m) goes.rest e,
      )
