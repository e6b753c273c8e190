-- ===== src/Storage/Credentials.antt =====
-- The credentials in src/ctap/storage.rs: their iteration, search and storage.
use open_sk.Common.{
  ℕ, zero, suc, ◌+◌, ◌-◌, ◌%◌, ◌^◌, Bool, true, false, ◌&&◌, ◌||◌, max, List, [], ◌∷◌,
}
use open_sk.Common.{get_or, replicate, Option, none, some, ltb, leb, eq_bytes}
use open_sk.Common.{if◌then◌else◌, not}
use open_sk.Common.Results.{Result, ok, err, ◌>>=◌, map_err}
use open_sk.Common.Actions
use open_sk.Common.Actions.{Action, reading}
use open_sk.Cbor.Writer.{write}
use open_sk.Cbor.Reader
use open_sk.Ctap.Status.{Ctap2StatusCode, ctap2_err_vendor_internal_error}
use open_sk.Ctap.Status.{ctap2_err_vendor_response_cannot_write_cbor, ctap2_err_key_store_full}
use open_sk.Ctap.Primitives.{Ecdsa}
use open_sk.Ctap.State.{CredentialProtectionPolicy, user_verification_required}
use open_sk.Formats.Source.{Source, source_value, source_from_value, is_discoverable}
use open_sk.Store.Interface.{KeyStore, Value, StoreError}
use open_sk.Storage.Key.{credentials_start, is_credential_key}
use open_sk.Storage.Read.{from_store_error}
use open_sk.Storage.Write.{Storing, insert}

abbrev pub max_supported_residential_keys : ℕ
max_supported_residential_keys = 150

abbrev pub is_some : {A : Type 0} → Option A → Bool
is_some none = false
is_some (some a) = true

-- A Boolean of `keys` set to true.
unfoldable pub mark : ℕ → List Bool → List Bool
mark i [] = []
mark zero (b ∷ keys) = true ∷ keys
mark (suc i) (b ∷ keys) = b ∷ mark i keys

unfoldable pub count_used : List Bool → ℕ
count_used [] = 0
count_used (b ∷ keys) = let rest = count_used keys in if b then suc rest else rest

-- `find(|key| !keys[key - min_key])`, on the shifted keys.
unfoldable pub first_free : List Bool → Option ℕ
first_free [] = none
first_free (b ∷ keys) =
    let later = first_free keys in
    if not b then some 0 else elim later [ none ↦ none | some i ↦ some (suc i) ]

-- What `unwrap` of the iterator makes of a result.
abbrev pub usable : {A E : Type 0} → Result A E → Option A
usable (ok a) = some a
usable (err e) = none

module _ (k : KeyStore) {Rng : Type 0} (ecdsa : Ecdsa Rng) (bits : ℕ) where
  abbrev pub Item : Type 0
  Item = ℕ × Source ecdsa

  -- What the iterator yields until it ends, and the result that it leaves.
  abbrev pub Items : Type 0
  Items = List Item × Result {0, 0} Unit Ctap2StatusCode

  unfoldable pub deserialize_credential : Value → Option (Source ecdsa)
  deserialize_credential bytes = usable (do
    cbor ← map_err (λ _. ctap2_err_vendor_internal_error) (Reader.read bits bytes)
    source_from_value ecdsa cbor)

  unfoldable pub serialize_credential : Source ecdsa → Result Value Ctap2StatusCode
  serialize_credential credential =
      let (bytes, written) = write (source_value ecdsa credential) [] in
      if written then ok bytes else err ctap2_err_vendor_response_cannot_write_cbor

  -- The item of a handle whose key is one of a credential.
  unfoldable pub item_of : k.Store → k.Handle → Option Item
  item_of s handle = elim (usable (k.get_value s handle)) [
    | none ↦ none
    | some value ↦ elim (deserialize_credential value) [
      | none ↦ none
      | some credential ↦ some (k.get_key handle, credential)
    ]
  ]

  -- An item before the later ones, or the end of the iteration by an error.
  abbrev pub yielded : Option Item → Items → Items
  yielded none later = ([], err ctap2_err_vendor_internal_error)
  yielded (some item) later = (item ∷ later.0, later.1)

  -- `IterCredentials::next`, until it answers `None`.
  unfoldable pub iterated : k.Store → List (Result k.Handle StoreError) → Items
  iterated s [] = ([], ok tt)
  iterated s (err e ∷ handles) = ([], err ctap2_err_vendor_internal_error)
  iterated s (ok handle ∷ handles) =
      let later = iterated s handles in
      if not (is_credential_key (k.get_key handle)) then later else yielded (item_of s handle) later

  unfoldable pub iter_credentials : k.Store → Result Items Ctap2StatusCode
  iter_credentials s = do handles ← map_err from_store_error (k.iter s); ok (iterated s handles)

  -- The first item that matches; the iteration stops there, before any later error.
  unfoldable pub first_match :
      (Source ecdsa → Bool) → Items → Result (Option (Source ecdsa)) Ctap2StatusCode
  first_match matches ([], end) = do _ ← end; ok none
  first_match matches ((key, credential) ∷ items, end) =
      let later = first_match matches (items, end) in
      if matches credential then ok (some credential) else later

  -- `find_credential` hides a credential that requires user verification, if it is to check that.
  abbrev pub requires_verification : Option CredentialProtectionPolicy → Bool
  requires_verification (some user_verification_required) = true
  requires_verification _ = false

  abbrev pub shown : Bool → Option (Source ecdsa) → Option (Source ecdsa)
  shown check_cred_protect none = none
  shown check_cred_protect (some credential) =
      if check_cred_protect && requires_verification credential.cred_protect_policy
      then none
      else some credential

  unfoldable pub find_credential :
      List ℕ → List ℕ → Bool → k.Store → Result (Option (Source ecdsa)) Ctap2StatusCode
  find_credential rp_id credential_id check_cred_protect s = do
    items ← iter_credentials s
    found ←
        first_match (λ c. eq_bytes c.rp_id rp_id && eq_bytes c.credential_id credential_id) items
    ok (shown check_cred_protect found)

  -- The same relying party and the same user.
  abbrev pub same_account : Source ecdsa → Source ecdsa → Bool
  same_account a b = eq_bytes a.rp_id b.rp_id && eq_bytes a.user_handle b.user_handle

  -- The loop of `store_credential`: which keys are used, and the key of the account.
  unfoldable pub scan :
      Source ecdsa
      → List Item
      → List Bool
      → Option ℕ
      → Result (List Bool × Option ℕ) Ctap2StatusCode
  scan new [] keys old_key = ok (keys, old_key)
  scan new ((key, credential) ∷ items) keys old_key =
      let i = key - credentials_start in
      let same = same_account credential new in
      let rest = scan new items (mark i keys) (if same then some key else old_key) in
      if ltb key credentials_start || (leb max_supported_residential_keys i || get_or keys i false)
      then err ctap2_err_vendor_internal_error
      else if same && is_some old_key
      then err ctap2_err_vendor_internal_error
      else rest

  -- The key of the account, or the first free one.
  unfoldable pub key_for : List Bool → Option ℕ → Result ℕ Ctap2StatusCode
  key_for keys (some key) = ok key
  key_for keys none =
      if leb max_supported_residential_keys (count_used keys)
      then err ctap2_err_key_store_full
      else elim (first_free keys) [
        | none ↦ err ctap2_err_vendor_internal_error
        | some i ↦ ok (credentials_start + i)
      ]

  -- The key and the value that `store_credential` writes.
  unfoldable pub credential_entry : Source ecdsa → k.Store → Result (ℕ × Value) Ctap2StatusCode
  credential_entry new s = do
    (items, end) ← iter_credentials s
    (keys, old_key) ← scan new items (replicate max_supported_residential_keys false) none
    _ ← end
    key ← key_for keys old_key
    value ← serialize_credential new
    ok (key, value)

  unfoldable pub store_credential : Source ecdsa → Storing k
  store_credential new =
      Actions.◌>>=◌ (reading (credential_entry new)) (λ (key, value). insert k key value)

  unfoldable pub filter_items : List ℕ → Bool → List Item → List (Source ecdsa)
  filter_items rp_id check_cred_protect [] = []
  filter_items rp_id check_cred_protect ((key, credential) ∷ items) =
      let later = filter_items rp_id check_cred_protect items in
      if eq_bytes credential.rp_id rp_id
        && (not check_cred_protect || is_discoverable ecdsa credential)
      then credential ∷ later
      else later

  unfoldable pub filter_credential :
      List ℕ → Bool → k.Store → Result (List (Source ecdsa)) Ctap2StatusCode
  filter_credential rp_id check_cred_protect s = do
    (items, end) ← iter_credentials s
    _ ← end
    ok (filter_items rp_id check_cred_protect items)

  -- `max().unwrap_or(0)`
  unfoldable pub max_creation_order : List Item → ℕ
  max_creation_order [] = 0
  max_creation_order ((key, credential) ∷ items) =
      max credential.creation_order (max_creation_order items)

  unfoldable pub new_creation_order : k.Store → Result ℕ Ctap2StatusCode
  new_creation_order s = do
    (items, end) ← iter_credentials s
    _ ← end
    ok ((max_creation_order items + 1) % 2 ^ 64)
