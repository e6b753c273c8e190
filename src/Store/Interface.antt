-- ===== src/Store/Interface.antt =====
-- What the users of libraries/persistent_store/src/store.rs rely on: entries by their key. `Store` of
-- model.rs has these laws.
use open_sk.Common.{ℕ, ◌≡◌, ◌≢◌, ◌≤◌, ◌<◌, List, Option, none, some}
use open_sk.Common.Results.{Result, ok, ◌>>=◌}

pub data StoreError : Type 0 where
  invalid_argument no_capacity no_lifetime storage_error invalid_storage : StoreError

-- What a changing call answers.
abbrev pub Answer : Type 0
Answer = Result {0, 0} Unit StoreError

abbrev pub Value : Type 0
Value = List ℕ

-- What `find` does with the handle.
abbrev pub value_of :
    {Handle : Type 0}
    → (Handle → Result Value StoreError)
    → Option Handle
    → Result (Option Value) StoreError
value_of get_value none = ok none
value_of get_value (some handle) = do value ← get_value handle; ok (some value)

-- A successful call changes the entries that it names and no other.
pub record KeyStore : Type 1 where
  pub Store : Type 0
  pub Handle : Type 0
  pub find : Store → ℕ → Result (Option Value) StoreError
  pub find_handle : Store → ℕ → Result (Option Handle) StoreError
  pub insert : ℕ → Value → Store → Store × Answer
  pub remove : ℕ → Store → Store × Answer
  pub clear : ℕ → Store → Store × Answer
  pub iter : Store → Result (List (Result Handle StoreError)) StoreError
  pub get_key : Handle → ℕ
  pub get_value : Store → Handle → Result Value StoreError
  pub find-find_handle :
      (s : Store) (key : ℕ)
      → find s key ≡ (do found ← find_handle s key; value_of (get_value s) found)
  pub find-insert :
      (s : Store) (key : ℕ) (value : Value)
      → (insert key value s).1 ≡ ok tt
      → find (insert key value s).0 key ≡ ok (some value)
  pub find-insert_ne :
      (s : Store) (key other : ℕ) (value : Value)
      → other ≢ key
      → (insert key value s).1 ≡ ok tt
      → find (insert key value s).0 other ≡ find s other
  pub find-remove :
      (s : Store) (key : ℕ) → (remove key s).1 ≡ ok tt → find (remove key s).0 key ≡ ok none
  pub find-remove_ne :
      (s : Store) (key other : ℕ)
      → other ≢ key
      → (remove key s).1 ≡ ok tt
      → find (remove key s).0 other ≡ find s other
  pub find-clear :
      (s : Store) (min_key key : ℕ)
      → min_key ≤ key
      → (clear min_key s).1 ≡ ok tt
      → find (clear min_key s).0 key ≡ ok none
  pub find-clear_lt :
      (s : Store) (min_key key : ℕ)
      → key < min_key
      → (clear min_key s).1 ≡ ok tt
      → find (clear min_key s).0 key ≡ find s key
