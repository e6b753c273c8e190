-- ===== src/Store/Contents.antt =====
-- The HashMap from keys to values of libraries/persistent_store/src/model.rs, as its list of entries.
use open_sk.Common.{ℕ, ◌≤◌, ◌<◌, ◌≡◌, ◌≢◌, refl, arith, List, [], ◌∷◌, Option, none, some, ◌==◌}
use open_sk.Common.{ltb, if◌then◌else◌}
use open_sk.Store.Interface.{Value}

abbrev pub Contents : Type 0
Contents = List (ℕ × Value)

unfoldable pub get : ℕ → Contents → Option Value
get key [] = none
get key ((k, v) ∷ entries) = let later = get key entries in if k == key then some v else later

-- `HashMap::remove`
unfoldable pub erase : ℕ → Contents → Contents
erase key [] = []
erase key ((k, v) ∷ entries) =
    let later = erase key entries in if k == key then later else (k, v) ∷ later

-- `HashMap::insert`
unfoldable pub put : ℕ → Value → Contents → Contents
put key value entries = (key, value) ∷ erase key entries

-- `retain(|&k, _| k < min_key)`
unfoldable pub retain_below : ℕ → Contents → Contents
retain_below min_key [] = []
retain_below min_key ((k, v) ∷ entries) =
    let later = retain_below min_key entries in if ltb k min_key then (k, v) ∷ later else later

pub get-erase : (key : ℕ) (entries : Contents) → get key (erase key entries) ≡ none
unfolding get erase
get-erase key [] = refl
get-erase key (e ∷ entries) = ground (arith, get-erase key entries)

pub get-erase_ne :
    (key other : ℕ) (entries : Contents)
    → other ≢ key
    → get other (erase key entries) ≡ get other entries
unfolding get erase
get-erase_ne key other [] ne = refl
get-erase_ne key other (e ∷ entries) ne = ground (arith, get-erase_ne key other entries ne)

pub get-put :
    (key : ℕ) (value : Value) (entries : Contents) → get key (put key value entries) ≡ some value
unfolding get put
get-put key value entries = ground arith

pub get-put_ne :
    (key other : ℕ) (value : Value) (entries : Contents)
    → other ≢ key
    → get other (put key value entries) ≡ get other entries
unfolding get put
get-put_ne key other value entries ne = ground (arith, get-erase_ne key other entries ne)

pub get-retain_below :
    (min_key key : ℕ) (entries : Contents)
    → min_key ≤ key
    → get key (retain_below min_key entries) ≡ none
unfolding get retain_below
get-retain_below min_key key [] h = refl
get-retain_below min_key key (e ∷ entries) h =
    ground (arith, get-retain_below min_key key entries h)

pub get-retain_below_lt :
    (min_key key : ℕ) (entries : Contents)
    → key < min_key
    → get key (retain_below min_key entries) ≡ get key entries
unfolding get retain_below
get-retain_below_lt min_key key [] h = refl
get-retain_below_lt min_key key (e ∷ entries) h =
    ground (arith, get-retain_below_lt min_key key entries h)
