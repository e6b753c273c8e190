-- ===== src/Toy.antt =====
-- Small concrete primitives and a store, at which theorems about the parameters are applied.
use open_sk.Common.{
  ℕ, ◌+◌, ◌%◌, ◌≡◌, refl, ap, arith, Bool, true, false, List, [], ◌∷◌, ◌++◌, length, All,
}
use open_sk.Common.{Option, none, some, replicate, get_or, ◌==◌}
use open_sk.Common.Bits.{IsByte}
use open_sk.Common.Results.{Result, ok}
use open_sk.Crypto.Cbc.{BlockCipher}
use open_sk.Crypto.Hmac.{Hash256}
use open_sk.Ctap.Primitives.{Rng256, Ecdsa, Ecdh}
use open_sk.Store.Interface.{KeyStore, Value, StoreError, value_of}
use open_sk.Store.Contents.{Contents, get, put, erase, retain_below, get-put, get-put_ne, get-erase}
use open_sk.Store.Contents.{get-erase_ne, get-retain_below, get-retain_below_lt}

abbrev pub toy_rng : Rng256
toy_rng = record {
  Rng = ℕ;
  gen_uniform_u8x32 = λ n. (replicate 32 (n % 256), n + 1);
  first_of_uniform_u32x8 = λ n. (n, n + 1);
  u8x32_size = λ n. refl;
  u8x32_bytes = λ n. omega arith;
}

-- Two keys.
abbrev pub toy_bytes : Bool → List ℕ
toy_bytes true = replicate 32 1
toy_bytes false = replicate 32 2

pub toy_bytes_size : (sk : Bool) → length (toy_bytes sk) ≡ 32
toy_bytes_size true = refl
toy_bytes_size false = refl

pub toy_bytes-IsByte : (sk : Bool) → All IsByte (toy_bytes sk)
toy_bytes-IsByte true = omega arith
toy_bytes-IsByte false = omega arith

pub toy_from_bytes : (sk : Bool) → some (get_or (toy_bytes sk) 0 0 == 1) ≡ some sk
toy_from_bytes true = refl
toy_from_bytes false = refl

abbrev pub toy_ecdsa : Ecdsa ℕ
toy_ecdsa = record {
  SecKey = Bool;
  gensk = λ n. (true, n + 1);
  genpk = λ sk. 4 ∷ toy_bytes sk;
  to_bytes = toy_bytes;
  from_bytes = λ bytes. some (get_or bytes 0 0 == 1);
  sign_rfc6979 = λ sk contents. 0x30 ∷ get_or (toy_bytes sk) 0 0 ∷ length contents % 256 ∷ [];
  to_bytes_size = toy_bytes_size;
  to_bytes_bytes = toy_bytes-IsByte;
  from_bytes-to_bytes = toy_from_bytes;
}

abbrev pub toy_cipher : BlockCipher
toy_cipher = record {
  Key = ℕ;
  encrypt_block = λ key block. block;
  decrypt_block = λ key block. block;
  encrypt_block-IsBlock = λ key block h. h;
  decrypt-encrypt = λ key block h. refl;
}

abbrev pub toy_hash : Hash256
toy_hash = record {
  hash = λ contents. replicate 32 (length contents % 256);
  hash_size = λ contents. refl;
  hash_bytes = λ contents. omega arith;
}

-- Two agreement keys.
abbrev pub toy_shared : Bool → Bool → List ℕ
toy_shared true true = replicate 32 3
toy_shared true false = replicate 32 5
toy_shared false true = replicate 32 5
toy_shared false false = replicate 32 7

pub toy_shared_comm : (a b : Bool) → toy_shared a b ≡ toy_shared b a
toy_shared_comm true true = refl
toy_shared_comm true false = refl
toy_shared_comm false true = refl
toy_shared_comm false false = refl

abbrev pub toy_ecdh : Ecdh ℕ
toy_ecdh = record {
  SecKey = Bool;
  PubKey = Bool;
  gensk = λ n. (true, n + 1);
  genpk = λ sk. sk;
  exchange_x_sha256 = toy_shared;
  to_coordinates = λ pk. (toy_bytes pk, toy_bytes pk);
  from_coordinates = λ x y. some (get_or x 0 0 == 1);
  exchange_comm = toy_shared_comm;
  x_size = toy_bytes_size;
  y_size = toy_bytes_size;
  from-to_coordinates = toy_from_bytes;
}

abbrev pub with_key : ℕ → Option Value → Option (ℕ × Value)
with_key key none = none
with_key key (some value) = some (key, value)

abbrev pub found : {A : Type 0} → A → Result A StoreError
found a = ok a

pub toy_find :
    (key : ℕ) (o : Option Value) → found o ≡ value_of (λ handle. found handle.1) (with_key key o)
toy_find key none = refl
toy_find key (some value) = refl

abbrev pub handles : Contents → List (Result (ℕ × Value) StoreError)
handles [] = []
handles (e ∷ entries) = ok e ∷ handles entries

-- A store that never fails.
abbrev pub toy_store : KeyStore
toy_store = record {
  Store = Contents;
  Handle = ℕ × Value;
  find = λ s key. ok (get key s);
  find_handle = λ s key. ok (with_key key (get key s));
  insert = λ key value s. (put key value s, ok tt);
  remove = λ key s. (erase key s, ok tt);
  clear = λ min_key s. (retain_below min_key s, ok tt);
  iter = λ s. ok (handles s);
  get_key = λ handle. handle.0;
  get_value = λ s handle. ok handle.1;
  find-find_handle = λ s key. toy_find key (get key s);
  find-insert = λ s key value h. ap (λ o. ok o) (get-put key value s);
  find-insert_ne = λ s key other value ne h. ap (λ o. ok o) (get-put_ne key other value s ne);
  find-remove = λ s key h. ap (λ o. ok o) (get-erase key s);
  find-remove_ne = λ s key other ne h. ap (λ o. ok o) (get-erase_ne key other s ne);
  find-clear = λ s min_key key le h. ap (λ o. ok o) (get-retain_below min_key key s le);
  find-clear_lt = λ s min_key key lt h. ap (λ o. ok o) (get-retain_below_lt min_key key s lt);
}

-- The CBOR of a credential of the relying party "a.b" that requires user verification.
abbrev pub toy_credential : Value
toy_credential =
    0xa7
    ∷ 0
    ∷ 0x58
    ∷ 32
    ∷ (replicate 32 4
        ++ (1
            ∷ 0x58
            ∷ 32
            ∷ (replicate 32 2
                ++ (2 ∷ 99 ∷ 97 ∷ 46 ∷ 98 ∷ 3 ∷ 66 ∷ 1 ∷ 2 ∷ 6 ∷ 3 ∷ 7 ∷ 7 ∷ 8 ∷ 97 ∷ 99 ∷ []))))
