-- ===== src/Pin/Tests.antt =====
-- The PIN protocol over concrete primitives and a store that never fails.
use open_sk.Common.{
  ℕ, zero, suc, ◌≡◌, refl, arith, true, false, List, [], ◌∷◌, length, replicate, none, some, inr,
  ◌+◌, All, eq_bytes,
}
use open_sk.Common.Results.{ok}
use open_sk.Crypto.Cbc.{IsBlock, cbc_decrypt, xor_block_16}
use open_sk.Toy.{toy_rng, toy_ecdh, toy_cipher, toy_hash, toy_store}
use open_sk.Store.Contents.{get, put, erase}
use open_sk.Storage.Read.{pin_hash, pin_retries, min_pin_length}
use open_sk.Storage.Write.{decr_pin_retries, reset_pin_retries, set_pin_hash, write_lower}
use open_sk.Formats.Cose.{cose_from_pubkey, pubkey_from_cose, pubkey_in}
use open_sk.Pin.Secrets.{PinPrimitives}
use open_sk.Pin.Verify.{
  State, is_blocked, PinProtocolV1, verify_pin_hash_enc, check_pin_hash, compare_pin_hash,
  handle_mismatch, count_mismatch, decrypted_hash, shared_secret, new_protocol,
}
use open_sk.Pin.Token.{process_get_pin_token, process_set_pin, process_hmac_secret, set_permissions}
use open_sk.Cbor.Macros.{destructure_cbor_map, peek_value}
use open_sk.Cbor.Reader.{insert}
use open_sk.Cbor.Values.{cmp, integer}
use open_sk.Formats.Extract.{extract_integer, extract_byte_string}
use open_sk.Pin.BruteForce.{
  play, Move, guess, reboot, AreWrong, play_all, checked, checked-add-retries,
}
use open_sk.Pin.Guessing.{IsReliable}
use open_sk.Pin.HmacSecret.{
  platform_secret, encrypted, decrypted, pin_auth_of, salt_hmacs, process_hmac_secret-salts,
}
use open_sk.Pin.RightPin.{opened, process_get_pin_token-right}
use open_sk.Pin.SetPin.{TakesPins, new_pin_enc_of, with_pin, pin_hash_of, process_set_pin-new}

abbrev toy : PinPrimitives
toy = record {
  rng = toy_rng;
  ecdh = toy_ecdh;
  aes256 = toy_cipher;
  aes256_key = λ bytes. length bytes;
  sha256 = toy_hash;
  store = toy_store;
}

abbrev protocol : PinProtocolV1 toy.ecdh.SecKey
protocol = record {
  key_agreement_key = false;
  pin_uv_auth_token = replicate 32 9;
  consecutive_pin_mismatches = 0;
  permissions = 0;
  permissions_rp_id = none;
}

abbrev fresh : State toy
fresh = record { rng = 3; persistent_store = []; pin_protocol = protocol }

-- A PIN hash and two retries.
abbrev stored : List ℕ
stored = replicate 16 6

abbrev guarded : State toy
guarded = record fresh { persistent_store = (2045, stored) ∷ (2044, 2 ∷ []) ∷ [] }

abbrev salts : List (List ℕ)
salts = replicate 16 1 ∷ replicate 16 2 ∷ replicate 16 3 ∷ replicate 16 4 ∷ []

salts-IsBlock : All IsBlock salts
salts-IsBlock = (
  record { size = refl; bytes = omega arith },
  (
    record { size = refl; bytes = omega arith },
    (
      record { size = refl; bytes = omega arith },
      (record { size = refl; bytes = omega arith }, tt),
    ),
  ),
)

process_hmac_secret-salts_example :
    let secret = platform_secret toy true fresh in
    let salt_enc = encrypted toy secret salts in
    (answer : List ℕ) × (process_hmac_secret toy
        (record {
          key_agreement = cose_from_pubkey toy_ecdh true;
          salt_enc = salt_enc;
          salt_auth = pin_auth_of toy secret salt_enc;
        })
        (replicate 32 8)
        fresh
      ≡ ok answer)
    × (decrypted toy secret 4 answer ≡ salt_hmacs toy (replicate 32 8) salts)
process_hmac_secret-salts_example =
    process_hmac_secret-salts toy true (replicate 32 8) salts fresh salts-IsBlock (inr refl)

write_lower-ok : (n : ℕ) (store : toy.store.Store) → (write_lower toy_store n store).1 ≡ ok tt
unfolding write_lower
write_lower-ok zero store = refl
write_lower-ok (suc n) store = ground arith

toy-decr_ok :
    (store : toy.store.Store) (n : ℕ)
    → pin_retries toy_store store ≡ ok n
    → (decr_pin_retries toy_store store).1 ≡ ok tt
unfolding decr_pin_retries
toy-decr_ok store n e = ground (arith, write_lower-ok n store)

toy-IsReliable : IsReliable toy
unfolding reset_pin_retries
toy-IsReliable = record { decr_ok = toy-decr_ok; reset_ok = λ store. refl }

toy-TakesPins : TakesPins toy
unfolding reset_pin_retries set_pin_hash
toy-TakesPins = record { set_ok = λ hash store. refl; reset_ok = λ store. refl }

guarded-pin_hash : pin_hash toy_store guarded.persistent_store ≡ ok (some stored)
unfolding pin_hash get
guarded-pin_hash = refl

guarded-pin_retries : pin_retries toy_store guarded.persistent_store ≡ ok 2
unfolding pin_retries get
guarded-pin_retries = refl

process_get_pin_token-right_example :
    let secret = platform_secret toy true guarded in
    let after = set_permissions toy 3 none (opened toy guarded) in
    (pin_token : List ℕ) × (process_get_pin_token toy
        (cose_from_pubkey toy_ecdh true)
        (encrypted toy secret (stored ∷ []))
        guarded
      ≡ (after, ok (record { key_agreement = none; pin_token = some pin_token; retries = none })))
    × (decrypted toy secret 2 pin_token ≡ replicate 32 9)
    × (pin_retries toy_store after.persistent_store ≡ ok 8)
process_get_pin_token-right_example =
    process_get_pin_token-right toy true stored guarded 2 toy-IsReliable guarded-pin_hash
      (record { size = refl; bytes = omega arith }) guarded-pin_retries refl
      (unfold is_blocked in refl) refl (omega arith)

abbrev pin : List ℕ
pin = 0x31 ∷ 0x32 ∷ 0x33 ∷ 0x34 ∷ []

fresh-pin_hash : pin_hash toy_store fresh.persistent_store ≡ ok none
unfolding pin_hash get
fresh-pin_hash = refl

fresh-min_pin_length : min_pin_length toy_store fresh.persistent_store ≡ ok 4
unfolding min_pin_length get
fresh-min_pin_length = refl

process_set_pin-new_example :
    let secret = platform_secret toy true fresh in
    let new_pin_enc = new_pin_enc_of toy secret pin in
    let store = with_pin toy pin fresh.persistent_store in
    (process_set_pin toy
        (cose_from_pubkey toy_ecdh true)
        (pin_auth_of toy secret new_pin_enc)
        new_pin_enc
        fresh
      ≡ (record fresh { persistent_store = store }, ok tt))
    × (pin_hash toy_store store ≡ ok (some (pin_hash_of toy pin)))
    × (pin_retries toy_store store ≡ ok 8)
process_set_pin-new_example =
    process_set_pin-new toy true pin fresh 4 toy-TakesPins fresh-pin_hash fresh-min_pin_length
      (omega arith) (omega arith) (omega arith)

-- A wrong guess, a reboot, and another wrong guess.
abbrev wrong : Move
wrong = guess (cose_from_pubkey toy_ecdh true) (replicate 16 7)

abbrev moves : List Move
moves = wrong ∷ reboot ∷ wrong ∷ []

moves-AreWrong : AreWrong toy moves guarded
unfolding process_get_pin_token verify_pin_hash_enc check_pin_hash compare_pin_hash handle_mismatch
    count_mismatch is_blocked decrypted_hash shared_secret cose_from_pubkey pubkey_from_cose
    pubkey_in destructure_cbor_map peek_value insert cmp integer extract_integer extract_byte_string
    pin_hash pin_retries get put erase decr_pin_retries write_lower cbc_decrypt xor_block_16
    eq_bytes play new_protocol
moves-AreWrong = (refl, (tt, (refl, tt)))

checked-add-retries_example :
    (left : ℕ) × (pin_retries toy_store (play_all toy moves guarded).persistent_store ≡ ok left)
    × (checked toy moves guarded + left ≡ 2)
checked-add-retries_example =
    checked-add-retries toy moves guarded 2 toy-IsReliable guarded-pin_retries moves-AreWrong
