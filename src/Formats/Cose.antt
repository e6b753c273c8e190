-- ===== src/Formats/Cose.antt =====
-- `CoseKey` of src/ctap/data_formats.rs, and `GetAssertionHmacSecretInput`, which holds one.
use open_sk.Common.{ℕ, Bool, false, ◌||◌, List, [], ◌∷◌, length, Option, some, not}
use open_sk.Common.{◌==◌, if◌then◌else◌}
use open_sk.Common.Int.{ℤ, pos, negsuc}
use open_sk.Common.Results.{ok, err, ◌>>=◌, ok_or}
use open_sk.Cbor.Values.{KeyType, unsigned, integer, Value, Entries, no_entries}
use open_sk.Cbor.Macros.{Field, insert_fields, destructure_cbor_map, cbor_int, cbor_bytes}
use open_sk.Ctap.Status.{ctap1_err_invalid_parameter, ctap2_err_unsupported_algorithm}
use open_sk.Ctap.Primitives.{Ecdh}
use open_sk.Formats.Extract.{Parsed, extract_integer, extract_byte_string, extract_map}
use open_sk.Formats.Extract.{needed, from_map, field}

-- `CoseKey(BTreeMap)`
abbrev pub CoseKey : Type 0
CoseKey = Entries

abbrev pub coordinate_size : ℕ
coordinate_size = 32

abbrev pub ecdh_algorithm : ℤ
ecdh_algorithm = negsuc 24

abbrev pub es256_algorithm : ℤ
es256_algorithm = negsuc 6

abbrev pub ec2_key_type : ℤ
ec2_key_type = pos 2

abbrev pub p_256_curve : ℤ
p_256_curve = pos 1

-- `==` of i64.
abbrev pub eq_int : ℤ → ℤ → Bool
eq_int (pos a) (pos b) = a == b
eq_int (negsuc a) (negsuc b) = a == b
eq_int _ _ = false

abbrev pub cose_keys : List KeyType
cose_keys =
    integer (pos 1)
    ∷ integer (pos 3)
    ∷ integer (negsuc 0)
    ∷ integer (negsuc 1)
    ∷ integer (negsuc 2)
    ∷ []

-- A field that has to hold one of two integers.
abbrev pub one_of : ℤ → ℤ → Option Value → Parsed (Unit {0})
one_of a b o = do
  z ← needed extract_integer o
  if not (eq_int z a || eq_int z b) then err ctap2_err_unsupported_algorithm else ok tt

abbrev pub coordinate : Option Value → Parsed (List ℕ)
coordinate o = do
  bytes ← needed extract_byte_string o
  if not (length bytes == coordinate_size) then err ctap1_err_invalid_parameter else ok bytes

module _ {Rng : Type 0} (ecdh : Ecdh Rng) where
  -- The entries under which `From<PubKey>` writes the coordinates.
  abbrev pub cose_fields : List ℕ → List ℕ → List Field
  cose_fields x_bytes y_bytes =
      (integer (pos 1), some (cbor_int ec2_key_type))
      ∷ (integer (pos 3), some (cbor_int ecdh_algorithm))
      ∷ (integer (negsuc 0), some (cbor_int p_256_curve))
      ∷ (integer (negsuc 1), some (cbor_bytes x_bytes))
      ∷ (integer (negsuc 2), some (cbor_bytes y_bytes))
      ∷ []

  unfoldable pub cose_from_pubkey : ecdh.PubKey → CoseKey
  cose_from_pubkey pk =
      let (x_bytes, y_bytes) = ecdh.to_coordinates pk in
      insert_fields (cose_fields x_bytes y_bytes) no_entries

  unfoldable pub pubkey_in : List (Option Value) → Parsed ecdh.PubKey
  pubkey_in fields = do
    _ ← one_of ec2_key_type ec2_key_type (field 0 fields)
    _ ← one_of ecdh_algorithm es256_algorithm (field 1 fields)
    _ ← one_of p_256_curve p_256_curve (field 2 fields)
    x_bytes ← coordinate (field 3 fields)
    y_bytes ← coordinate (field 4 fields)
    ok_or (ecdh.from_coordinates x_bytes y_bytes) ctap1_err_invalid_parameter

  unfoldable pub pubkey_from_cose : CoseKey → Parsed ecdh.PubKey
  pubkey_from_cose cose_key = pubkey_in (destructure_cbor_map cose_keys cose_key)

pub record GetAssertionHmacSecretInput : Type 0 where
  pub key_agreement : CoseKey
  pub salt_enc : List ℕ
  pub salt_auth : List ℕ

unfoldable pub hmac_secret_in : List (Option Value) → Parsed GetAssertionHmacSecretInput
hmac_secret_in fields = do
  cose_key ← needed extract_map (field 0 fields)
  salt_enc ← needed extract_byte_string (field 1 fields)
  salt_auth ← needed extract_byte_string (field 2 fields)
  ok (record { key_agreement = cose_key; salt_enc = salt_enc; salt_auth = salt_auth })

abbrev pub hmac_secret_from : Value → Parsed GetAssertionHmacSecretInput
hmac_secret_from = from_map (unsigned 1 ∷ unsigned 2 ∷ unsigned 3 ∷ []) hmac_secret_in
