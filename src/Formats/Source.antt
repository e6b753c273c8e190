-- ===== src/Formats/Source.antt =====
-- The CBOR form of `PublicKeyCredentialSource` in the storage, by src/ctap/data_formats.rs.
use open_sk.Common.{ℕ, Bool, true, false, List, [], ◌∷◌, length, Option, none, some, not}
use open_sk.Common.{◌==◌, if◌then◌else◌}
use open_sk.Common.Results.{ok, err, ◌>>=◌, ok_or}
use open_sk.Cbor.Values.{KeyType, unsigned, Value}
use open_sk.Cbor.Macros.{Field, cbor_map_options, cbor_text, cbor_bytes, cbor_unsigned}
use open_sk.Ctap.Status.{ctap2_err_invalid_cbor}
use open_sk.Ctap.Primitives.{Ecdsa}
use open_sk.Ctap.State.{PublicKeyCredentialSource, public_key}
use open_sk.Ctap.State.{user_verification_optional}
use open_sk.Formats.Extract.{Parsed, extract_unsigned, extract_byte_string, extract_text_string}
use open_sk.Formats.Extract.{needed, optional, defaulting, from_map, field}
use open_sk.Formats.Entities.{mapped, policy_value, policy_from}

-- The tags of `PublicKeyCredentialSourceField`; 5 is reserved.
abbrev pub source_keys : List KeyType
source_keys =
    unsigned 0
    ∷ unsigned 1
    ∷ unsigned 2
    ∷ unsigned 3
    ∷ unsigned 4
    ∷ unsigned 6
    ∷ unsigned 7
    ∷ unsigned 8
    ∷ unsigned 9
    ∷ []

-- `ecdsa::SecKey::from_bytes` on a byte string of any length.
abbrev pub private_key_from : {Rng : Type 0} (ecdsa : Ecdsa Rng) → List ℕ → Parsed ecdsa.SecKey
private_key_from ecdsa bytes =
    if not (length bytes == 32)
    then err ctap2_err_invalid_cbor
    else ok_or (ecdsa.from_bytes bytes) ctap2_err_invalid_cbor

module _ {Rng : Type 0} (ecdsa : Ecdsa Rng) where
  abbrev pub Source : Type 0
  Source = PublicKeyCredentialSource ecdsa.SecKey

  abbrev pub source_fields : Source → List Field
  source_fields credential =
      (unsigned 0, some (cbor_bytes credential.credential_id))
      ∷ (unsigned 1, some (cbor_bytes (ecdsa.to_bytes credential.private_key)))
      ∷ (unsigned 2, some (cbor_text credential.rp_id))
      ∷ (unsigned 3, some (cbor_bytes credential.user_handle))
      ∷ (unsigned 4, mapped cbor_text credential.user_display_name)
      ∷ (unsigned 6, mapped policy_value credential.cred_protect_policy)
      ∷ (unsigned 7, some (cbor_unsigned credential.creation_order))
      ∷ (unsigned 8, mapped cbor_text credential.user_name)
      ∷ (unsigned 9, mapped cbor_text credential.user_icon)
      ∷ []

  -- `From<PublicKeyCredentialSource> for cbor::Value`
  unfoldable pub source_value : Source → Value
  source_value credential = cbor_map_options (source_fields credential)

  unfoldable pub source_in : List (Option Value) → Parsed Source
  source_in fields = do
    credential_id ← needed extract_byte_string (field 0 fields)
    key_bytes ← needed extract_byte_string (field 1 fields)
    private_key ← private_key_from ecdsa key_bytes
    rp_id ← needed extract_text_string (field 2 fields)
    user_handle ← needed extract_byte_string (field 3 fields)
    user_display_name ← optional extract_text_string (field 4 fields)
    cred_protect_policy ← optional policy_from (field 5 fields)
    creation_order ← defaulting 0 extract_unsigned (field 6 fields)
    user_name ← optional extract_text_string (field 7 fields)
    user_icon ← optional extract_text_string (field 8 fields)
    ok (record {
      key_type = public_key;
      credential_id = credential_id;
      private_key = private_key;
      rp_id = rp_id;
      user_handle = user_handle;
      user_display_name = user_display_name;
      cred_protect_policy = cred_protect_policy;
      creation_order = creation_order;
      user_name = user_name;
      user_icon = user_icon;
    })

  unfoldable pub source_from_value : Value → Parsed Source
  source_from_value = from_map source_keys source_in

  unfoldable pub is_discoverable : Source → Bool
  is_discoverable credential = elim credential.cred_protect_policy [
    | none ↦ true
    | some user_verification_optional ↦ true
    | some _ ↦ false
  ]
