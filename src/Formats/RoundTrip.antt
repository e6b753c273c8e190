-- ===== src/Formats/RoundTrip.antt =====
-- What src/ctap/data_formats.rs writes in CBOR, it reads back.
use open_sk.Common.{ℕ, ◌≡◌, refl, sym, ap, arith, List, Option, none, some}
use open_sk.Common.Results.{ok}
use open_sk.Cbor.Values.{cmp, integer}
use open_sk.Cbor.Macros.{cbor_text}
use open_sk.Cbor.Destructure.{destructure-cbor_map_options, KeysAreAscending, keys_of}
use open_sk.Ctap.Primitives.{Ecdsa, Ecdh}
use open_sk.Ctap.State.{CredentialProtectionPolicy, user_verification_optional}
use open_sk.Ctap.State.{user_verification_optional_with_credential_id_list}
use open_sk.Ctap.State.{user_verification_required, public_key}
use open_sk.Formats.Extract.{extract_integer, extract_unsigned, extract_byte_string}
use open_sk.Formats.Extract.{extract_text_string, extract_map, optional}
use open_sk.Formats.Entities.{mapped, policy_value, policy_from, policy_of, policy_code}
use open_sk.Formats.Cose.{cose_from_pubkey, pubkey_from_cose, pubkey_in, cose_fields}
use open_sk.Formats.Source.{Source, source_value, source_from_value, source_in, source_fields}
use open_sk.Formats.Source.{private_key_from}

policy_from-policy_value :
    (policy : CredentialProtectionPolicy) → policy_from (policy_value policy) ≡ ok policy
unfolding policy_from policy_value policy_of policy_code extract_integer integer
policy_from-policy_value user_verification_optional = refl
policy_from-policy_value user_verification_optional_with_credential_id_list = refl
policy_from-policy_value user_verification_required = refl

optional_text : (o : Option (List ℕ)) → optional extract_text_string (mapped cbor_text o) ≡ ok o
unfolding extract_text_string
optional_text none = refl
optional_text (some t) = refl

optional_policy :
    (o : Option CredentialProtectionPolicy) → optional policy_from (mapped policy_value o) ≡ ok o
optional_policy none = refl
optional_policy (some policy) = rw (policy_from-policy_value policy) refl

module _ {Rng : Type 0} (ecdsa : Ecdsa Rng) where
  source_keys_ascend :
      (credential : Source ecdsa) → KeysAreAscending (keys_of (source_fields ecdsa credential))
  unfolding cmp
  source_keys_ascend credential = ground arith

  private_key_from-to_bytes :
      (sk : ecdsa.SecKey) → private_key_from ecdsa (ecdsa.to_bytes sk) ≡ ok sk
  private_key_from-to_bytes sk = rw (ecdsa.to_bytes_size sk, ecdsa.from_bytes-to_bytes sk) refl

  -- A credential of the type public-key is read back from its CBOR form as it was.
  pub source_from_value-source_value :
      (credential : Source ecdsa)
      → credential.key_type ≡ public_key
      → source_from_value ecdsa (source_value ecdsa credential) ≡ ok credential
  unfolding source_from_value source_value source_in extract_map extract_byte_string
      extract_unsigned extract_text_string
  source_from_value-source_value credential e =
      rw
        (
          destructure-cbor_map_options (source_fields ecdsa credential)
              (source_keys_ascend credential),
          private_key_from-to_bytes credential.private_key,
          optional_text credential.user_display_name,
          optional_policy credential.cred_protect_policy,
          optional_text credential.user_name,
          optional_text credential.user_icon,
        )
        (ap (λ k. ok (record credential { key_type = k })) (sym e))

module _ {Rng : Type 0} (ecdh : Ecdh Rng) where
  -- A public key is read back from the COSE key that it is written to.
  pub pubkey_from_cose-cose_from_pubkey :
      (pk : ecdh.PubKey) → pubkey_from_cose ecdh (cose_from_pubkey ecdh pk) ≡ ok pk
  unfolding pubkey_from_cose cose_from_pubkey pubkey_in extract_integer extract_byte_string integer
      cmp
  pubkey_from_cose-cose_from_pubkey pk =
      rw
        (
          destructure-cbor_map_options
              (cose_fields ecdh (ecdh.to_coordinates pk).0 (ecdh.to_coordinates pk).1)
              (ground arith),
          ecdh.x_size pk,
          ecdh.y_size pk,
          ecdh.from-to_coordinates pk,
        )
        refl
