-- ===== src/Ctap2/Credentials.antt =====
-- The credentials of an assertion and its response, by src/ctap/mod.rs.
use open_sk.Common.{ℕ, Bool, List, [], ◌∷◌, ◌++◌}
use open_sk.Common.{Option, none, some, leb, if◌then◌else◌, not}
use open_sk.Common.Results.{Result, ok, err, ◌>>=◌}
use open_sk.Timer.{Timer}
use open_sk.Crypto.Hmac.{hmac_256}
use open_sk.Cbor.Values.{text_string}
use open_sk.Cbor.Macros.{cbor_map, cbor_bytes}
use open_sk.Cbor.Writer.{write}
use open_sk.Storage.Read.{cred_random_secret}
use open_sk.Storage.Credentials.{filter_credential}
use open_sk.Ctap.Status.{Ctap2StatusCode}
use open_sk.Ctap.Status.{ctap2_err_vendor_response_cannot_write_cbor}
use open_sk.Ctap.State.{public_key}
use open_sk.Formats.Words.{word_hmac_secret}
use open_sk.Formats.Entities.{PublicKeyCredentialDescriptor, PublicKeyCredentialUserEntity}
use open_sk.Formats.Options.{GetAssertionExtensions}
use open_sk.Formats.Cose.{GetAssertionHmacSecretInput}
use open_sk.Formats.Responses.{ResponseData}
use open_sk.Formats.Responses
use open_sk.Pin.Token.{process_hmac_secret}
use open_sk.Ctap2.Device.{Device, State, Source, AssertionInput}
use open_sk.Ctap2.Device.{pin_state}
use open_sk.Ctap2.Authorize.{is_empty}
use open_sk.Ctap2.Authorize.{get_any_credential_from_allow_list}

-- `Vec::pop`: the last element, and those before it.
unfoldable pub pop : {A : Type 0} → List A → Option (List A × A)
pop [] = none
pop (a ∷ rest) = elim (pop rest) [
  | none ↦ some ([], a)
  | some (before, last) ↦ some (a ∷ before, last)
]

abbrev pub to_list : {A : Type 0} → Option A → List A
to_list none = []
to_list (some a) = a ∷ []

-- `extensions.map(|e| e.hmac_secret).flatten()`
abbrev pub hmac_secret_of : Option GetAssertionExtensions → Option GetAssertionHmacSecretInput
hmac_secret_of none = none
hmac_secret_of (some extensions) = extensions.hmac_secret

module _ (t : Timer) (d : Device) where
  -- `sort_unstable_by_key` of the creation order. Credentials of the same order keep their order,
  -- which the library function leaves open.
  unfoldable pub insert_by_order : Source t d → List (Source t d) → List (Source t d)
  insert_by_order credential [] = credential ∷ []
  insert_by_order credential (c ∷ credentials) =
      let later = insert_by_order credential credentials in
      if leb credential.creation_order c.creation_order
      then credential ∷ c ∷ credentials
      else c ∷ later

  unfoldable pub sort_by_order : List (Source t d) → List (Source t d)
  sort_by_order [] = []
  sort_by_order (credential ∷ credentials) = insert_by_order credential (sort_by_order credentials)

  unfoldable pub generate_cred_random :
      d.ecdsa.SecKey → Bool → State t d → Result (List ℕ) Ctap2StatusCode
  generate_cred_random private_key has_uv s = do
    key ← cred_random_secret d.pin.store has_uv s.persistent_store
    ok (hmac_256 d.pin.sha256 key (d.ecdsa.to_bytes private_key))

  -- The output of the extension behind the authenticator data.
  unfoldable pub append_output : List ℕ → List ℕ → Result (List ℕ) Ctap2StatusCode
  append_output encrypted_output auth_data =
      let output = cbor_map ((text_string word_hmac_secret, cbor_bytes encrypted_output) ∷ []) in
      let (bytes, written) = write output auth_data in
      if written then ok bytes else err ctap2_err_vendor_response_cannot_write_cbor

  unfoldable pub extended_auth_data :
      d.ecdsa.SecKey
      → AssertionInput
      → Option GetAssertionHmacSecretInput
      → State t d
      → Result (List ℕ) Ctap2StatusCode
  extended_auth_data private_key input none s = ok input.auth_data
  extended_auth_data private_key input (some hmac_secret_input) s = do
    cred_random ← generate_cred_random private_key input.has_uv s
    encrypted_output ← process_hmac_secret d.pin hmac_secret_input cred_random (pin_state t d s)
    append_output encrypted_output input.auth_data

  -- The user of a credential that has a handle.
  abbrev pub user_of : Source t d → Option PublicKeyCredentialUserEntity
  user_of credential =
      if is_empty credential.user_handle
      then none
      else some (record {
        user_id = credential.user_handle;
        user_name = credential.user_name;
        user_display_name = credential.user_display_name;
        user_icon = credential.user_icon;
      })

  unfoldable pub assertion_response :
      Source t d → AssertionInput → Option ℕ → State t d → Result ResponseData Ctap2StatusCode
  assertion_response credential input number_of_credentials s = do
    auth_data ← extended_auth_data credential.private_key input input.hmac_secret_input s
    ok (
        Responses.get_assertion (record {
          credential = some (record {
            key_type = public_key;
            key_id = credential.credential_id;
            transports = none;
          });
          auth_data = auth_data;
          signature =
              d.ecdsa.sign_rfc6979 credential.private_key (auth_data ++ input.client_data_hash);
          user = user_of credential;
          number_of_credentials = number_of_credentials;
        }))

  -- What identifies the user is removed without user verification.
  unfoldable pub without_user : List (Source t d) → List (Source t d)
  without_user [] = []
  without_user (credential ∷ credentials) =
      record credential { user_name = none; user_display_name = none; user_icon = none }
      ∷ without_user credentials

  abbrev pub found_credentials :
      List ℕ
      → List ℕ
      → Bool
      → Option (List PublicKeyCredentialDescriptor)
      → State t d
      → Result (List (Source t d)) Ctap2StatusCode
  found_credentials rp_id rp_id_hash has_uv none s =
      filter_credential d.pin.store d.ecdsa d.usize_bits rp_id (not has_uv) s.persistent_store
  found_credentials rp_id rp_id_hash has_uv (some allow_list) s = do
    credential ← get_any_credential_from_allow_list t d rp_id rp_id_hash has_uv allow_list s
    ok (to_list credential)

  -- The credentials that apply, from the oldest to the most recent.
  unfoldable pub applicable_credentials :
      List ℕ
      → List ℕ
      → Bool
      → Option (List PublicKeyCredentialDescriptor)
      → State t d
      → Result (List (Source t d)) Ctap2StatusCode
  applicable_credentials rp_id rp_id_hash has_uv allow_list s = do
    credentials ← found_credentials rp_id rp_id_hash has_uv allow_list s
    ok (sort_by_order (if not has_uv then without_user credentials else credentials))
