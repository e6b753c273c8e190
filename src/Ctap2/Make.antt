-- ===== src/Ctap2/Make.antt =====
-- `process_make_credential` of src/ctap/mod.rs.
use open_sk.Common.{ℕ, ◌%◌, ◌^◌, Bool, true, false, ◌&&◌, ◌||◌, List, [], ◌∷◌, ◌++◌, length, take}
use open_sk.Common.{drop}
use open_sk.Common.{Option, none, some, ltb, bit_or, if◌then◌else◌, not}
use open_sk.Common.Int.{pos, negsuc}
use open_sk.Common.Results.{Result, ok, err, ok_or}
use open_sk.Common.Actions.{◌>>=◌, done, fail_if, reading}
use open_sk.Timer.{Timer}
use open_sk.Hid.Packet.{ChannelId}
use open_sk.Cbor.Values.{text_string, integer, bool_value}
use open_sk.Cbor.Macros.{cbor_map_options, cbor_int, cbor_bytes}
use open_sk.Cbor.Writer.{write}
use open_sk.Storage.Read.{aaguid}
use open_sk.Storage.Credentials.{is_some, store_credential, new_creation_order}
use open_sk.Ctap.Status.{Ctap2StatusCode, ctap2_err_unsupported_algorithm}
use open_sk.Ctap.Status.{ctap2_err_vendor_response_too_long}
use open_sk.Ctap.Status.{ctap2_err_vendor_response_cannot_write_cbor}
use open_sk.Ctap.State.{CredentialProtectionPolicy, user_verification_optional, public_key}
use open_sk.Ctap.State.{encrypt_key_handle, generate_auth_data, PublicKeyCredentialType}
use open_sk.Formats.Words.{word_hmac_secret, word_cred_protect}
use open_sk.Formats.Entities.{PublicKeyCredentialParameter, mapped}
use open_sk.Formats.Entities.{PublicKeyCredentialDescriptor, policy_code, policy_value}
use open_sk.Formats.Entities.{SignatureAlgorithm, es256}
use open_sk.Formats.Options.{MakeCredentialExtensions}
use open_sk.Formats.Cose.{ec2_key_type, es256_algorithm, p_256_curve}
use open_sk.Formats.Commands.{AuthenticatorMakeCredentialParameters}
use open_sk.Formats.Responses.{ResponseData}
use open_sk.Formats.Responses
use open_sk.Ctap2.Text.{truncate_to_char_boundary}
use open_sk.Ctap2.Device.{Device, Call, Source, from_store, on_store, on_ctap1}
use open_sk.Ctap2.Device.{user_presence, ctap1_state, primitives}
use open_sk.Ctap2.Authorize.{pin_uv_auth_precheck, check_excluded, make_flags, ed_flag}

-- "packed"
abbrev pub word_packed : List ℕ
word_packed = 0x70 ∷ 0x61 ∷ 0x63 ∷ 0x6b ∷ 0x65 ∷ 0x64 ∷ []

abbrev pub default_cred_protect : Option CredentialProtectionPolicy
default_cred_protect = none

abbrev is_public_key : PublicKeyCredentialType → Bool
is_public_key public_key = true
is_public_key _ = false

abbrev is_es256 : SignatureAlgorithm → Bool
is_es256 es256 = true
is_es256 _ = false

-- `contains(&ES256_CRED_PARAM)`
unfoldable pub has_es256 : List PublicKeyCredentialParameter → Bool
has_es256 [] = false
has_es256 (param ∷ params) =
    (is_public_key param.cred_type && is_es256 param.alg) || has_es256 params

abbrev policy_or_optional : Option CredentialProtectionPolicy → ℕ
policy_or_optional none = policy_code user_verification_optional
policy_or_optional (some policy) = policy_code policy

-- Whether the HMAC extension is used, and the protection policy.
unfoldable pub requested :
    Option MakeCredentialExtensions → Bool × Option CredentialProtectionPolicy
requested none = (false, default_cred_protect)
requested (some extensions) = (
  extensions.hmac_secret,
  if ltb (policy_or_optional extensions.cred_protect) (policy_or_optional default_cred_protect)
      then default_cred_protect
      else extensions.cred_protect,
)

-- The output of the extensions, if there is any.
unfoldable pub extensions_output :
    Bool → Option CredentialProtectionPolicy → List ℕ → Result (List ℕ) Ctap2StatusCode
extensions_output use_hmac_extension cred_protect_policy auth_data =
    let output = cbor_map_options (
      (text_string word_hmac_secret, if use_hmac_extension then some (bool_value true) else none)
      ∷ (text_string word_cred_protect, mapped policy_value cred_protect_policy)
      ∷ []) in
    let (bytes, written) = write output auth_data in
    if not (use_hmac_extension || is_some cred_protect_policy)
    then ok auth_data
    else if written
    then ok bytes
    else err ctap2_err_vendor_response_cannot_write_cbor

-- `ecdsa::PubKey::to_cose_key` of libraries/crypto, of an uncompressed key: a byte and two
-- coordinates.
unfoldable pub to_cose_key : List ℕ → Option (List ℕ)
to_cose_key pk =
    let value = cbor_map_options (
      (integer (pos 1), some (cbor_int ec2_key_type))
      ∷ (integer (pos 3), some (cbor_int es256_algorithm))
      ∷ (integer (negsuc 0), some (cbor_int p_256_curve))
      ∷ (integer (negsuc 1), some (cbor_bytes (take 32 (drop 1 pk))))
      ∷ (integer (negsuc 2), some (cbor_bytes (take 32 (drop 33 pk))))
      ∷ []) in
    let (bytes, written) = write value [] in if written then some bytes else none

-- A name that a user chose, cropped for storage.
abbrev cropped : Option (List ℕ) → Option (List ℕ)
cropped = mapped (λ s. truncate_to_char_boundary s 64)

module _ (t : Timer) (d : Device) where
  abbrev pub Parameters : Type 0
  Parameters = AuthenticatorMakeCredentialParameters

  abbrev pub new_key : Call t d d.ecdsa.SecKey
  new_key s = let (sk, rng') = d.ecdsa.gensk s.rng in (record s { rng = rng' }, ok sk)

  abbrev pub random_id : Call t d (List ℕ)
  random_id s =
      let (id, rng') = d.pin.rng.gen_uniform_u8x32 s.rng in (record s { rng = rng' }, ok id)

  unfoldable pub new_source :
      Parameters → List ℕ → d.ecdsa.SecKey → Option CredentialProtectionPolicy → ℕ → Source t d
  new_source params id sk cred_protect_policy creation_order = record {
    key_type = public_key;
    credential_id = id;
    private_key = sk;
    rp_id = params.rp.rp_id;
    user_handle = params.user.user_id;
    user_display_name = cropped params.user.user_display_name;
    cred_protect_policy = cred_protect_policy;
    creation_order = creation_order;
    user_name = cropped params.user.user_name;
    user_icon = cropped params.user.user_icon;
  }

  unfoldable pub store_resident :
      Parameters → d.ecdsa.SecKey → Option CredentialProtectionPolicy → Call t d (List ℕ)
  store_resident params sk cred_protect_policy = do
    id ← random_id
    creation_order ← from_store t d (new_creation_order d.pin.store d.ecdsa d.usize_bits)
    _ ← on_store t d (
        store_credential d.pin.store d.ecdsa d.usize_bits
          (new_source params id sk cred_protect_policy creation_order))
    done id

  -- The ID of the new credential: a random one in the store, or its encrypted key.
  unfoldable pub make_credential_id :
      Parameters → List ℕ → d.ecdsa.SecKey → Option CredentialProtectionPolicy → Call t d (List ℕ)
  make_credential_id params rp_id_hash sk cred_protect_policy =
      if params.options.rk
      then store_resident params sk cred_protect_policy
      else on_ctap1 t d (λ c. encrypt_key_handle t (primitives d) c sk rp_id_hash)

  -- The authenticator data of the new credential.
  unfoldable pub make_auth_data :
      List ℕ → ℕ → List ℕ → List ℕ → Bool × Option CredentialProtectionPolicy → Call t d (List ℕ)
  make_auth_data rp_id_hash flags credential_id pk (use_hmac_extension, cred_protect_policy) = do
    auth_data ←
        reading (λ s. generate_auth_data t (primitives d) (ctap1_state t d s) rp_id_hash flags)
    id ← from_store t d (aaguid d.pin.store)
    _ ← fail_if (ltb 0xff (length credential_id)) ctap2_err_vendor_response_too_long
    cose_key ← reading (λ _. ok_or (to_cose_key pk) ctap2_err_vendor_response_cannot_write_cbor)
    reading (λ _.
        extensions_output use_hmac_extension cred_protect_policy
          (auth_data ++ (id ++ (0 ∷ length credential_id % 2 ^ 8 ∷ (credential_id ++ cose_key)))))

  -- USE_BATCH_ATTESTATION is false: the new key signs.
  unfoldable pub attested : List ℕ → List ℕ → d.ecdsa.SecKey → ResponseData
  attested client_data_hash auth_data sk = Responses.make_credential (record {
    fmt = word_packed;
    auth_data = auth_data;
    att_stmt = record {
      alg = negsuc 6;
      sig = d.ecdsa.sign_rfc6979 sk (auth_data ++ client_data_hash);
      x5c = none;
      ecdaa_key_id = none;
    };
  })

  abbrev pub excluded_in :
      Option (List PublicKeyCredentialDescriptor) → List PublicKeyCredentialDescriptor
  excluded_in none = []
  excluded_in (some exclude_list) = exclude_list

  -- What follows the checks, with the flags that they gave.
  unfoldable pub create_credential :
      Parameters → ℕ → Bool × Option CredentialProtectionPolicy → Call t d ResponseData
  create_credential params flags extensions = do
    sk ← new_key
    credential_id ← make_credential_id params (d.pin.sha256.hash params.rp.rp_id) sk extensions.1
    auth_data ←
        make_auth_data (d.pin.sha256.hash params.rp.rp_id) flags credential_id (d.ecdsa.genpk sk)
          extensions
    done (attested params.client_data_hash auth_data sk)

  abbrev pub ed_flag_of : Bool × Option CredentialProtectionPolicy → ℕ
  ed_flag_of (use_hmac_extension, cred_protect_policy) =
      if use_hmac_extension || is_some cred_protect_policy then ed_flag else 0

  -- The checks before the user is asked, and the flags that they give.
  unfoldable pub checked_flags : Parameters → ChannelId → Call t d ℕ
  checked_flags params cid = do
    _ ← pin_uv_auth_precheck t d params.pin_uv_auth_param params.pin_uv_auth_protocol cid
    _ ← fail_if (not (has_es256 params.pub_key_cred_params)) ctap2_err_unsupported_algorithm
    _ ←
        check_excluded t d params.rp.rp_id (d.pin.sha256.hash params.rp.rp_id)
          (not (is_some params.pin_uv_auth_param)) cid (excluded_in params.exclude_list)
    make_flags t d params.rp.rp_id params.client_data_hash params.options.uv
        params.pin_uv_auth_param

  unfoldable pub process_make_credential : Parameters → ChannelId → Call t d ResponseData
  process_make_credential params cid = do
    flags ← checked_flags params cid
    _ ← user_presence t d cid
    create_credential params (bit_or flags (ed_flag_of (requested params.extensions)))
        (requested params.extensions)
