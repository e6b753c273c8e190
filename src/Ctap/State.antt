-- ===== src/Ctap/State.antt =====
-- The part of `CtapState` in src/ctap/mod.rs that CTAP1 and CTAP2 share: key handles, the signature
-- counter, the authenticator data.
use open_sk.Common.{ℕ, ◌+◌, ◌-◌, ◌*◌, ◌/◌, ◌%◌, ◌^◌, List, [], ◌∷◌, ◌++◌, take, drop, length}
use open_sk.Common.{Option, none, some, ◌==◌, eq_bytes, if◌then◌else◌, not}
use open_sk.Common.Results.{Result, ok, err, ◌>>=◌}
use open_sk.Timer.{Timer}
use open_sk.Permission.Presence
use open_sk.Crypto.Cbc.{Block16, cbc_encrypt, cbc_decrypt}
use open_sk.Crypto.Hmac.{hmac_256, verify_hmac_256}
use open_sk.Ctap.Status.{Ctap2StatusCode}
use open_sk.Ctap.Primitives.{Primitives, MasterKeys}

pub data CredentialProtectionPolicy : Type 0 where
  user_verification_optional : CredentialProtectionPolicy
  user_verification_optional_with_credential_id_list : CredentialProtectionPolicy
  user_verification_required : CredentialProtectionPolicy

pub data PublicKeyCredentialType : Type 0 where
  public_key unknown : PublicKeyCredentialType

pub record PublicKeyCredentialSource (SecKey : Type 0) : Type 0 where
  pub key_type : PublicKeyCredentialType
  pub credential_id : List ℕ
  pub private_key : SecKey
  pub rp_id : List ℕ
  pub user_handle : List ℕ
  pub user_display_name : Option (List ℕ)
  pub cred_protect_policy : Option CredentialProtectionPolicy
  pub creation_order : ℕ
  pub user_name : Option (List ℕ)
  pub user_icon : Option (List ℕ)

abbrev pub credential_id_size : ℕ
credential_id_size = 112

-- The fields of the state that these operations read or change.
pub record CtapState (C D Rng Store : Type 0) : Type 0 where
  pub rng : Rng
  pub persistent_store : Store
  pub u2f_up_state : Presence.U2fUserPresenceState C D

-- The four blocks of the private key and the application, and back.
abbrev pub key_blocks : List ℕ → List ℕ → List Block16
key_blocks sk_bytes application =
    take 16 sk_bytes ∷ drop 16 sk_bytes ∷ take 16 application ∷ drop 16 application ∷ []

abbrev pub concat : List (List ℕ) → List ℕ
concat [] = []
concat (block ∷ blocks) = block ++ concat blocks

abbrev pub block_at : List ℕ → ℕ → Block16
block_at bytes i = take 16 (drop (16 * i) bytes)

module _ (t : Timer) (p : Primitives) where
  open t use {ClockValue, Duration}

  abbrev pub Ctap : Type 0
  Ctap = CtapState ClockValue Duration p.rng.Rng p.store.Store

  abbrev pub Source : Type 0
  Source = PublicKeyCredentialSource p.ecdsa.SecKey

  -- USE_SIGNATURE_COUNTER is true.
  unfoldable pub increment_global_signature_counter :
      Ctap → Ctap × Result {0, 0} Unit Ctap2StatusCode
  increment_global_signature_counter s =
      let (word, rng') = p.rng.first_of_uniform_u32x8 s.rng in
      let (store', result) =
        p.store.incr_global_signature_counter (word % 8 + 1) s.persistent_store in
      (record s { rng = rng'; persistent_store = store' }, result)

  -- The credential ID before its HMAC: the initialization vector and the encrypted blocks.
  unfoldable pub encrypted_id : MasterKeys → List ℕ → p.ecdsa.SecKey → List ℕ → List ℕ
  encrypted_id keys iv private_key application =
      iv
      ++ concat (
          cbc_encrypt p.aes256 (p.aes256_key keys.encryption) iv
            (key_blocks (p.ecdsa.to_bytes private_key) application))

  unfoldable pub encrypt_key_handle :
      Ctap → p.ecdsa.SecKey → List ℕ → Ctap × Result (List ℕ) Ctap2StatusCode
  encrypt_key_handle s private_key application = elim (p.store.master_keys s.persistent_store) [
    | err e ↦ (s, err e)
    | ok keys ↦
        let (random, rng') = p.rng.gen_uniform_u8x32 s.rng in
        let id = encrypted_id keys (take 16 random) private_key application in
        (record s { rng = rng' }, ok (id ++ hmac_256 p.sha256 keys.hmac id))
  ]

  -- The key and the application in the decrypted blocks.
  unfoldable pub decrypted_blocks : MasterKeys → List ℕ → List Block16
  decrypted_blocks keys id =
      cbc_decrypt p.aes256 (p.aes256_key keys.encryption) (take 16 id)
        (block_at id 1 ∷ block_at id 2 ∷ block_at id 3 ∷ block_at id 4 ∷ [])

  unfoldable pub source_from : List ℕ → p.ecdsa.SecKey → Source
  source_from id sk = record {
    key_type = public_key;
    credential_id = id;
    private_key = sk;
    rp_id = [];
    user_handle = [];
    user_display_name = none;
    cred_protect_policy = none;
    creation_order = 0;
    user_name = none;
    user_icon = none;
  }

  -- The blocks hold the key and then the application, two blocks each.
  unfoldable pub source_in_blocks : List ℕ → List ℕ → List Block16 → Option Source
  source_in_blocks id rp_id_hash blocks =
      let found : Option Source = elim (p.ecdsa.from_bytes (concat (take 2 blocks))) [
        | none ↦ none
        | some sk ↦ some (source_from id sk)
      ] in
      if not (eq_bytes rp_id_hash (concat (drop 2 blocks))) then none else found

  -- The HMAC check, and what follows it.
  unfoldable pub verified_source : MasterKeys → List ℕ → List ℕ → Option Source
  verified_source keys credential_id rp_id_hash =
      let payload_size = length credential_id - 32 in
      if not (
        verify_hmac_256 p.sha256 keys.hmac (take payload_size credential_id)
          (take 32 (drop payload_size credential_id)))
      then none
      else source_in_blocks credential_id rp_id_hash (decrypted_blocks keys credential_id)

  unfoldable pub decrypt_credential_source :
      Ctap → List ℕ → List ℕ → Result (Option Source) Ctap2StatusCode
  decrypt_credential_source s credential_id rp_id_hash =
      let with_keys = (do
        keys ← p.store.master_keys s.persistent_store
        ok (verified_source keys credential_id rp_id_hash)) in
      if not (length credential_id == credential_id_size) then ok none else with_keys

  -- `BigEndian::write_u32` of the counter, which is a u32.
  unfoldable pub generate_auth_data : Ctap → List ℕ → ℕ → Result (List ℕ) Ctap2StatusCode
  generate_auth_data s rp_id_hash flag_byte = do
    counter ← p.store.global_signature_counter s.persistent_store
    ok (
        rp_id_hash
        ++ flag_byte
          ∷ counter / 2 ^ 24 % 256
          ∷ counter / 2 ^ 16 % 256
          ∷ counter / 2 ^ 8 % 256
          ∷ counter % 256
          ∷ [])
