-- ===== src/Ctap/Assertion.antt =====
-- Authentication in src/ctap/ctap1.rs with a key handle that the authenticator made.
use open_sk.Common.{ℕ, ◌≡◌, refl, Bool, true, false, List}
use open_sk.Common.{none, some, if◌then◌else◌, eq_bytes}
use open_sk.Common.Results.{ok, err}
use open_sk.Timer.{Timer}
use open_sk.Apdu.Types.{sw_cond_use_not_satisfied, sw_wrong_data}
use open_sk.Ctap.Primitives.{Primitives, MasterKeys}
use open_sk.Ctap.State.{Source, Ctap}
use open_sk.Ctap.State.{source_from, decrypt_credential_source}
use open_sk.Ctap.KeyHandle.{IsHash, key_handle, decrypt-encrypt_key_handle}
use open_sk.Ctap.U2f.{Ctap1Flags}
use open_sk.Ctap.Ctap1.{process_authenticate, sign_assertion, is_check_only}

module _ (t : Timer) (p : Primitives) where
  process_authenticate-some :
      (later : Ctap t p) (source : Source t p) (handle other challenge : List ℕ)
      (flags : Ctap1Flags) (known : Bool)
      → decrypt_credential_source t p later handle other ≡ ok (if known then some source else none)
      → process_authenticate t p challenge other handle flags later ≡ (
          if known
          then (if is_check_only flags
              then (later, err sw_cond_use_not_satisfied)
              else sign_assertion t p source.private_key challenge other later)
          else (later, err sw_wrong_data))
  unfolding process_authenticate
  process_authenticate-some later source handle other challenge flags true e =
      rw (e, process_authenticate) refl
  process_authenticate-some later source handle other challenge flags false e =
      rw (e, process_authenticate) refl

  -- A key handle that was made for an application of 32 bytes signs for this application with its
  -- private key, or is told to be known where the request only checks; to any other application it
  -- is unknown. This is so for each flag, as long as the master keys are the same.
  pub process_authenticate-key_handle :
      (s later : Ctap t p) (keys : MasterKeys) (sk : p.ecdsa.SecKey)
      (application other challenge : List ℕ) (flags : Ctap1Flags)
      → IsHash application
      → p.store.master_keys s.persistent_store ≡ ok keys
      → p.store.master_keys later.persistent_store ≡ ok keys
      → process_authenticate t p challenge other (key_handle t p s keys sk application) flags later
        ≡ (if eq_bytes other application
            then (if is_check_only flags
                then (later, err sw_cond_use_not_satisfied)
                else sign_assertion t p sk challenge other later)
            else (later, err sw_wrong_data))
  unfolding source_from
  process_authenticate-key_handle s later keys sk application other challenge flags ha e f =
      let handle = key_handle t p s keys sk application in
      let found = (decrypt-encrypt_key_handle t p s later keys sk application other ha e f).1 in
      process_authenticate-some later (source_from t p handle sk) handle other challenge flags
        (eq_bytes other application) found
