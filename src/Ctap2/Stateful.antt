-- ===== src/Ctap2/Stateful.antt =====
-- The stateful command of src/ctap/mod.rs, which never becomes the reset again.
use open_sk.Common.{ℕ, Bool, false, List, [], ◌∷◌, Option, none, some, ◌≡◌, refl, arith}
use open_sk.Common.Results.{Result}
use open_sk.Common.Actions.{
  Action, Keeps, Keeps-bind, keeps_rules, reading-Keeps, fail-Keeps, if-Keeps,
}
use open_sk.Timer.{Timer}
use open_sk.Hid.Packet.{ChannelId}
use open_sk.Storage.Write.{Storing}
use open_sk.Storage.Credentials.{is_some}
use open_sk.Ctap.Status.{Ctap2StatusCode}
use open_sk.Ctap.State.{Ctap, CredentialProtectionPolicy}
use open_sk.Formats.Entities.{PublicKeyCredentialDescriptor}
use open_sk.Pin.Token.{PinPermission}
use open_sk.Pin.Verify.{PinState}
use open_sk.Ctap2.Device.{Device, State, Source, AssertionInput, user_presence, on_store}
use open_sk.Ctap2.Device.{on_ctap1, on_pin, primitives, check_command_permission}
use open_sk.Ctap2.Device.{update_command_permission}
use open_sk.Ctap2.Authorize.{answer_empty, pin_uv_auth_precheck, check_pin_auth, make_flags}
use open_sk.Ctap2.Authorize.{assertion_flags, check_excluded, known_credential}
use open_sk.Ctap2.Make.{new_key, random_id, store_resident, make_credential_id, make_auth_data}
use open_sk.Ctap2.Make.{create_credential, checked_flags, process_make_credential}
use open_sk.Ctap2.Make
use open_sk.Ctap2.Assertions.{
  remember, first_assertion, checked_uv_flags, process_get_assertion, take_next,
}
use open_sk.Ctap2.Assertions.{process_get_next_assertion}
use open_sk.Ctap2.Assertions
use open_sk.Ctap2.Manage.{process_selection, process_get_info, is_reset}

module _ (t : Timer) (d : Device) where
  open t use {ClockValue}

  -- The stateful command is not the reset.
  abbrev pub IsOver : State t d → Type 0
  IsOver s = is_reset t d s.stateful_command_type ≡ false

  pub user_presence-Keeps : (cid : ChannelId) → Keeps IsOver (user_presence t d cid)
  user_presence-Keeps cid = record { keeps = λ s h. h }

  pub on_store-Keeps : (call : Storing d.pin.store) → Keeps IsOver (on_store t d call)
  on_store-Keeps call = record { keeps = λ s h. h }

  pub on_ctap1-Keeps :
      {A : Type 0} (call : Ctap t (primitives d) → Ctap t (primitives d) × Result A Ctap2StatusCode)
      → Keeps IsOver (on_ctap1 t d call)
  on_ctap1-Keeps call = record { keeps = λ s h. h }

  pub on_pin-Keeps :
      {A : Type 0}
      (call : Action (PinState d.pin.ecdh.SecKey d.pin.rng.Rng d.pin.store.Store) Ctap2StatusCode A)
      → Keeps IsOver (on_pin t d call)
  on_pin-Keeps call = record { keeps = λ s h. h }

  pub ruleset device_rules =
      (keeps_rules, user_presence-Keeps, on_store-Keeps, on_ctap1-Keeps, on_pin-Keeps)

  pub process_selection-Keeps : (cid : ChannelId) → Keeps IsOver (process_selection t d cid)
  unfolding process_selection
  process_selection-Keeps cid = search device_rules

  pub process_get_info-Keeps : Keeps IsOver (process_get_info t d)
  unfolding process_get_info
  process_get_info-Keeps = search device_rules depth 9

  pin_uv_auth_precheck-Keeps :
      (auth_param : Option (List ℕ)) (protocol : Option ℕ) (cid : ChannelId)
      → Keeps IsOver (pin_uv_auth_precheck t d auth_param protocol cid)
  unfolding pin_uv_auth_precheck answer_empty
  pin_uv_auth_precheck-Keeps none protocol cid = search device_rules depth 9
  pin_uv_auth_precheck-Keeps (some auth_param) protocol cid = search device_rules depth 9

  check_pin_auth-Keeps :
      (permission : PinPermission) (rp_id client_data_hash pin_auth : List ℕ)
      → Keeps IsOver (check_pin_auth t d permission rp_id client_data_hash pin_auth)
  unfolding check_pin_auth
  check_pin_auth-Keeps permission rp_id client_data_hash pin_auth = search device_rules depth 12

  make_flags-Keeps :
      (rp_id client_data_hash : List ℕ) (uv : Bool) (auth_param : Option (List ℕ))
      → Keeps IsOver (make_flags t d rp_id client_data_hash uv auth_param)
  unfolding make_flags
  make_flags-Keeps rp_id client_data_hash uv none = search device_rules depth 12
  make_flags-Keeps rp_id client_data_hash uv (some pin_auth) =
      search (device_rules, check_pin_auth-Keeps) depth 12

  assertion_flags-Keeps :
      (rp_id client_data_hash : List ℕ) (uv : Bool) (auth_param : Option (List ℕ))
      → Keeps IsOver (assertion_flags t d rp_id client_data_hash uv auth_param)
  unfolding assertion_flags
  assertion_flags-Keeps rp_id client_data_hash uv none = search device_rules depth 12
  assertion_flags-Keeps rp_id client_data_hash uv (some pin_auth) =
      search (device_rules, check_pin_auth-Keeps) depth 12

  check_excluded-Keeps :
      (rp_id rp_id_hash : List ℕ) (check : Bool) (cid : ChannelId)
      (exclude_list : List PublicKeyCredentialDescriptor)
      → Keeps IsOver (check_excluded t d rp_id rp_id_hash check cid exclude_list)
  unfolding check_excluded
  check_excluded-Keeps rp_id rp_id_hash check cid [] = search device_rules
  check_excluded-Keeps rp_id rp_id_hash check cid (cred_desc ∷ exclude_list) =
      Keeps-bind (reading-Keeps (known_credential t d rp_id rp_id_hash check cred_desc.key_id))
        (λ known.
          if-Keeps (is_some known) _ _ (Keeps-bind (user_presence-Keeps cid) (λ _. fail-Keeps _))
            (check_excluded-Keeps rp_id rp_id_hash check cid exclude_list))

  new_key-Keeps : Keeps IsOver (new_key t d)
  new_key-Keeps = record { keeps = λ s h. h }

  random_id-Keeps : Keeps IsOver (random_id t d)
  random_id-Keeps = record { keeps = λ s h. h }

  make_credential_id-Keeps :
      (params : Make.Parameters t d) (rp_id_hash : List ℕ) (sk : d.ecdsa.SecKey)
      (policy : Option CredentialProtectionPolicy)
      → Keeps IsOver (make_credential_id t d params rp_id_hash sk policy)
  unfolding make_credential_id store_resident
  make_credential_id-Keeps params rp_id_hash sk policy =
      search (device_rules, random_id-Keeps) depth 12

  make_auth_data-Keeps :
      (rp_id_hash : List ℕ) (flags : ℕ) (id pk : List ℕ)
      (extensions : Bool × Option CredentialProtectionPolicy)
      → Keeps IsOver (make_auth_data t d rp_id_hash flags id pk extensions)
  unfolding make_auth_data
  make_auth_data-Keeps rp_id_hash flags id pk (use_hmac, policy) = search device_rules depth 12

  create_credential-Keeps :
      (params : Make.Parameters t d) (flags : ℕ)
      (extensions : Bool × Option CredentialProtectionPolicy)
      → Keeps IsOver (create_credential t d params flags extensions)
  unfolding create_credential
  create_credential-Keeps params flags extensions =
      search (device_rules, new_key-Keeps, make_credential_id-Keeps, make_auth_data-Keeps) depth 12

  pub process_make_credential-Keeps :
      (params : Make.Parameters t d) (cid : ChannelId)
      → Keeps IsOver (process_make_credential t d params cid)
  unfolding process_make_credential checked_flags
  process_make_credential-Keeps params cid =
      search
        (
          device_rules, pin_uv_auth_precheck-Keeps, check_excluded-Keeps, make_flags-Keeps,
          create_credential-Keeps,
        )
        depth 15

  remember-Keeps :
      (credentials : List (Source t d)) (input : AssertionInput) (now : ClockValue)
      → Keeps IsOver (remember t d credentials input now)
  unfolding remember
  remember-Keeps [] input now = record { keeps = λ s h. h }
  remember-Keeps (credential ∷ credentials) input now = record { keeps = λ s h. refl }

  first_assertion-Keeps :
      (params : Assertions.Parameters t d) (flags : ℕ) (credentials : List (Source t d))
      (now : ClockValue)
      → Keeps IsOver (first_assertion t d params flags credentials now)
  unfolding first_assertion
  first_assertion-Keeps params flags credentials now =
      search (device_rules, remember-Keeps) depth 15

  pub process_get_assertion-Keeps :
      (params : Assertions.Parameters t d) (cid : ChannelId) (now : ClockValue)
      → Keeps IsOver (process_get_assertion t d params cid now)
  unfolding process_get_assertion checked_uv_flags
  process_get_assertion-Keeps params cid now =
      search
        (device_rules, pin_uv_auth_precheck-Keeps, assertion_flags-Keeps, first_assertion-Keeps)
        depth 15

  pub check_command_permission-Keeps :
      (now : ClockValue) → Keeps IsOver (check_command_permission t d now)
  unfolding check_command_permission update_command_permission
  check_command_permission-Keeps now = record { keeps = λ s h. h }

  take_next-Keeps : Keeps IsOver (take_next t d)
  unfolding take_next
  take_next-Keeps = record { keeps = λ s h. ground arith }

  pub process_get_next_assertion-Keeps :
      (now : ClockValue) → Keeps IsOver (process_get_next_assertion t d now)
  unfolding process_get_next_assertion
  process_get_next_assertion-Keeps now =
      search (device_rules, check_command_permission-Keeps, take_next-Keeps) depth 12
