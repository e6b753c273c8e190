-- ===== src/Ctap2/Verified.antt =====
-- What has to hold before `process_make_credential` of src/ctap/mod.rs makes a credential.
use open_sk.Common.{
  ℕ, Bool, true, List, [], ◌∷◌, Option, none, some, ◌≡◌, refl, arith, ap, sym, ◌∙◌, not,
}
use open_sk.Common.{inl, inr}
use open_sk.Common.Results.{ok}
use open_sk.Common.Actions.{Result-cases}
use open_sk.Timer.{Timer}
use open_sk.Hid.Packet.{ChannelId}
use open_sk.Storage.Read.{pin_hash}
use open_sk.Storage.Credentials.{is_some}
use open_sk.Formats.Entities.{PublicKeyCredentialDescriptor}
use open_sk.Formats.Responses.{ResponseData}
use open_sk.Pin.Token.{
  PinPermission, verify_pin_auth_token, has_permission, has_permission_for_rp_id,
}
use open_sk.Pin.Token
use open_sk.Ctap2.Device.{Device, State, pin_state}
use open_sk.Ctap2.Authorize.{answer_empty, pin_uv_auth_precheck, check_pin_auth, make_flags}
use open_sk.Ctap2.Authorize.{check_excluded}
use open_sk.Ctap2.Authorize.{assertion_flags}
use open_sk.Ctap2.Assertions.{checked_uv_flags, process_get_assertion}
use open_sk.Ctap2.Assertions
use open_sk.Ctap2.Make.{checked_flags, process_make_credential, Parameters, excluded_in}

module _ (t : Timer) (d : Device) where
  open t use {ClockValue}

  -- The first check, where it goes on, has changed nothing.
  pin_uv_auth_precheck-ok :
      (auth_param : Option (List ℕ)) (protocol : Option ℕ) (cid : ChannelId) (s : State t d)
      → (pin_uv_auth_precheck t d auth_param protocol cid s).1 ≡ ok tt
      → (pin_uv_auth_precheck t d auth_param protocol cid s).0 ≡ s
  unfolding pin_uv_auth_precheck answer_empty
  pin_uv_auth_precheck-ok none protocol cid s h = refl
  pin_uv_auth_precheck-ok (some auth_param) protocol cid s h = ground arith

  check_excluded-ok :
      (rp_id rp_id_hash : List ℕ) (check : Bool) (cid : ChannelId)
      (exclude_list : List PublicKeyCredentialDescriptor) (s : State t d)
      → (check_excluded t d rp_id rp_id_hash check cid exclude_list s).1 ≡ ok tt
      → (check_excluded t d rp_id rp_id_hash check cid exclude_list s).0 ≡ s
  unfolding check_excluded
  check_excluded-ok rp_id rp_id_hash check cid [] s h = refl
  check_excluded-ok rp_id rp_id_hash check cid (cred_desc ∷ exclude_list) s h =
      ground (arith, check_excluded-ok rp_id rp_id_hash check cid exclude_list s)

  -- The PIN authentication that the token in the state verifies, with the permission for the relying
  -- party.
  pub record IsVerified (permission : PinPermission) (rp_id client_data_hash : List ℕ)
      (auth_param : Option (List ℕ)) (s : State t d) : Type 0 where
    pub pin_auth : List ℕ
    pub given : auth_param ≡ some pin_auth
    pub verified : verify_pin_auth_token d.pin client_data_hash pin_auth (pin_state t d s) ≡ true
    pub permitted : has_permission d.pin permission (pin_state t d s) ≡ ok tt
    pub for_rp_id : (has_permission_for_rp_id d.pin rp_id (pin_state t d s)).1 ≡ ok tt

  check_pin_auth-ok :
      (permission : PinPermission) (rp_id client_data_hash pin_auth : List ℕ) (s : State t d)
      → (check_pin_auth t d permission rp_id client_data_hash pin_auth s).1 ≡ ok tt
      → IsVerified permission rp_id client_data_hash (some pin_auth) s
  unfolding check_pin_auth
  check_pin_auth-ok permission rp_id client_data_hash pin_auth s h = record {
    pin_auth = pin_auth;
    given = refl;
    verified = ground arith;
    permitted = ground arith;
    for_rp_id = ground arith;
  }

  check_pin_auth-world :
      (permission : PinPermission) (rp_id client_data_hash pin_auth : List ℕ) (s : State t d)
      → (check_pin_auth t d permission rp_id client_data_hash pin_auth s).0.world ≡ s.world
  unfolding check_pin_auth
  check_pin_auth-world permission rp_id client_data_hash pin_auth s = ground arith

  -- With a PIN, the flags are given only for an authentication, and the world is as before.
  make_flags-ok :
      (rp_id client_data_hash : List ℕ) (uv : Bool) (auth_param : Option (List ℕ)) (s : State t d)
      (hash : List ℕ) (flags : ℕ)
      → pin_hash d.pin.store s.persistent_store ≡ ok (some hash)
      → (make_flags t d rp_id client_data_hash uv auth_param s).1 ≡ ok flags
      → IsVerified Token.make_credential rp_id client_data_hash auth_param s
        × ((make_flags t d rp_id client_data_hash uv auth_param s).0.world ≡ s.world)
  unfolding make_flags
  make_flags-ok rp_id client_data_hash uv none s hash flags p h = absurd (ground (arith, p))
  make_flags-ok rp_id client_data_hash uv (some pin_auth) s hash flags p h = (
    check_pin_auth-ok Token.make_credential rp_id client_data_hash pin_auth s (ground arith),
    ground (arith, check_pin_auth-world Token.make_credential rp_id client_data_hash pin_auth s),
  )

  -- The checks go on from the state that they began in.
  checked_flags-make_flags :
      (params : Parameters t d) (cid : ChannelId) (s : State t d) (flags : ℕ)
      → (checked_flags t d params cid s).1 ≡ ok flags
      → checked_flags t d params cid s
        ≡ make_flags t d params.rp.rp_id params.client_data_hash params.options.uv
            params.pin_uv_auth_param s
  unfolding checked_flags
  checked_flags-make_flags params cid s flags h = ground (
    arith,
    pin_uv_auth_precheck-ok params.pin_uv_auth_param params.pin_uv_auth_protocol cid s,
    check_excluded-ok params.rp.rp_id (d.pin.sha256.hash params.rp.rp_id)
        (not (is_some params.pin_uv_auth_param)) cid (excluded_in t d params.exclude_list) s,
  )

  -- While a PIN is set, a credential is made only with a PIN authentication that the current token
  -- verifies for the client data, with the token's permission to make credentials for this relying
  -- party, and with the user's presence, asked in the world that the command found.
  pub process_make_credential-IsVerified :
      (params : Parameters t d) (cid : ChannelId) (s : State t d) (hash : List ℕ)
      (response : ResponseData)
      → pin_hash d.pin.store s.persistent_store ≡ ok (some hash)
      → (process_make_credential t d params cid s).1 ≡ ok response
      → IsVerified Token.make_credential params.rp.rp_id params.client_data_hash
          params.pin_uv_auth_param s
        × ((d.check_user_presence cid s.world).1 ≡ ok tt)
  unfolding process_make_credential
  process_make_credential-IsVerified params cid s hash response p h =
      elim (Result-cases (checked_flags t d params cid s).1) [
        | inr (e, f) ↦ absurd (ground arith)
        | inl (flags, f) ↦
            let e = checked_flags-make_flags params cid s flags f in
            let (v, w) =
              make_flags-ok params.rp.rp_id params.client_data_hash params.options.uv
                params.pin_uv_auth_param s hash flags p (ap (λ r. r.1) (sym e) ∙ f) in
            (v, ground (arith, ap (λ r. r.0.world) e ∙ w))
      ]

  -- With an authentication, the flag of user verification is given only where it is verified.
  checked_uv_flags-ok :
      (params : Assertions.Parameters t d) (cid : ChannelId) (s : State t d) (pin_auth : List ℕ)
      (flags : ℕ)
      → params.pin_uv_auth_param ≡ some pin_auth
      → (checked_uv_flags t d params cid s).1 ≡ ok flags
      → let rest =
          check_pin_auth t d Token.get_assertion params.rp_id params.client_data_hash pin_auth s in
        (rest.1 ≡ ok tt) × ((checked_uv_flags t d params cid s).0 ≡ rest.0)
  unfolding checked_uv_flags assertion_flags
  checked_uv_flags-ok params cid s pin_auth flags e h =
      let unchanged =
        pin_uv_auth_precheck-ok params.pin_uv_auth_param params.pin_uv_auth_protocol cid s in
      (ground (arith, e, unchanged), ground (arith, e, unchanged))

  -- An assertion that a request asks for with a PIN authentication and with user presence is given only
  -- if the current token verifies the authentication for the client data, has the permission to get
  -- assertions from this relying party, and the user was present, asked in the world that the command
  -- found.
  pub process_get_assertion-IsVerified :
      (params : Assertions.Parameters t d) (cid : ChannelId) (now : ClockValue) (s : State t d)
      (pin_auth : List ℕ) (response : ResponseData)
      → params.pin_uv_auth_param ≡ some pin_auth
      → params.options.up ≡ true
      → (process_get_assertion t d params cid now s).1 ≡ ok response
      → IsVerified Token.get_assertion params.rp_id params.client_data_hash (some pin_auth) s
        × ((d.check_user_presence cid s.world).1 ≡ ok tt)
  unfolding process_get_assertion
  process_get_assertion-IsVerified params cid now s pin_auth response e up h =
      elim (Result-cases (checked_uv_flags t d params cid s).1) [
        | inr (code, f) ↦ absurd (ground arith)
        | inl (flags, f) ↦
            let (verified, same) = checked_uv_flags-ok params cid s pin_auth flags e f in
            let world =
              ap (λ s'. s'.world) same
              ∙ check_pin_auth-world Token.get_assertion params.rp_id params.client_data_hash
                  pin_auth s in
            (
              check_pin_auth-ok Token.get_assertion params.rp_id params.client_data_hash pin_auth s
                  verified,
              ground (arith, up, world),
            )
      ]
