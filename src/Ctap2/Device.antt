-- ===== src/Ctap2/Device.antt =====
-- The state of the authenticator in src/ctap/mod.rs, and the calls of its parts.
use open_sk.Common.{ℕ, Bool, List, Option, if◌then◌else◌}
use open_sk.Common.Results.{Result, ok, err}
use open_sk.Common.Actions.{Action}
use open_sk.Timer.{Timer}
use open_sk.Permission
use open_sk.Permission.{TimedPermission, is_granted, grant}
use open_sk.Permission.Presence
use open_sk.Permission.Presence.{U2fUserPresenceState}
use open_sk.Hid.Packet.{ChannelId}
use open_sk.Store.Interface.{KeyStore, Value}
use open_sk.Storage.Read
use open_sk.Storage.Write
use open_sk.Storage.Write.{Storing, Seeded, Seeding}
use open_sk.Ctap.Status.{Ctap2StatusCode, ctap2_err_not_allowed}
use open_sk.Ctap.Primitives.{Ecdsa, PersistentStore, Primitives}
use open_sk.Ctap.State.{Ctap, PublicKeyCredentialSource}
use open_sk.Formats.Cose.{GetAssertionHmacSecretInput}
use open_sk.Pin.Secrets.{PinPrimitives}
use open_sk.Pin.Verify.{PinProtocolV1, PinState}

pub record AssertionInput : Type 0 where
  pub client_data_hash : List ℕ
  pub auth_data : List ℕ
  pub hmac_secret_input : Option GetAssertionHmacSecretInput
  pub has_uv : Bool

-- The credentials by ascending order of creation.
pub record AssertionState (SecKey : Type 0) : Type 0 where
  pub assertion_input : AssertionInput
  pub next_credentials : List (PublicKeyCredentialSource SecKey)

pub data StatefulCommand (SecKey : Type 0) : Type 0 where
  reset : StatefulCommand SecKey
  get_assertion : AssertionState SecKey → StatefulCommand SecKey

-- What the commands use: the primitives of the PIN protocol, ECDSA, the AAGUID that the build makes,
-- the width of usize, and the world outside with the check of user presence, which the firmware
-- passes on, and `crp::set_protection(FullyLocked)` of libtock_drivers.
pub record Device : Type 1 where
  pub pin : PinPrimitives
  pub ecdsa : Ecdsa pin.rng.Rng
  pub aaguid : Value
  pub usize_bits : ℕ
  pub World : Type 0
  pub check_user_presence : ChannelId → World → World × Result {0, 0} Unit Ctap2StatusCode
  pub lock : World → World × Bool

-- The storage as the interface that CTAP1 and the key handles use.
abbrev pub storage : KeyStore → PersistentStore
storage k = record {
  Store = k.Store;
  master_keys = Read.master_keys k;
  attestation_certificate = Read.attestation_certificate k;
  attestation_private_key = Read.attestation_private_key k;
  global_signature_counter = Read.global_signature_counter k;
  incr_global_signature_counter = Write.incr_global_signature_counter k;
}

abbrev pub primitives : Device → Primitives
primitives d = record {
  rng = d.pin.rng;
  ecdsa = d.ecdsa;
  aes256 = d.pin.aes256;
  aes256_key = d.pin.aes256_key;
  sha256 = d.pin.sha256;
  store = storage d.pin.store;
}

abbrev pub touch_timeout_ms : ℕ
touch_timeout_ms = 30000

abbrev pub u2f_up_prompt_timeout_ms : ℕ
u2f_up_prompt_timeout_ms = 10000

abbrev pub reset_timeout_duration_ms : ℕ
reset_timeout_duration_ms = 10000

abbrev pub stateful_command_timeout_duration_ms : ℕ
stateful_command_timeout_duration_ms = 30000

module _ (t : Timer) (d : Device) where
  open t use {ClockValue, Duration, from_ms}

  pub record State : Type 0 where
    pub rng : d.pin.rng.Rng
    pub persistent_store : d.pin.store.Store
    pub pin_protocol : PinProtocolV1 d.pin.ecdh.SecKey
    pub u2f_up_state : U2fUserPresenceState ClockValue Duration
    pub stateful_command_permission : TimedPermission ClockValue
    pub stateful_command_type : Option (StatefulCommand d.ecdsa.SecKey)
    pub world : d.World

  abbrev pub Call : Type 0 → Type 0
  Call A = Action State Ctap2StatusCode A

  abbrev pub Source : Type 0
  Source = PublicKeyCredentialSource d.ecdsa.SecKey

  abbrev pub from_store : {A : Type 0} → (d.pin.store.Store → Result A Ctap2StatusCode) → Call A
  from_store f s = (s, f s.persistent_store)

  abbrev pub on_store : Storing d.pin.store → Call (Unit {0})
  on_store call s =
      let (store', result) = call s.persistent_store in
      (record s { persistent_store = store' }, result)

  abbrev pub on_seeded : Seeding d.pin.store d.pin.rng d.aaguid → Call (Unit {0})
  on_seeded call s =
      let (seeded, result) = call (record { rng = s.rng; store = s.persistent_store }) in
      (record s { rng = seeded.rng; persistent_store = seeded.store }, result)

  -- The part of the state that CTAP1 and the key handles use.
  abbrev pub ctap1_state : State → Ctap t (primitives d)
  ctap1_state s = record {
    rng = s.rng;
    persistent_store = s.persistent_store;
    u2f_up_state = s.u2f_up_state;
  }

  abbrev pub with_ctap1_state : State → Ctap t (primitives d) → State
  with_ctap1_state s c = record s {
    rng = c.rng;
    persistent_store = c.persistent_store;
    u2f_up_state = c.u2f_up_state;
  }

  abbrev pub on_ctap1 :
      {A : Type 0}
      → (Ctap t (primitives d) → Ctap t (primitives d) × Result A Ctap2StatusCode)
      → Call A
  on_ctap1 call s = let (c, result) = call (ctap1_state s) in (with_ctap1_state s c, result)

  abbrev pub pin_state : State → PinState d.pin.ecdh.SecKey d.pin.rng.Rng d.pin.store.Store
  pin_state s = record {
    rng = s.rng;
    persistent_store = s.persistent_store;
    pin_protocol = s.pin_protocol;
  }

  abbrev pub with_pin_state :
      State → PinState d.pin.ecdh.SecKey d.pin.rng.Rng d.pin.store.Store → State
  with_pin_state s p = record s {
    rng = p.rng;
    persistent_store = p.persistent_store;
    pin_protocol = p.pin_protocol;
  }

  abbrev pub on_pin :
      {A : Type 0}
      → Action (PinState d.pin.ecdh.SecKey d.pin.rng.Rng d.pin.store.Store) Ctap2StatusCode A
      → Call A
  on_pin call s = let (p, result) = call (pin_state s) in (with_pin_state s p, result)

  -- `(self.check_user_presence)(cid)?`
  abbrev pub user_presence : ChannelId → Call (Unit {0})
  user_presence cid s =
      let (world', result) = d.check_user_presence cid s.world in
      (record s { world = world' }, result)

  abbrev pub new_u2f_up_state : U2fUserPresenceState ClockValue Duration
  new_u2f_up_state = Presence.new t (from_ms u2f_up_prompt_timeout_ms) (from_ms touch_timeout_ms)

  unfoldable pub update_command_permission : ClockValue → State → State
  update_command_permission now s = record s {
    stateful_command_permission = Permission.check_expiration t s.stateful_command_permission now;
  }

  unfoldable pub check_command_permission : ClockValue → Call (Unit {0})
  check_command_permission now s =
      let s' = update_command_permission now s in
      (
        s',
        if is_granted t s'.stateful_command_permission now
            then ok tt
            else err ctap2_err_not_allowed,
      )
