-- ===== src/Ctap2/Wiped.antt =====
-- What a reset of src/ctap/mod.rs needs and leaves.
use open_sk.Common.{ℕ, true, none, ◌≡◌, arith, ap, ◌∙◌}
use open_sk.Common.Results.{ok}
use open_sk.Timer.{Timer}
use open_sk.Permission.{is_granted, check_expiration-is_granted}
use open_sk.Hid.Packet.{ChannelId}
use open_sk.Storage.Key.{is_credential_key}
use open_sk.Storage.Read.{find, pin_hash, pin_retries, min_pin_length, global_signature_counter}
use open_sk.Storage.Read.{attestation_private_key, attestation_certificate}
use open_sk.Storage.Write
use open_sk.Storage.Write.{Seeded}
use open_sk.Storage.Reset.{reset_lem}
use open_sk.Formats.Responses.{ResponseData}
use open_sk.Pin.Token
use open_sk.Ctap2.Device.{Device, State, check_command_permission, update_command_permission}
use open_sk.Ctap2.Manage.{process_reset, is_reset}

module _ (t : Timer) (d : Device) where
  open t use {ClockValue}

  abbrev pub seeded_of : State t d → Seeded d.pin.rng.Rng d.pin.store.Store
  seeded_of s = record { rng = s.rng; store = s.persistent_store }

  process_reset-parts :
      (cid : ChannelId) (now : ClockValue) (s : State t d) (response : ResponseData)
      → (process_reset t d cid now s).1 ≡ ok response
      → let seeded = Write.reset d.pin.store d.pin.rng d.aaguid (seeded_of s) in
        (is_granted t s.stateful_command_permission now ≡ true)
        × (is_reset t d s.stateful_command_type ≡ true)
        × ((d.check_user_presence cid s.world).1 ≡ ok tt)
        × (seeded.1 ≡ ok tt)
        × ((process_reset t d cid now s).0.persistent_store ≡ seeded.0.store)
  unfolding process_reset check_command_permission update_command_permission Token.reset
  process_reset-parts cid now s response h =
      let c = check_expiration-is_granted t s.stateful_command_permission now in
      (ground (arith, c), ground arith, ground arith, ground arith, ground arith)

  -- A reset that succeeds was asked for while the permission from the start of the device lasted and
  -- no other command had ended it, and the user was present. Afterwards the store holds no PIN and no
  -- entry under a key of a credential, all PIN retries are left, the least PIN length is 4 and the
  -- signature counter is 1, which is what an absent entry of the counter stands for in the code; the
  -- attestation key and certificate are those from before.
  pub process_reset-wiped :
      (cid : ChannelId) (now : ClockValue) (s : State t d) (response : ResponseData) (key : ℕ)
      → (process_reset t d cid now s).1 ≡ ok response
      → is_credential_key key ≡ true
      → let k = d.pin.store in
        let store = (process_reset t d cid now s).0.persistent_store in
        ((is_granted t s.stateful_command_permission now ≡ true)
          × (is_reset t d s.stateful_command_type ≡ true)
          × ((d.check_user_presence cid s.world).1 ≡ ok tt))
        × ((pin_hash k store ≡ ok none)
            × (find k store key ≡ ok none)
            × (pin_retries k store ≡ ok 8)
            × (min_pin_length k store ≡ ok 4)
            × (global_signature_counter k store ≡ ok 1)
            × (attestation_private_key k store ≡ attestation_private_key k s.persistent_store)
            × (attestation_certificate k store ≡ attestation_certificate k s.persistent_store))
  process_reset-wiped cid now s response key h c =
      let k = d.pin.store in
      let (granted, reset_left, present, wiped, e) = process_reset-parts cid now s response h in
      let facts = reset_lem k d.pin.rng d.aaguid (seeded_of s) wiped in
      (
        (granted, reset_left, present),
        (
          ap (pin_hash k) e ∙ facts.0,
          ap (λ store. find k store key) e ∙ facts.4 key c,
          ap (pin_retries k) e ∙ facts.1,
          ap (min_pin_length k) e ∙ facts.2,
          ap (global_signature_counter k) e ∙ facts.3,
          ap (attestation_private_key k) e ∙ facts.5,
          ap (attestation_certificate k) e ∙ facts.6,
        ),
      )
