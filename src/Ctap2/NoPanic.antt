-- ===== src/Ctap2/NoPanic.antt =====
-- The whole device on a packet: src/ctap/hid/mod.rs with the authenticator of src/ctap/ctap1.rs and
-- src/ctap/mod.rs.
use open_sk.Common.{ℕ, ◌≤◌, ◌≡◌, ◌≢◌, refl, arith, Bool, List, length, none, some}
use open_sk.Common.Results.{ok, err}
use open_sk.Timer.{Timer}
use open_sk.Hid.Packet.{HidPacket}
use open_sk.Hid.Assembler.{IsValid, IsPacket}
use open_sk.Hid.Handler.{Transport, process_hid_packet}
use open_sk.Hid.Replies.{Fits, process_hid_packet-ne-none}
use open_sk.Storage.Read.{attestation_certificate, attestation_private_key}
use open_sk.Ctap.Ctap1
use open_sk.Ctap.Ctap1.{Outcome}
use open_sk.Ctap.Sizes.{Responds, process_command-Responds}
use open_sk.Ctap2.Device.{Device, State, primitives, ctap1_state}
use open_sk.Ctap2.Firmware.{process_ctap1, firmware}

module _ (t : Timer) (d : Device) where
  open t use {ClockValue}

  process_ctap1-Fits :
      (payload : List ℕ) (s : State t d) (now : ClockValue) (r : Outcome t (primitives d))
      → Ctap1.process_command t (primitives d) payload (ctap1_state t d s) now ≡ r
      → Responds t (primitives d) r
      → Fits (process_ctap1 t d payload s now).1
  unfolding process_ctap1
  process_ctap1-Fits payload s now none e h = absurd h
  process_ctap1-Fits payload s now (some (c, err code)) e h = rw (e, process_ctap1) tt
  process_ctap1-Fits payload s now (some (c, ok response)) e h =
      rw (e, process_ctap1) (omega (arith, h))

  -- On any packet, at any time and in any valid state of the assembler, no `unwrap` of the transport
  -- and none of CTAP1 behind it fails, and the assembler is valid afterwards, with the feature
  -- with_ctap1 on or off. Public keys have 65 bytes at most and signatures 72, as documented of their
  -- formats; an attestation certificate in the store has 1023 bytes at most, as all its values, and
  -- an attestation private key in the store is a valid key.
  pub process_hid_packet-no_panic :
      (with_ctap1 : Bool) (h : Transport t (firmware t d with_ctap1)) (s : State t d)
      (packet : HidPacket) (now : ClockValue)
      → ((sk : d.ecdsa.SecKey) → length (d.ecdsa.genpk sk) ≤ 65)
      → ((sk : d.ecdsa.SecKey) (bytes : List ℕ) → length (d.ecdsa.sign_rfc6979 sk bytes) ≤ 72)
      → ((certificate : List ℕ)
          → attestation_certificate d.pin.store s.persistent_store ≡ ok (some certificate)
          → length certificate ≤ 1023)
      → ((private_key : List ℕ)
          → attestation_private_key d.pin.store s.persistent_store ≡ ok (some private_key)
          → d.ecdsa.from_bytes private_key ≢ none)
      → IsValid t h.assembler
      → IsPacket packet
      → let outcome = process_hid_packet t (firmware t d with_ctap1) h s packet now in
        (outcome.2 ≢ none) × IsValid t outcome.0.assembler
  process_hid_packet-no_panic with_ctap1 h s packet now pk sig certificate key v p =
      process_hid_packet-ne-none t (firmware t d with_ctap1) h s packet now
        (λ payload. process_ctap1-Fits payload s now _ refl (
          process_command-Responds t (primitives d) pk sig s.persistent_store certificate key
            payload (ctap1_state t d s) now refl))
        v p
