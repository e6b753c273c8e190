-- ===== src/Ctap2/NoPanicTests.antt =====
-- A packet of CTAP1 on a device with concrete primitives.
use open_sk.Common.{ℕ, ◌≤◌, ◌≡◌, ◌≢◌, refl, arith, true, List, [], ◌∷◌}
use open_sk.Common.{length, replicate, none, some}
use open_sk.Common.Results.{ok}
use open_sk.Timer.{ticking}
use open_sk.Permission.{waiting}
use open_sk.Toy.{toy_store, toy_bytes_size}
use open_sk.Hid.Packet.{HidPacket}
use open_sk.Hid.Receive
use open_sk.Hid.Assembler.{IsValid, IsPacket, new-IsValid}
use open_sk.Hid.Handler.{Transport, process_hid_packet}
use open_sk.Storage.Read.{attestation_certificate}
use open_sk.Store.Contents.{get}
use open_sk.Ctap2.Device.{State}
use open_sk.Ctap2.Firmware.{firmware}
use open_sk.Ctap2.Samples.{toy, started}
use open_sk.Ctap2.NoPanic.{process_hid_packet-no_panic}

-- The attestation is configured.
abbrev configured : State ticking toy
configured = record started {
  persistent_store = (1, replicate 32 2) ∷ (2, 0xce ∷ []) ∷ started.persistent_store;
}

abbrev transport : Transport ticking (firmware ticking toy true)
transport = record {
  assembler = Receive.new ticking;
  allocated_cids = 1;
  wink_permission = waiting;
}

-- MSG on channel 1 with the U2F command VERSION.
abbrev version_packet : HidPacket
version_packet = 0 ∷ 0 ∷ 0 ∷ 1 ∷ 0x83 ∷ 0 ∷ 7 ∷ 0 ∷ 3 ∷ replicate 55 0

version-IsPacket : IsPacket version_packet
version-IsPacket = record { size = refl; bytes = omega arith }

certificate_size :
    (certificate : List ℕ)
    → attestation_certificate toy_store configured.persistent_store ≡ ok (some certificate)
    → length certificate ≤ 1023
unfolding attestation_certificate get
certificate_size certificate e = ground arith

process_hid_packet-no_panic_example :
    let auth = firmware ticking toy true in
    ((process_hid_packet ticking auth transport configured version_packet 5).2 ≢ none)
    × IsValid ticking
        (process_hid_packet ticking auth transport configured version_packet 5).0.assembler
process_hid_packet-no_panic_example =
    process_hid_packet-no_panic ticking toy true transport configured version_packet 5
      (λ sk. omega (arith, toy_bytes_size sk)) (λ sk bytes. omega arith) certificate_size
      (λ private_key e h. cc) (new-IsValid ticking) version-IsPacket
