-- ===== src/Hid/Packet.antt =====
-- The packets and messages of src/ctap/hid/mod.rs. A `[u8; 64]`, a `[u8; 4]` and a slice are lists of
-- bytes.
use open_sk.Common.{ℕ, ◌*◌, ◌^◌, List, [], ◌∷◌, take, drop, get_or}
use open_sk.Common.{◌==◌, if◌then◌else◌, bit_and, bit_or, not}

abbrev pub ChannelId : Type 0
ChannelId = List ℕ

abbrev pub HidPacket : Type 0
HidPacket = List ℕ

pub data ProcessedPacket : Type 0 where
  init_packet : (cmd len : ℕ) (bytes : List ℕ) → ProcessedPacket
  continuation_packet : (seq : ℕ) (bytes : List ℕ) → ProcessedPacket

pub record Message : Type 0 where
  pub cid : ChannelId
  pub cmd : ℕ
  pub payload : List ℕ

abbrev pub channel_reserved : ChannelId
channel_reserved = 0 ∷ 0 ∷ 0 ∷ 0 ∷ []

abbrev pub channel_broadcast : ChannelId
channel_broadcast = 0xff ∷ 0xff ∷ 0xff ∷ 0xff ∷ []

abbrev pub type_init_bit : ℕ
type_init_bit = 0x80

abbrev pub packet_type_mask : ℕ
packet_type_mask = 0x80

-- `array_refs![packet, 4, 60]`, and the fields of `rest`. `!PACKET_TYPE_MASK` is 0x7f.
unfoldable pub process_single_packet : HidPacket → ChannelId × ProcessedPacket
process_single_packet packet =
    let rest = drop 4 packet in
    let kind = get_or rest 0 0 in
    if not (bit_and kind packet_type_mask == 0)
    then (
      take 4 packet,
      init_packet (bit_and kind 0x7f) (bit_or (get_or rest 1 0 * 2 ^ 8) (get_or rest 2 0))
          (take 57 (drop 3 rest)),
    )
    else (take 4 packet, continuation_packet kind (take 59 (drop 1 rest)))
