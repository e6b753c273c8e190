-- ===== src/Hid/Frame.antt =====
-- What a handled message leaves alone: src/ctap/hid/mod.rs.
use open_sk.Common.{◌+◌, ◌%◌, ◌^◌, ◌≡◌, refl, arith, false, none, some}
use open_sk.Common.{◌⊎◌, take}
use open_sk.Timer.{Timer}
use open_sk.Hid.Packet.{ChannelId, HidPacket, Message}
use open_sk.Hid.Receive.{Received, ok, err, parse_packet}
use open_sk.Hid.Origin.{Concerns, parse_packet-Concerns}
use open_sk.Hid.Protocol.{Authenticator}
use open_sk.Hid.Handler.{
  Transport, handle_msg, handle_cbor, handle_init, handle_wink, handle_command,
}
use open_sk.Hid.Handler.{handle_message, handle_received, process_hid_packet, has_valid_channel}
use open_sk.Hid.Handler.{is_allocated_channel}

module _ (t : Timer) (auth : Authenticator t.ClockValue) where
  open t use {ClockValue}

  handle_message-assembler :
      (h : Transport t auth) (s : auth.State) (m : Message) (now : ClockValue)
      → (handle_message t auth h s m now).0.assembler ≡ h.assembler
  unfolding handle_message handle_command handle_msg handle_cbor handle_init handle_wink
  handle_message-assembler h s m now = ground arith

  pub handle_received-assembler :
      (h : Transport t auth) (s : auth.State) (r : Received) (now : ClockValue)
      → (handle_received t auth h s r now).0.assembler ≡ h.assembler
  unfolding handle_received
  handle_received-assembler h s (ok none) now = refl
  handle_received-assembler h s (ok (some m)) now = handle_message-assembler h s m now
  handle_received-assembler h s (err cid e) now = refl

  pub handle_message-allocated_cids :
      (h : Transport t auth) (s : auth.State) (m : Message) (now : ClockValue)
      → ((handle_message t auth h s m now).0.allocated_cids ≡ h.allocated_cids)
        ⊎ ((handle_message t auth h s m now).0.allocated_cids ≡ (h.allocated_cids + 1) % 2 ^ 32)
  unfolding handle_message handle_command handle_msg handle_cbor handle_init handle_wink
  handle_message-allocated_cids h s m now = ground arith

  handle_message-state :
      (h : Transport t auth) (s : auth.State) (m : Message) (now : ClockValue)
      → is_allocated_channel t auth h m.cid ≡ false
      → (handle_message t auth h s m now).1 ≡ s
  unfolding handle_message handle_command handle_init handle_wink has_valid_channel
  handle_message-state h s m now e = ground arith

  received-state :
      (h : Transport t auth) (s : auth.State) (cid : ChannelId) (r : Received) (now : ClockValue)
      → is_allocated_channel t auth h cid ≡ false
      → Concerns cid r
      → (handle_received t auth h s r now).1 ≡ s
  unfolding handle_received
  received-state h s cid (ok none) now e c = refl
  received-state h s cid (ok (some m)) now e c = handle_message-state h s m now (rw c e)
  received-state h s cid (err j x) now e c = refl

  -- A packet on a channel that is not allocated leaves the state of the authenticator as it was.
  pub process_hid_packet-state :
      (h : Transport t auth) (s : auth.State) (packet : HidPacket) (now : ClockValue)
      → is_allocated_channel t auth h (take 4 packet) ≡ false
      → (process_hid_packet t auth h s packet now).1 ≡ s
  unfolding process_hid_packet is_allocated_channel
  process_hid_packet-state h s packet now e =
      let (a, r) = parse_packet t h.assembler packet (t.from_clock_value now) in
      received-state (record h { assembler = a }) s (take 4 packet) r now e
        (parse_packet-Concerns t h.assembler packet (t.from_clock_value now))
