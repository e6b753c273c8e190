-- ===== src/Hid/Channels.antt =====
-- The allocation of channels in src/ctap/hid/mod.rs.
use open_sk.Common.{ℕ, ◌+◌, ◌%◌, ◌^◌, ◌<◌, ◌≡◌, refl, ap, arith, true, false, ◌++◌}
use open_sk.Common.{none, some, ◌⊎◌, inl, inr, length, eq_bytes, eq_bytes→eq, eq_bytes_refl}
use open_sk.Common.{Bool-cases}
use open_sk.Timer.{Timer}
use open_sk.Hid.Packet.{ChannelId, HidPacket, Message, channel_broadcast, channel_reserved}
use open_sk.Hid.Receive.{Received, ok, err, parse_packet, command_init}
use open_sk.Hid.Protocol.{Authenticator, send, to_be_bytes, from_be_bytes, init_versions}
use open_sk.Hid.Handler.{Transport, handle_init, handle_received, process_hid_packet}
use open_sk.Hid.Handler.{is_allocated_channel}
use open_sk.Hid.Frame.{handle_message-allocated_cids}

from_be_bytes-to_be_bytes : (n : ℕ) → n < 2 ^ 32 → from_be_bytes (to_be_bytes n) ≡ n
unfolding from_be_bytes to_be_bytes
from_be_bytes-to_be_bytes n h = omega arith

from_be_bytes-reserved : from_be_bytes channel_reserved ≡ 0
unfolding from_be_bytes
from_be_bytes-reserved = refl

to_be_bytes-reserved :
    (n : ℕ) → 0 < n → n < 2 ^ 32 → eq_bytes (to_be_bytes n) channel_reserved ≡ false
to_be_bytes-reserved n pos bound = elim (Bool-cases (eq_bytes (to_be_bytes n) channel_reserved)) [
  | inr other ↦ other
  | inl same ↦ ground (
    arith,
    from_be_bytes-to_be_bytes n bound,
    ap from_be_bytes (eq_bytes→eq (to_be_bytes n) channel_reserved same),
    from_be_bytes-reserved,
  )
]

module _ (t : Timer) (auth : Authenticator t.ClockValue) where
  open t use {ClockValue}

  received-allocated_cids :
      (h : Transport t auth) (s : auth.State) (r : Received) (now : ClockValue)
      → ((handle_received t auth h s r now).0.allocated_cids ≡ h.allocated_cids)
        ⊎ ((handle_received t auth h s r now).0.allocated_cids ≡ (h.allocated_cids + 1) % 2 ^ 32)
  unfolding handle_received
  received-allocated_cids h s (ok none) now = inl refl
  received-allocated_cids h s (ok (some m)) now = handle_message-allocated_cids t auth h s m now
  received-allocated_cids h s (err cid e) now = inl refl

  -- A packet takes no channel away: one that was allocated before it is allocated after it, as long
  -- as the number of channels has not reached its 32-bit limit.
  pub process_hid_packet-channels :
      (h : Transport t auth) (s : auth.State) (packet : HidPacket) (now : ClockValue)
      (cid : ChannelId)
      → h.allocated_cids + 1 < 2 ^ 32
      → is_allocated_channel t auth h cid ≡ true
      → is_allocated_channel t auth (process_hid_packet t auth h s packet now).0 cid ≡ true
  unfolding process_hid_packet is_allocated_channel
  process_hid_packet-channels h s packet now cid bound e =
      let (a, r) = parse_packet t h.assembler packet (t.from_clock_value now) in
      ground (arith, received-allocated_cids (record h { assembler = a }) s r now)

  -- INIT with a nonce of eight bytes on the broadcast channel hands out a channel that was not
  -- allocated before and is allocated afterwards, below the 32-bit limit; the reply to the nonce
  -- carries it.
  pub handle_init_fresh :
      (h : Transport t auth) (s : auth.State) (m : Message)
      → m.cid ≡ channel_broadcast
      → length m.payload ≡ 8
      → h.allocated_cids + 1 < 2 ^ 32
      → let outcome = handle_init t auth h s m in
        let cid = to_be_bytes (h.allocated_cids + 1) in
        (is_allocated_channel t auth h cid ≡ false)
        × (is_allocated_channel t auth outcome.0 cid ≡ true)
        × (outcome.2
            ≡ send channel_broadcast command_init
                (m.payload ++ (cid ++ init_versions auth.with_ctap1)))
  unfolding handle_init is_allocated_channel
  handle_init_fresh h s m hc hp bound =
      let next = h.allocated_cids + 1 in
      ground (
        arith,
        hc,
        hp,
        from_be_bytes-to_be_bytes next bound,
        to_be_bytes-reserved next (omega arith) bound,
        eq_bytes_refl channel_broadcast,
      )
