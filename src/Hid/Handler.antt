-- ===== src/Hid/Handler.antt =====
-- `CtapHid::process_hid_packet` of src/ctap/hid/mod.rs.
use open_sk.Common.{ℕ, ◌+◌, ◌^◌, ◌%◌, Bool, true, false, [], ◌++◌, length, none, some}
use open_sk.Common.{leb, ◌==◌, eq_bytes, if◌then◌else◌, ◌&&◌, not}
use open_sk.Timer.{Timer}
use open_sk.Permission.{waiting, grant}
use open_sk.Hid.Packet.{ChannelId, HidPacket, Message, channel_reserved, channel_broadcast}
use open_sk.Hid.Receive
use open_sk.Hid.Receive.{Received, ok, err, Error, command_init, parse_packet, timeout}
use open_sk.Hid.Receive.{
  unexpected_channel, unexpected_init, unexpected_continuation, unexpected_seq,
}
use open_sk.Hid.Protocol.{CtapHid, Reply, Authenticator, send}
use open_sk.Hid.Protocol.{from_be_bytes, to_be_bytes, error_message, ctap1_message}
use open_sk.Hid.Protocol.{cbor_message, init_versions, command_ping, command_msg}
use open_sk.Hid.Protocol.{
  command_cbor, command_cancel, command_wink, err_invalid_cmd, err_invalid_len,
}
use open_sk.Hid.Protocol.{err_invalid_seq, err_msg_timeout, err_channel_busy, err_invalid_channel}

abbrev pub wink_timeout_ms : ℕ
wink_timeout_ms = 5000

module _ (t : Timer) (auth : Authenticator t.ClockValue) where
  open t use {ClockValue, Timestamp, from_ms, from_clock_value}

  abbrev pub Transport : Type 0
  Transport = CtapHid ClockValue Timestamp

  -- The transport and the authenticator after the call, and the packets to send.
  abbrev pub Outcome : Type 0
  Outcome = Transport × auth.State × Reply

  unfoldable pub new : Transport
  new = record { assembler = Receive.new t; allocated_cids = 0; wink_permission = waiting }

  unfoldable pub is_allocated_channel : Transport → ChannelId → Bool
  is_allocated_channel h cid =
      not (eq_bytes cid channel_reserved) && leb (from_be_bytes cid) h.allocated_cids

  unfoldable pub has_valid_channel : Transport → Message → Bool
  has_valid_channel h m =
      if eq_bytes m.cid channel_broadcast
      then m.cmd == command_init
      else is_allocated_channel h m.cid

  unfoldable pub handle_msg : Transport → auth.State → Message → ClockValue → Outcome
  handle_msg h s m now =
      if auth.with_ctap1
      then (let (s', result) = auth.process_ctap1 m.payload s now in
          (h, s', ctap1_message m.cid result))
      else (h, s, error_message m.cid err_invalid_cmd)

  unfoldable pub handle_cbor : Transport → auth.State → Message → ClockValue → Outcome
  handle_cbor h s m now =
      let (s', response) = auth.process_command m.payload m.cid s now in
      (h, s', cbor_message m.cid response)

  -- `allocated_cids` is a usize of 32 bits.
  unfoldable pub handle_init : Transport → auth.State → Message → Outcome
  handle_init h s m =
      let next = (h.allocated_cids + 1) % 2 ^ 32 in
      let reply = λ (new_cid : ChannelId).
        send m.cid command_init (m.payload ++ (new_cid ++ init_versions auth.with_ctap1)) in
      if not (length m.payload == 8)
      then (h, s, error_message m.cid err_invalid_len)
      else if eq_bytes m.cid channel_broadcast
      then (record h { allocated_cids = next }, s, reply (to_be_bytes next))
      else (h, s, reply m.cid)

  unfoldable pub handle_wink : Transport → auth.State → Message → ClockValue → Outcome
  handle_wink h s m now =
      if not (length m.payload == 0) then (h, s, error_message m.cid err_invalid_len) else (
        record h { wink_permission = grant t now (from_ms wink_timeout_ms) },
        s,
        send m.cid command_wink [],
      )

  -- The `match` on the command.
  unfoldable pub handle_command : Transport → auth.State → Message → ClockValue → Outcome
  handle_command h s m now =
      if m.cmd == command_msg
      then handle_msg h s m now
      else if m.cmd == command_cbor
      then handle_cbor h s m now
      else if m.cmd == command_init
      then handle_init h s m
      else if m.cmd == command_ping
      then (h, s, send m.cid m.cmd m.payload)
      else if m.cmd == command_cancel
      then (h, s, some [])
      else if m.cmd == command_wink
      then handle_wink h s m now
      else (h, s, error_message m.cid err_invalid_cmd)

  unfoldable pub handle_message : Transport → auth.State → Message → ClockValue → Outcome
  handle_message h s m now =
      if not (has_valid_channel h m)
      then (h, s, error_message m.cid err_invalid_channel)
      else handle_command (record h { wink_permission = waiting }) s m now

  abbrev pub error_reply : ChannelId → Error → Reply
  error_reply cid unexpected_channel = error_message cid err_channel_busy
  error_reply cid unexpected_init = error_message cid err_invalid_seq
  error_reply cid unexpected_continuation = some []
  error_reply cid unexpected_seq = error_message cid err_invalid_seq
  error_reply cid timeout = error_message cid err_msg_timeout

  abbrev pub is_continuation : Error → Bool
  is_continuation unexpected_continuation = true
  is_continuation _ = false

  unfoldable pub handle_error : Transport → ChannelId → Error → Reply
  handle_error h cid e =
      if not (is_allocated_channel h cid) && not (is_continuation e)
      then error_message cid err_invalid_channel
      else error_reply cid e

  unfoldable pub handle_received : Transport → auth.State → Received → ClockValue → Outcome
  handle_received h s (ok none) now = (h, s, some [])
  handle_received h s (ok (some m)) now = handle_message h s m now
  handle_received h s (err cid e) now = (h, s, handle_error h cid e)

  unfoldable pub process_hid_packet : Transport → auth.State → HidPacket → ClockValue → Outcome
  process_hid_packet h s packet now =
      let (assembler', r) = parse_packet t h.assembler packet (from_clock_value now) in
      handle_received (record h { assembler = assembler' }) s r now
