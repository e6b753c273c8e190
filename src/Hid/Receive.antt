-- ===== src/Hid/Receive.antt =====
-- src/ctap/hid/receive.rs: the assembly of a message from packets.
use open_sk.Common.{ℕ, ◌+◌, ◌-◌, ◌%◌, Bool, true, false, List, [], ◌∷◌, ◌++◌, take, length}
use open_sk.Common.{Option, none, some, ltb, ◌==◌, eq_bytes, if◌then◌else◌, ◌&&◌, not}
use open_sk.Timer.{Timer}
use open_sk.Hid.Packet.{ChannelId, HidPacket, Message, ProcessedPacket, init_packet}
use open_sk.Hid.Packet.{continuation_packet, process_single_packet}

pub record MessageAssembler (T : Type 0) : Type 0 where
  pub idle : Bool
  pub cid : ChannelId
  pub last_timestamp : T
  pub cmd : ℕ
  pub seq : ℕ
  pub remaining_payload_len : ℕ
  pub payload : List ℕ

pub data Error : Type 0 where
  unexpected_channel unexpected_init unexpected_continuation unexpected_seq timeout : Error

-- `Result<Option<Message>, (ChannelID, Error)>`
pub data Received : Type 0 where
  ok : Option Message → Received
  err : ChannelId → Error → Received

abbrev pub command_init : ℕ
command_init = 0x06

abbrev pub timeout_ms : ℕ
timeout_ms = 100

module _ (t : Timer) where
  open t use {Timestamp, timestamp_from_ms, since, is_less, from_ms}

  abbrev pub Assembler : Type 0
  Assembler = MessageAssembler Timestamp

  unfoldable pub new : Assembler
  new = record {
    idle = true;
    cid = 0 ∷ 0 ∷ 0 ∷ 0 ∷ [];
    last_timestamp = timestamp_from_ms 0;
    cmd = 0;
    seq = 0;
    remaining_payload_len = 0;
    payload = [];
  }

  unfoldable pub reset : Assembler → Assembler
  reset a = record a {
    idle = true;
    cid = 0 ∷ 0 ∷ 0 ∷ 0 ∷ [];
    last_timestamp = timestamp_from_ms 0;
    cmd = 0;
    seq = 0;
    remaining_payload_len = 0;
    payload = [];
  }

  unfoldable pub append_payload : Assembler → List ℕ → Assembler × Option Message
  append_payload a bytes =
      if ltb (length bytes) a.remaining_payload_len
      then (
        record a {
          payload = a.payload ++ bytes;
          idle = false;
          remaining_payload_len = a.remaining_payload_len - length bytes;
        },
        none,
      )
      else (
        record a { payload = []; idle = true },
        some (record {
          cid = a.cid;
          cmd = a.cmd;
          payload = a.payload ++ take a.remaining_payload_len bytes;
        }),
      )

  unfoldable pub accept_init_packet :
      Assembler → ChannelId → ℕ → ℕ → List ℕ → Timestamp → Assembler × Option Message
  accept_init_packet a cid cmd len bytes timestamp =
      append_payload
        (record a {
          cid = cid;
          last_timestamp = timestamp;
          cmd = cmd;
          seq = 0;
          remaining_payload_len = len;
        })
        bytes

  abbrev pub received : Assembler × Option Message → Assembler × Received
  received (a, message) = (a, ok message)

  -- An initialization packet is expected.
  unfoldable pub parse_idle :
      Assembler → ChannelId → ProcessedPacket → Timestamp → Assembler × Received
  parse_idle a cid (init_packet cmd len bytes) timestamp =
      received (accept_init_packet a cid cmd len bytes timestamp)
  parse_idle a cid (continuation_packet seq bytes) timestamp = (a, err cid unexpected_continuation)

  -- A continuation packet of the current channel is expected, and the packet is from that channel.
  unfoldable pub parse_current :
      Assembler → ChannelId → ProcessedPacket → Timestamp → Assembler × Received
  parse_current a cid (init_packet cmd len bytes) timestamp =
      if cmd == command_init
      then received (accept_init_packet (reset a) cid cmd len bytes timestamp)
      else (reset a, err cid unexpected_init)
  parse_current a cid (continuation_packet seq bytes) timestamp =
      if not (seq == a.seq)
      then (reset a, err cid unexpected_seq)
      else received
          (append_payload (record a { last_timestamp = timestamp; seq = (a.seq + 1) % 256 }) bytes)

  unfoldable pub parse_busy :
      Assembler → ChannelId → ProcessedPacket → Timestamp → Assembler × Received
  parse_busy a cid packet timestamp =
      if not (eq_bytes cid a.cid)
      then (a, err cid unexpected_channel)
      else parse_current a cid packet timestamp

  unfoldable pub parse_in_time :
      Assembler → ChannelId → ProcessedPacket → Timestamp → Assembler × Received
  parse_in_time a cid packet timestamp =
      if a.idle then parse_idle a cid packet timestamp else parse_busy a cid packet timestamp

  -- `timestamp - self.last_timestamp >= CtapHid::TIMEOUT_DURATION`, while a message is assembled.
  unfoldable pub timed_out : Assembler → Timestamp → Bool
  timed_out a timestamp =
      not a.idle && not (is_less (since timestamp a.last_timestamp) (from_ms timeout_ms))

  unfoldable pub parse_packet : Assembler → HidPacket → Timestamp → Assembler × Received
  parse_packet a packet timestamp =
      let (cid, processed) = process_single_packet packet in
      if timed_out a timestamp
      then (if eq_bytes cid a.cid
          then (reset a, err cid timeout)
          else parse_in_time (reset a) cid processed timestamp)
      else parse_in_time a cid processed timestamp
