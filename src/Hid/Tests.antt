-- ===== src/Hid/Tests.antt =====
-- The transport at concrete packets, with a toy authenticator that echoes.
use open_sk.Common.{ℕ, ◌+◌, ◌≤◌, ◌≡◌, refl, arith, true, false, List, [], ◌∷◌, ◌++◌}
use open_sk.Common.{some, length, replicate, eq_bytes}
use open_sk.Permission.{waiting}
use open_sk.Timer.{ticking}
use open_sk.Hid.Packet.{HidPacket, Message, channel_broadcast, process_single_packet}
use open_sk.Hid.Receive
use open_sk.Hid.Receive.{Assembler, ok, err, unexpected_continuation, parse_packet, command_init}
use open_sk.Hid.Receive.{
  parse_in_time, parse_idle, parse_busy, parse_current, append_payload, reset,
}
use open_sk.Hid.Receive.{accept_init_packet, timed_out}
use open_sk.Hid.Send
use open_sk.Hid.Send.{
  split_message, max_payload, collect, next, next_init, next_continuation, consume_data,
}
use open_sk.Hid.Assembler.{
  IsPacket, IsValid, new-IsValid, parse_packet-IsValid, parse_packet-payload,
}
use open_sk.Hid.Continuations.{parse_all, Delivers}
use open_sk.Hid.Reassembly.{split_message-Delivers}
use open_sk.Hid.Origin.{Concerns, parse_packet-Concerns}
use open_sk.Hid.Protocol.{
  Authenticator, success, send, to_be_bytes, from_be_bytes, init_versions, command_ping,
}
use open_sk.Hid.Handler.{Transport, process_hid_packet, is_allocated_channel, handle_init}
use open_sk.Hid.Echo.{Answers, process_all, process_all-ping}
use open_sk.Hid.Frame.{process_hid_packet-state}
use open_sk.Hid.Channels.{process_hid_packet-channels, handle_init_fresh}

-- It counts its calls; it answers CTAP1 with nothing and CBOR with the request.
abbrev echo : Authenticator ℕ
echo = record {
  State = ℕ;
  with_ctap1 = true;
  process_ctap1 = λ request n now. (n + 1, success []);
  process_command = λ request cid n now. (n + 1, request);
}

abbrev cid : List ℕ
cid = 0 ∷ 0 ∷ 0 ∷ 1 ∷ []

abbrev ping : Message
ping = record { cid = cid; cmd = 0x81; payload = replicate 70 7 }

-- PING on channel 1 with 70 bytes, in two packets.
abbrev ping_packets : List HidPacket
ping_packets =
    (cid ++ (0x81 ∷ 0 ∷ 70 ∷ replicate 57 7))
    ∷ (cid ++ (0 ∷ (replicate 13 7 ++ replicate 46 0)))
    ∷ []

split_ping : split_message ping ≡ some ping_packets
unfolding split_message Send.new collect next next_init next_continuation consume_data
split_ping = refl

split_message-Delivers_example :
    Delivers
      (record { cid = cid; cmd = 0x01; payload = replicate 70 7 })
      (parse_all ticking (Receive.new ticking) ping_packets 5)
unfolding Receive.new
split_message-Delivers_example =
    split_message-Delivers ticking 5 (Receive.new ticking) ping ping_packets refl refl refl refl
      (omega arith) split_ping

split_echo :
    split_message (record { cid = cid; cmd = command_ping; payload = replicate 70 7 })
    ≡ some ping_packets
unfolding split_message Send.new collect next next_init next_continuation consume_data
split_echo = refl

-- INIT on the broadcast channel, with the nonce 1 to 8.
abbrev nonce : List ℕ
nonce = 1 ∷ 2 ∷ 3 ∷ 4 ∷ 5 ∷ 6 ∷ 7 ∷ 8 ∷ []

abbrev init : HidPacket
init = channel_broadcast ++ (0x86 ∷ 0 ∷ 8 ∷ (nonce ++ replicate 49 0))

init-IsPacket : IsPacket init
init-IsPacket = record { size = refl; bytes = omega arith }

abbrev init_message : Message
init_message = record { cid = channel_broadcast; cmd = 0x06; payload = nonce }

parse_packet-IsValid_example : IsValid ticking (parse_packet ticking (Receive.new ticking) init 5).0
parse_packet-IsValid_example =
    parse_packet-IsValid ticking (Receive.new ticking) init 5 (new-IsValid ticking) init-IsPacket

init_parsed : (parse_packet ticking (Receive.new ticking) init 5).1 ≡ ok (some init_message)
unfolding parse_packet process_single_packet timed_out parse_in_time parse_idle accept_init_packet
    append_payload Receive.new
init_parsed = refl

parse_packet-payload_example : length nonce ≤ max_payload
parse_packet-payload_example =
    parse_packet-payload ticking (Receive.new ticking) init 5 init_message (new-IsValid ticking)
      init-IsPacket init_parsed

parse_packet-Concerns_example :
    Concerns channel_broadcast (parse_packet ticking (Receive.new ticking) init 5).1
parse_packet-Concerns_example = parse_packet-Concerns ticking (Receive.new ticking) init 5

-- One channel is allocated.
abbrev transport : Transport ticking echo
transport = record {
  assembler = Receive.new ticking;
  allocated_cids = 1;
  wink_permission = waiting;
}

-- A CBOR command of one byte on channel 2, which is not allocated.
abbrev stray : HidPacket
stray = 0 ∷ 0 ∷ 0 ∷ 2 ∷ 0x90 ∷ 0 ∷ 1 ∷ replicate 57 4

process_hid_packet-state_example : (process_hid_packet ticking echo transport 9 stray 5).1 ≡ 9
unfolding is_allocated_channel from_be_bytes eq_bytes
process_hid_packet-state_example = process_hid_packet-state ticking echo transport 9 stray 5 refl

process_hid_packet-channels_example :
    is_allocated_channel ticking echo (process_hid_packet ticking echo transport 9 init 5).0 cid
    ≡ true
unfolding is_allocated_channel from_be_bytes eq_bytes
process_hid_packet-channels_example =
    process_hid_packet-channels ticking echo transport 9 init 5 cid (omega arith) refl

handle_init_fresh_example :
    let outcome = handle_init ticking echo transport 9 init_message in
    let fresh = to_be_bytes 2 in
    (is_allocated_channel ticking echo transport fresh ≡ false)
    × (is_allocated_channel ticking echo outcome.0 fresh ≡ true)
    × (outcome.2 ≡ send channel_broadcast command_init (nonce ++ (fresh ++ init_versions true)))
handle_init_fresh_example =
    handle_init_fresh ticking echo transport 9 init_message refl refl (omega arith)

process_all-ping_example :
    Answers (some ping_packets) (process_all ticking echo 5 transport 9 ping_packets)
unfolding is_allocated_channel from_be_bytes eq_bytes Receive.new
process_all-ping_example =
    process_all-ping ticking echo 5 transport 9 cid (replicate 70 7) ping_packets refl refl refl
      refl refl refl split_echo
