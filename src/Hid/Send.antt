-- ===== src/Hid/Send.antt =====
-- src/ctap/hid/send.rs: the split of a message into packets.
use open_sk.Common.{ℕ, zero, suc, ◌+◌, ◌-◌, ◌/◌, ◌%◌, ◌^◌, List, [], ◌∷◌, ◌++◌, take, drop}
use open_sk.Common.{length, replicate, Option, none, some, ltb, leb, bit_or, if◌then◌else◌}
use open_sk.Hid.Packet.{HidPacket, Message, type_init_bit}

-- `packet` is the packet that was sent last; its first four bytes are the channel.
pub record MessageSplitter : Type 0 where
  pub message : Message
  pub packet : HidPacket
  pub seq : Option ℕ
  pub i : ℕ

abbrev pub max_payload : ℕ
max_payload = 7609

unfoldable pub new : Message → Option MessageSplitter
new message =
    if ltb max_payload (length message.payload)
    then none
    else some
        (record { message = message; packet = message.cid ++ replicate 60 0; seq = none; i = 0 })

-- What `dst`, of length `dst_len`, holds after the call, and how many bytes were copied.
unfoldable pub consume_data : ℕ → List ℕ → List ℕ × ℕ
consume_data dst_len bytes =
    if leb (length bytes) dst_len
    then (bytes ++ replicate (dst_len - length bytes) 0, length bytes)
    else (take dst_len bytes, dst_len)

-- Both branches that send write every byte of the packet behind the channel.
unfoldable pub next_init : MessageSplitter → Option HidPacket × MessageSplitter
next_init s =
    let payload_len = length s.message.payload in
    let (bytes, copied) = consume_data 57 s.message.payload in
    let packet' =
      take 4 s.packet
      ++ bit_or s.message.cmd type_init_bit
        ∷ payload_len / 2 ^ 8 % 256
        ∷ payload_len % 256
        ∷ bytes in
    (some packet', record s { packet = packet'; seq = some 0; i = copied })

unfoldable pub next_continuation : ℕ → MessageSplitter → Option HidPacket × MessageSplitter
next_continuation seq s =
    let (bytes, copied) = consume_data 59 (drop s.i s.message.payload) in
    let packet' = take 4 s.packet ++ seq ∷ bytes in
    if ltb s.i (length s.message.payload)
    then (
      some packet',
      record s { packet = packet'; seq = some ((seq + 1) % 256); i = s.i + copied },
    )
    else (none, s)

-- `Iterator::next`
unfoldable pub next : MessageSplitter → Option HidPacket × MessageSplitter
next s = elim s.seq [ none ↦ next_init s | some seq ↦ next_continuation seq s ]

-- `Iterator::collect`, up to `fuel` packets.
unfoldable pub collect : ℕ → MessageSplitter → List HidPacket
collect zero s = []
collect (suc fuel) s = elim (next s).0 [
  | none ↦ []
  | some packet ↦ packet ∷ collect fuel (next s).1
]

-- A message of 7609 bytes fills 129 packets.
abbrev pub max_packets : ℕ
max_packets = 129

-- `HidPacketIterator::new` followed by `collect`.
unfoldable pub split_message : Message → Option (List HidPacket)
split_message message = elim (new message) [
  | none ↦ none
  | some splitter ↦ some (collect max_packets splitter)
]
