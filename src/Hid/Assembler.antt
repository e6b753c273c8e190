-- ===== src/Hid/Assembler.antt =====
-- The invariant of the message assembler of src/ctap/hid/receive.rs.
use open_sk.Common.{ℕ, ◌+◌, ◌*◌, ◌%◌, ◌^◌, ◌≤◌, ◌<◌, ◌≡◌, refl, arith, true, false}
use open_sk.Common.{List, [], take, drop, get_or, length, All, Option, none, some}
use open_sk.Common.{length-take, length-drop, length-append, ◌==◌, eq_bytes, Bool-cases}
use open_sk.Common.{bit_and, bit_or, inl, inr, ap, subst}
use open_sk.Common.Bits.{IsByte, get_or-IsByte, drop-IsByte, top_bit, low_seven_bits}
use open_sk.Common.Or.{bit_or_disjoint}
use open_sk.Timer.{Timer}
use open_sk.Hid.Packet.{ChannelId, HidPacket, Message, ProcessedPacket, init_packet}
use open_sk.Hid.Packet.{continuation_packet, process_single_packet}
use open_sk.Hid.Receive.{Received, ok, err, Assembler, new, reset, received}
use open_sk.Hid.Receive.{append_payload, accept_init_packet, parse_idle, parse_current, parse_busy}
use open_sk.Hid.Receive.{parse_in_time, timed_out, parse_packet, command_init}
use open_sk.Hid.Send.{max_payload}

-- A packet as it comes over USB.
pub record IsPacket (packet : HidPacket) : Type 0 where
  pub size : length packet ≡ 64
  pub bytes : All IsByte packet

-- What a packet of 64 bytes is processed to.
abbrev pub IsProcessed : ProcessedPacket → Type 0
IsProcessed (init_packet cmd len bytes) = (cmd < 128) × (len < 2 ^ 16) × (length bytes ≡ 57)
IsProcessed (continuation_packet seq bytes) = (seq < 128) × (length bytes ≡ 59)

kind-lt : (kind : ℕ) → kind < 256 → (bit_and kind 0x80 == 0) ≡ true → kind < 128
kind-lt kind h e = ground (arith, top_bit kind h)

length_field-lt : (high low : ℕ) → high < 256 → low < 256 → bit_or (high * 2 ^ 8) low < 2 ^ 16
length_field-lt high low hh hl = omega (arith, bit_or_disjoint 8 high low hl)

pub process_single_packet-IsProcessed :
    (packet : HidPacket) → IsPacket packet → IsProcessed (process_single_packet packet).1
unfolding process_single_packet
process_single_packet-IsProcessed packet p = elim (Bool-cases (bit_and kind 0x80 == 0)) [
  | inl cont ↦ rw cont (kind-lt kind (get_or-IsByte rest 0 bytes) cont, size_59)
  | inr init ↦ rw init (
    omega (arith, low_seven_bits kind (get_or-IsByte rest 0 bytes)),
    length_field-lt _ _ (get_or-IsByte rest 1 bytes) (get_or-IsByte rest 2 bytes),
    size_57,
  )
]
  where
    rest : List ℕ
    rest = drop 4 packet

    kind : ℕ
    kind = get_or (drop 4 packet) 0 0

    bytes : All IsByte (drop 4 packet)
    bytes = drop-IsByte 4 packet p.bytes

    size_57 : length (take 57 (drop 3 (drop 4 packet))) ≡ 57
    size_57 = omega (
      arith,
      length-take 57 (drop 3 (drop 4 packet)),
      length-drop 3 (drop 4 packet),
      length-drop 4 packet,
      p.size,
    )

    size_59 : length (take 59 (drop 1 (drop 4 packet))) ≡ 59
    size_59 = omega (
      arith,
      length-take 59 (drop 1 (drop 4 packet)),
      length-drop 1 (drop 4 packet),
      length-drop 4 packet,
      p.size,
    )

module _ (t : Timer) where
  open t use {Timestamp}

  -- An idle assembler holds no payload. A busy one has read 57 bytes and 59 more for each
  -- continuation packet, and lacks some.
  pub record IsValid (a : Assembler t) : Type 0 where
    pub idle_empty : a.idle ≡ true → a.payload ≡ []
    pub busy_partial : a.idle ≡ false → 0 < a.remaining_payload_len
    pub busy_length : a.idle ≡ false → length a.payload ≡ 57 + 59 * a.seq
    pub busy_seq : a.idle ≡ false → a.seq ≤ 128

  pub new-IsValid : IsValid (new t)
  unfolding new
  new-IsValid = ground arith

  pub reset-IsValid : (a : Assembler t) → IsValid (reset t a)
  unfolding reset
  reset-IsValid a = ground arith

  -- A payload that was completed fits the largest message.
  abbrev Fits : Option Message → Type 0
  Fits none = Unit
  Fits (some m) = length m.payload ≤ max_payload

  abbrev Delivered : Received → Type 0
  Delivered (ok m) = Fits m
  Delivered (err cid e) = Unit

  abbrev IsGood : Assembler t × Received → Type 0
  IsGood (a, r) = IsValid a × Delivered r

  append_payload-IsGood :
      (a : Assembler t) (bytes : List ℕ)
      → length a.payload + length bytes ≡ 57 + 59 * a.seq
      → a.seq ≤ 128
      → IsGood (received t (append_payload t a bytes))
  unfolding append_payload
  append_payload-IsGood a bytes len h = ground (
    arith,
    length-append a.payload bytes,
    length-append a.payload (take a.remaining_payload_len bytes),
    length-take a.remaining_payload_len bytes,
  )

  accept_init_packet-IsGood :
      (a : Assembler t) (cid : ChannelId) (cmd len : ℕ) (bytes : List ℕ) (now : Timestamp)
      → a.payload ≡ []
      → length bytes ≡ 57
      → IsGood (received t (accept_init_packet t a cid cmd len bytes now))
  unfolding accept_init_packet
  accept_init_packet-IsGood a cid cmd len bytes now empty size =
      append_payload-IsGood
        (record a {
          cid = cid;
          last_timestamp = now;
          cmd = cmd;
          seq = 0;
          remaining_payload_len = len;
        })
        bytes (omega (arith, ap length empty, size)) (omega arith)

  parse_idle-IsGood :
      (a : Assembler t) (cid : ChannelId) (packet : ProcessedPacket) (now : Timestamp)
      → a.idle ≡ true
      → IsValid a
      → IsProcessed packet
      → IsGood (parse_idle t a cid packet now)
  unfolding parse_idle
  parse_idle-IsGood a cid (init_packet cmd len bytes) now idle v p =
      accept_init_packet-IsGood a cid cmd len bytes now (v.idle_empty idle) p.2
  parse_idle-IsGood a cid (continuation_packet seq bytes) now idle v p = (v, tt)

  parse_current-IsGood :
      (a : Assembler t) (cid : ChannelId) (packet : ProcessedPacket) (now : Timestamp)
      → a.idle ≡ false
      → IsValid a
      → IsProcessed packet
      → IsGood (parse_current t a cid packet now)
  unfolding parse_current
  parse_current-IsGood a cid (init_packet cmd len bytes) now busy v p =
      elim (Bool-cases (cmd == command_init)) [
        | inl init ↦
            rw init (
              accept_init_packet-IsGood (reset t a) cid cmd len bytes now (unfold reset in refl)
                p.2)
        | inr other ↦ rw other (reset-IsValid a, tt)
      ]
  parse_current-IsGood a cid (continuation_packet seq bytes) now busy v p =
      elim (Bool-cases (seq == a.seq)) [
        | inl same ↦ rw same (
            append_payload-IsGood (record a { last_timestamp = now; seq = (a.seq + 1) % 256 }) bytes
              (ground (arith, v.busy_length busy)) (ground arith))
        | inr other ↦ rw other (reset-IsValid a, tt)
      ]

  parse_in_time-IsGood :
      (a : Assembler t) (cid : ChannelId) (packet : ProcessedPacket) (now : Timestamp)
      → IsValid a
      → IsProcessed packet
      → IsGood (parse_in_time t a cid packet now)
  unfolding parse_in_time parse_busy
  parse_in_time-IsGood a cid packet now v p = elim (Bool-cases a.idle) [
    | inl idle ↦ simp idle (parse_idle-IsGood a cid packet now idle v p)
    | inr busy ↦ elim (Bool-cases (eq_bytes cid a.cid)) [
      | inl same ↦ simp (busy, same) (parse_current-IsGood a cid packet now busy v p)
      | inr other ↦ simp (busy, other) (v, tt)
    ]
  ]

  parse_packet-IsGood :
      (a : Assembler t) (packet : HidPacket) (now : Timestamp)
      → IsValid a
      → IsPacket packet
      → IsGood (parse_packet t a packet now)
  unfolding parse_packet
  parse_packet-IsGood a packet now v p =
      let (cid, processed) = process_single_packet packet in
      let q = process_single_packet-IsProcessed packet p in
      elim (Bool-cases (timed_out t a now)) [
        | inr in_time ↦ rw in_time (parse_in_time-IsGood a cid processed now v q)
        | inl late ↦ elim (Bool-cases (eq_bytes cid a.cid)) [
          | inl same ↦ rw (late, same) (reset-IsValid a, tt)
          | inr other ↦
              rw (late, other)
                (parse_in_time-IsGood (reset t a) cid processed now (reset-IsValid a) q)
        ]
      ]

  -- Whatever packet comes in at whatever time, the assembler stays valid.
  pub parse_packet-IsValid :
      (a : Assembler t) (packet : HidPacket) (now : Timestamp)
      → IsValid a
      → IsPacket packet
      → IsValid (parse_packet t a packet now).0
  parse_packet-IsValid a packet now v p = (parse_packet-IsGood a packet now v p).0

  -- A message that the assembler completes has at most 7609 bytes of payload, so that it can be
  -- split into packets again.
  pub parse_packet-payload :
      (a : Assembler t) (packet : HidPacket) (now : Timestamp) (m : Message)
      → IsValid a
      → IsPacket packet
      → (parse_packet t a packet now).1 ≡ ok (some m)
      → length m.payload ≤ max_payload
  parse_packet-payload a packet now m v p e =
      subst Delivered e (parse_packet-IsGood a packet now v p).1
