-- ===== src/Hid/Origin.antt =====
-- The channel of a message or an error of src/ctap/hid/receive.rs is that of the packet.
use open_sk.Common.{ℕ, ◌≡◌, refl, arith, List, take, drop, get_or, bit_and, none, some}
use open_sk.Common.{eq_bytes, eq_bytes→eq, Bool-cases, inl, inr, ◌==◌}
use open_sk.Timer.{Timer}
use open_sk.Hid.Packet.{ChannelId, HidPacket, ProcessedPacket, init_packet}
use open_sk.Hid.Packet.{continuation_packet, process_single_packet}
use open_sk.Hid.Receive.{
  Received, ok, err, Assembler, reset, received, append_payload, command_init,
}
use open_sk.Hid.Receive.{accept_init_packet, parse_idle, parse_current, parse_busy, parse_in_time}
use open_sk.Hid.Receive.{timed_out, parse_packet}

-- The result is about the channel `cid`.
abbrev pub Concerns : ChannelId → Received → Type 0
Concerns cid (ok none) = Unit
Concerns cid (ok (some m)) = m.cid ≡ cid
Concerns cid (err c e) = c ≡ cid

cid-process_single_packet : (packet : HidPacket) → (process_single_packet packet).0 ≡ take 4 packet
unfolding process_single_packet
cid-process_single_packet packet =
    elim (Bool-cases (bit_and (get_or (drop 4 packet) 0 0) 0x80 == 0)) [
      | inl cont ↦ rw cont
      | inr init ↦ rw init
    ]

module _ (t : Timer) where
  open t use {Timestamp}

  append_payload-Concerns :
      (a : Assembler t) (bytes : List ℕ) → Concerns a.cid (received t (append_payload t a bytes)).1
  unfolding append_payload
  append_payload-Concerns a bytes = ground arith

  parse_idle-Concerns :
      (a : Assembler t) (cid : ChannelId) (p : ProcessedPacket) (now : Timestamp)
      → Concerns cid (parse_idle t a cid p now).1
  unfolding parse_idle accept_init_packet
  parse_idle-Concerns a cid (init_packet cmd len bytes) now =
      append_payload-Concerns
        (record a {
          cid = cid;
          last_timestamp = now;
          cmd = cmd;
          seq = 0;
          remaining_payload_len = len;
        })
        bytes
  parse_idle-Concerns a cid (continuation_packet seq bytes) now = refl

  parse_current-Concerns :
      (a : Assembler t) (cid : ChannelId) (p : ProcessedPacket) (now : Timestamp)
      → cid ≡ a.cid
      → Concerns cid (parse_current t a cid p now).1
  unfolding parse_current parse_idle
  parse_current-Concerns a cid (init_packet cmd len bytes) now e =
      elim (Bool-cases (cmd == command_init)) [
        | inl init ↦ rw init (parse_idle-Concerns (reset t a) cid (init_packet cmd len bytes) now)
        | inr other ↦ rw other refl
      ]
  parse_current-Concerns a cid (continuation_packet seq bytes) now e =
      elim (Bool-cases (seq == a.seq)) [
        | inr other ↦ rw other refl
        | inl same ↦
            rw (same, e)
              (append_payload-Concerns (record a { last_timestamp = now; seq = _ }) bytes)
      ]

  parse_in_time-Concerns :
      (a : Assembler t) (cid : ChannelId) (p : ProcessedPacket) (now : Timestamp)
      → Concerns cid (parse_in_time t a cid p now).1
  unfolding parse_in_time parse_busy
  parse_in_time-Concerns a cid p now = elim (Bool-cases a.idle) [
    | inl idle ↦ simp idle (parse_idle-Concerns a cid p now)
    | inr busy ↦ elim (Bool-cases (eq_bytes cid a.cid)) [
      | inl same ↦
          simp (busy, same) (parse_current-Concerns a cid p now (eq_bytes→eq cid a.cid same))
      | inr other ↦ simp (busy, other)
    ]
  ]

  -- A message, and an error too, carries the channel of the packet that it came with.
  pub parse_packet-Concerns :
      (a : Assembler t) (packet : HidPacket) (now : Timestamp)
      → Concerns (take 4 packet) (parse_packet t a packet now).1
  unfolding parse_packet
  parse_packet-Concerns a packet now =
      let cid = (process_single_packet packet).0 in
      let processed = (process_single_packet packet).1 in
      rw (← cid-process_single_packet packet) (elim (Bool-cases (timed_out t a now)) [
        | inr in_time ↦ rw in_time (parse_in_time-Concerns a cid processed now)
        | inl late ↦ elim (Bool-cases (eq_bytes cid a.cid)) [
          | inl same ↦ rw (late, same)
          | inr other ↦ rw (late, other) (parse_in_time-Concerns (reset t a) cid processed now)
        ]
      ])
