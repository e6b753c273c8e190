-- ===== src/Hid/Reassembly.antt =====
-- What send.rs splits, receive.rs puts together again: the harness `split_assemble_hid_packets` of
-- fuzz/fuzz_helper/src/lib.rs, for every message.
use open_sk.Common.{ℕ, suc, ◌+◌, ◌*◌, ◌/◌, ◌%◌, ◌^◌, ◌≤◌, ◌<◌, ◌≡◌, refl, arith, true, false}
use open_sk.Common.{List, [], ◌∷◌, ◌++◌, take, drop, length, none, some}
use open_sk.Common.{length-take, length-drop, ltb}
use mathlib.Core.Option.{some-injective}
use open_sk.Common.{◌↔◌, bit_or, inl, inr, ap, subst, ◌∙◌, sym, Bool-cases, replicate}
use open_sk.Common.{take-append-drop}
use open_sk.Common.{take_exact, lt→ltb, ltb→lt}
use open_sk.Common.Bits.{set_top_bit}
use open_sk.Timer.{Timer}
use open_sk.Hid.Packet.{HidPacket, Message}
use open_sk.Hid.Receive.{Assembler, received}
use open_sk.Hid.Receive.{append_payload, accept_init_packet, parse_idle}
use open_sk.Hid.Receive.{parse_in_time, timed_out, parse_packet}
use open_sk.Hid.Send.{
  MessageSplitter, max_payload, consume_data, next_init, next_continuation, next,
}
use open_sk.Hid.Send.{collect, split_message, max_packets}
use open_sk.Hid.Send
use open_sk.Hid.Chunks.{process-init, length-consume_data, consume_data_part}
use open_sk.Hid.Chunks.{consume_data_all}
use open_sk.Hid.Continuations.{
  parse_all, Delivers, Delivers-cons, collect-step, parse_all-step, IsPrompt,
}
use open_sk.Hid.Continuations.{
  holding, append-part, append-all, continuations-Delivers, collect-end,
}

-- The initialization packet of a message.
first_packet : Message → HidPacket
first_packet m =
    m.cid
    ++ bit_or m.cmd 0x80
      ∷ length m.payload / 2 ^ 8 % 256
      ∷ length m.payload % 256
      ∷ (consume_data 57 m.payload).0

next-first :
    (m : Message)
    → length m.cid ≡ 4
    → next (record { message = m; packet = m.cid ++ replicate 60 0; seq = none; i = 0 }) ≡ (
      some (first_packet m),
      record {
        message = m;
        packet = first_packet m;
        seq = some 0;
        i = (consume_data 57 m.payload).1;
      },
    )
unfolding next next_init first_packet
next-first m hc = simp (take_exact 4 m.cid (replicate 60 0) hc)

new-long : (m : Message) → ltb max_payload (length m.payload) ≡ true → Send.new m ≡ none
unfolding Send.new
new-long m long = rw long

new-short :
    (m : Message)
    → ltb max_payload (length m.payload) ≡ false
    → Send.new m
      ≡ some (record { message = m; packet = m.cid ++ replicate 60 0; seq = none; i = 0 })
unfolding Send.new
new-short m short = rw short

split_message-long :
    (m : Message) → ltb max_payload (length m.payload) ≡ true → split_message m ≡ none
unfolding split_message
split_message-long m long = rw (new-long m long, split_message)

split_message-short :
    (m : Message)
    → ltb max_payload (length m.payload) ≡ false
    → split_message m
      ≡ some (
          collect max_packets
            (record { message = m; packet = m.cid ++ replicate 60 0; seq = none; i = 0 }))
unfolding split_message
split_message-short m short = rw (new-short m short, split_message)

module _ (t : Timer) (now : t.Timestamp) where
  parse-first :
      (a : Assembler t) (m : Message)
      → a.idle ≡ true
      → a.payload ≡ []
      → length m.cid ≡ 4
      → m.cmd < 256
      → length m.payload ≤ max_payload
      → parse_packet t a (first_packet m) now
        ≡ received t (
            append_payload t
              (holding t now true m.cid (m.cmd % 128) 0 (length m.payload) [])
              (consume_data 57 m.payload).0)
  unfolding parse_packet timed_out parse_in_time parse_idle accept_init_packet first_packet
  parse-first a m idle empty hc hcmd fits = simp (
    process-init m.cid (bit_or m.cmd 0x80) (length m.payload / 2 ^ 8 % 256) (length m.payload % 256)
        (consume_data 57 m.payload).0 hc (omega (arith, set_top_bit m.cmd hcmd))
        (omega (arith, set_top_bit m.cmd hcmd)) (omega arith) (length-consume_data 57 m.payload),
    idle,
    empty,
    cmd,
    len,
  )
    where
      cmd : bit_or m.cmd 0x80 % 128 ≡ m.cmd % 128
      cmd = omega (arith, set_top_bit m.cmd hcmd)

      len : length m.payload / 2 ^ 8 % 256 * 256 + length m.payload % 256 ≡ length m.payload
      len = omega arith

  collect-Delivers :
      (a : Assembler t) (m : Message)
      → IsPrompt t now
      → a.idle ≡ true
      → a.payload ≡ []
      → length m.cid ≡ 4
      → m.cmd < 256
      → length m.payload ≤ max_payload
      → Delivers
          (record m { cmd = m.cmd % 128 })
          (parse_all t a
            (collect
              (suc 128)
              (record { message = m; packet = m.cid ++ replicate 60 0; seq = none; i = 0 }))
            now)
  unfolding parse_all
  collect-Delivers a m prompt idle empty hc hcmd fits =
      rw
        (
          collect-step 128 _ (next-first m hc),
          parse_all-step t now _ _ _ (parse-first a m idle empty hc hcmd fits),
        )
        (elim (Bool-cases (ltb 57 (length m.payload))) [
          | inl part ↦
              let more : 57 < length m.payload = ltb→lt 57 (length m.payload) part in
              let copied : (consume_data 57 m.payload).1 ≡ 57 =
                ap (λ (c : List ℕ × ℕ). c.1) (consume_data_part 57 m.payload more) in
              rw (append-part t now true m.cid (m.cmd % 128) 0 [] m.payload 57 more) (
                Delivers-cons _ _ _ refl (
                  continuations-Delivers t now 128 0 (consume_data 57 m.payload).1 m (m.cmd % 128)
                    (first_packet m) (take 57 m.payload) (drop 57 m.payload) prompt hc
                    (unfold first_packet in take_exact 4 m.cid _ hc)
                    (sym (take-append-drop 57 m.payload))
                    (omega (arith, copied, length-take 57 m.payload, more))
                    (omega (arith, length-drop 57 m.payload, more))
                    (omega (arith, length-drop 57 m.payload, more))
                    (omega (arith, length-drop 57 m.payload, more))))
          | inr last ↦
              let small : length m.payload ≤ 57 = ground arith in
              rw (
                collect-end t now 128 0 (consume_data 57 m.payload).1 m (first_packet m)
                    (omega (arith, (consume_data_all 57 m.payload small).1)),
                append-all t now true m.cid (m.cmd % 128) 0 [] m.payload 57 small,
              )
        ])

  -- When an idle assembler takes the packets of a message at one time, it completes nothing before
  -- the last packet, and with that one the message, its command without the top bit. The clock has
  -- to find less than the timeout between a time and itself.
  pub split_message-Delivers :
      (a : Assembler t) (m : Message) (packets : List HidPacket)
      → IsPrompt t now
      → a.idle ≡ true
      → a.payload ≡ []
      → length m.cid ≡ 4
      → m.cmd < 256
      → split_message m ≡ some packets
      → Delivers (record m { cmd = m.cmd % 128 }) (parse_all t a packets now)
  split_message-Delivers a m packets prompt idle empty hc hcmd e =
      elim (Bool-cases (ltb max_payload (length m.payload))) [
        | inl long ↦ cc (split_message-long m long)
        | inr short ↦
            subst (λ ps. Delivers (record m { cmd = m.cmd % 128 }) (parse_all t a ps now))
              (some-injective _ _ (sym (split_message-short m short) ∙ e))
              (collect-Delivers a m prompt idle empty hc hcmd (ground arith))
      ]

-- A message is split exactly when its payload has at most 7609 bytes.
pub split_message-none_iff :
    (m : Message) → (split_message m ≡ none) ↔ (max_payload < length m.payload)
split_message-none_iff m = elim (Bool-cases (ltb max_payload (length m.payload))) [
  | inl long ↦ ((λ e. ltb→lt max_payload _ long), (λ h. split_message-long m long))
  | inr short ↦
      ((λ e. cc (split_message-short m short)), (λ h. cc (lt→ltb max_payload (length m.payload) h)))
]
