-- ===== src/Hid/Echo.antt =====
-- PING over the whole transport: src/ctap/hid/mod.rs.
use open_sk.Common.{
  ◌∙◌, sym, subst, ℕ, ◌≡◌, refl, arith, true, false, List, [], ◌∷◌, length, none, some,
}
use open_sk.Common.{eq_bytes}
use open_sk.Timer.{Timer}
use open_sk.Hid.Packet.{ChannelId, HidPacket, Message, channel_broadcast}
use open_sk.Hid.Receive.{ok, parse_packet}
use open_sk.Hid.Send.{split_message}
use open_sk.Hid.Continuations.{parse_all, Delivers, IsPrompt}
use open_sk.Hid.Reassembly.{split_message-Delivers}
use open_sk.Hid.Protocol.{Authenticator, Reply, send, command_ping}
use open_sk.Hid.Handler.{
  Transport, process_hid_packet, handle_received, handle_message, handle_command,
}
use open_sk.Hid.Handler.{has_valid_channel, is_allocated_channel}

-- Nothing is sent before the last packet, and the reply after it.
abbrev pub Answers : Reply → List Reply → Type 0
Answers reply [] = ⊥
Answers reply (r ∷ []) = r ≡ reply
Answers reply (r ∷ r' ∷ rs) = (r ≡ some []) × Answers reply (r' ∷ rs)

module _ (t : Timer) (auth : Authenticator t.ClockValue) (now : t.ClockValue) where
  -- The replies to packets that come at one time.
  unfoldable pub process_all : Transport t auth → auth.State → List HidPacket → List Reply
  process_all h s [] = []
  process_all h s (packet ∷ packets) =
      let (h', s', reply) = process_hid_packet t auth h s packet now in
      reply ∷ process_all h' s' packets

  abbrev ping : ChannelId → List ℕ → Message
  ping cid payload = record { cid = cid; cmd = command_ping; payload = payload }

  handle_message-ping :
      (h : Transport t auth) (s : auth.State) (cid : ChannelId) (payload : List ℕ)
      → eq_bytes cid channel_broadcast ≡ false
      → is_allocated_channel t auth h cid ≡ true
      → (handle_message t auth h s (ping cid payload) now).2 ≡ split_message (ping cid payload)
  unfolding handle_message handle_command has_valid_channel send
  handle_message-ping h s cid payload hb ha = ground (arith, hb, ha)

  process_hid_packet-none :
      (h : Transport t auth) (s : auth.State) (packet : HidPacket)
      → (parse_packet t h.assembler packet (t.from_clock_value now)).1 ≡ ok none
      → process_hid_packet t auth h s packet now ≡ (
        record h { assembler = (parse_packet t h.assembler packet (t.from_clock_value now)).0 },
        s,
        some [],
      )
  unfolding process_hid_packet handle_received
  process_hid_packet-none h s packet e = rw e refl

  -- The transport with the assembler that a packet leaves.
  abbrev fed : Transport t auth → HidPacket → Transport t auth
  fed h packet = record h {
    assembler = (parse_packet t h.assembler packet (t.from_clock_value now)).0;
  }

  fed-is_allocated_channel :
      (h : Transport t auth) (packet : HidPacket) (cid : ChannelId)
      → is_allocated_channel t auth h cid ≡ true
      → is_allocated_channel t auth (fed h packet) cid ≡ true
  unfolding is_allocated_channel
  fed-is_allocated_channel h packet cid ha = ha

  process_hid_packet-some :
      (h : Transport t auth) (s : auth.State) (packet : HidPacket) (m : Message)
      → (parse_packet t h.assembler packet (t.from_clock_value now)).1 ≡ ok (some m)
      → (process_hid_packet t auth h s packet now).2
        ≡ (handle_message t auth (fed h packet) s m now).2
  unfolding process_hid_packet handle_received
  process_hid_packet-some h s packet m e = rw e refl

  process_all-Answers :
      (h : Transport t auth) (s : auth.State) (cid : ChannelId) (payload : List ℕ)
      (packets : List HidPacket)
      → eq_bytes cid channel_broadcast ≡ false
      → is_allocated_channel t auth h cid ≡ true
      → Delivers (ping cid payload) (parse_all t h.assembler packets (t.from_clock_value now))
      → Answers (split_message (ping cid payload)) (process_all h s packets)
  unfolding process_all parse_all
  process_all-Answers h s cid payload [] hb ha d = d
  process_all-Answers h s cid payload (packet ∷ []) hb ha d =
      process_hid_packet-some h s packet (ping cid payload) d
      ∙ handle_message-ping (fed h packet) s cid payload hb
          (fed-is_allocated_channel h packet cid ha)
  process_all-Answers h s cid payload (packet ∷ next ∷ packets) hb ha d =
      subst
        (λ (o : Transport t auth × auth.State × Reply).
          (o.2 ≡ some [])
          × Answers (split_message (ping cid payload)) (process_all o.0 o.1 (next ∷ packets)))
        (sym (process_hid_packet-none h s packet d.0))
        (
          refl,
          process_all-Answers (fed h packet) s cid payload (next ∷ packets) hb
              (fed-is_allocated_channel h packet cid ha) d.1,
        )

  -- A PING on an allocated channel comes back packet for packet: when an idle transport with an
  -- empty buffer takes the packets that its message is split into at one time, it sends nothing
  -- before the last of them, and then the same packets. The channel has four bytes and is not the
  -- broadcast channel. The clock has to find less than the timeout between a time and itself.
  pub process_all-ping :
      (h : Transport t auth) (s : auth.State) (cid : ChannelId) (payload : List ℕ)
      (packets : List HidPacket)
      → IsPrompt t (t.from_clock_value now)
      → h.assembler.idle ≡ true
      → h.assembler.payload ≡ []
      → length cid ≡ 4
      → eq_bytes cid channel_broadcast ≡ false
      → is_allocated_channel t auth h cid ≡ true
      → split_message (record { cid = cid; cmd = command_ping; payload = payload }) ≡ some packets
      → Answers (some packets) (process_all h s packets)
  process_all-ping h s cid payload packets prompt idle empty hc hb ha e =
      subst (λ reply. Answers reply (process_all h s packets)) e
        (process_all-Answers h s cid payload packets hb ha (
          split_message-Delivers t (t.from_clock_value now) h.assembler (ping cid payload) packets
            prompt idle empty hc (omega arith) e))
