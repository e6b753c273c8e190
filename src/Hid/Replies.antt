-- ===== src/Hid/Replies.antt =====
-- The replies of src/ctap/hid/mod.rs: no `unwrap` of a split message fails.
use open_sk.Common.{ℕ, ◌+◌, ◌≤◌, ◌≡◌, ◌≢◌, refl, ap, arith, Bool, List, [], ◌∷◌, ◌++◌}
use open_sk.Common.{length, length-append, none, some}
use open_sk.Common.{inl, inr, Bool-cases}
use open_sk.Timer.{Timer}
use open_sk.Permission.{waiting}
use open_sk.Apdu.Types.{ApduStatusCode, sw_success}
use open_sk.Hid.Packet.{ChannelId, HidPacket, Message}
use open_sk.Hid.Receive.{Received, ok, err, Error, parse_packet, command_init}
use open_sk.Hid.Send.{max_payload}
use open_sk.Hid.Reassembly.{split_message-none_iff}
use open_sk.Hid.Assembler.{IsValid, IsPacket, parse_packet-payload, parse_packet-IsValid}
use open_sk.Hid.Frame.{handle_received-assembler}
use open_sk.Common.{subst}
use open_sk.Hid.Protocol.{Authenticator, Ctap1Result, success, failure, panicked, send}
use open_sk.Hid.Protocol.{
  error_message, ctap1_message, word_bytes, ctap1_error_message, ctap1_success_message,
  cbor_message, to_be_bytes, init_versions,
}
use open_sk.Common.{◌%◌, ◌^◌, take, length-take}
use open_sk.Hid.Origin.{Concerns, parse_packet-Concerns}
use open_sk.Hid.Handler.{
  Transport, handle_msg, handle_cbor, handle_init, handle_wink, handle_command,
}
use open_sk.Hid.Handler.{handle_message, handle_error, handle_received, process_hid_packet}

send-ne-none :
    (cid : ChannelId) (cmd : ℕ) (payload : List ℕ)
    → length payload ≤ max_payload
    → send cid cmd payload ≢ none
unfolding send
send-ne-none cid cmd payload h e = absurd (
    omega
      (arith, (split_message-none_iff (record { cid = cid; cmd = cmd; payload = payload })).0 e))

error_message-ne-none : (cid : ChannelId) (code : ℕ) → error_message cid code ≢ none
unfolding error_message
error_message-ne-none cid code = send-ne-none cid _ (code ∷ []) (omega arith)

cbor_message-ne-none : (cid : ChannelId) (response : List ℕ) → cbor_message cid response ≢ none
unfolding cbor_message
cbor_message-ne-none cid response e = ground (arith, send-ne-none cid 0x10 (0xf0 ∷ []))

handle_error-ne-none :
    (t : Timer) (auth : Authenticator t.ClockValue) (h : Transport t auth) (cid : ChannelId)
    (e : Error)
    → handle_error t auth h cid e ≢ none
unfolding handle_error
handle_error-ne-none t auth h cid e = ground (
  arith,
  error_message-ne-none cid 0x03,
  error_message-ne-none cid 0x04,
  error_message-ne-none cid 0x05,
  error_message-ne-none cid 0x06,
  error_message-ne-none cid 0x0b,
)

word_bytes-le : (code : ApduStatusCode) → length (word_bytes code) ≡ 2
word_bytes-le code = refl

-- CTAP1 does not panic, and its response leaves room for the two bytes of the status.
abbrev pub Fits : Ctap1Result → Type 0
Fits (success reply) = length reply + 2 ≤ max_payload
Fits (failure code) = Unit
Fits panicked = ⊥

ctap1_message-ne-none : (cid : ChannelId) (r : Ctap1Result) → Fits r → ctap1_message cid r ≢ none
unfolding ctap1_message ctap1_success_message ctap1_error_message
ctap1_message-ne-none cid (success reply) h =
    send-ne-none cid _ _ (omega (arith, length-append reply (word_bytes sw_success), h))
ctap1_message-ne-none cid (failure code) h = send-ne-none cid _ (word_bytes code) (omega arith)
ctap1_message-ne-none cid panicked h = absurd h

init_reply-ne-none :
    (cid : ChannelId) (payload : List ℕ) (new_cid : ChannelId) (on : Bool)
    → length payload ≡ 8
    → length new_cid ≤ 4
    → send cid command_init (payload ++ (new_cid ++ init_versions on)) ≢ none
init_reply-ne-none cid payload new_cid on hp hn = send-ne-none cid _ _ (
    omega (
      arith,
      length-append payload (new_cid ++ init_versions on),
      length-append new_cid (init_versions on),
    ))

module _ (t : Timer) (auth : Authenticator t.ClockValue) where
  open t use {ClockValue, from_clock_value}

  handle_msg-ne-none :
      (h : Transport t auth) (s : auth.State) (m : Message) (now : ClockValue)
      → Fits (auth.process_ctap1 m.payload s now).1
      → (handle_msg t auth h s m now).2 ≢ none
  unfolding handle_msg
  handle_msg-ne-none h s m now fits = elim (Bool-cases auth.with_ctap1) [
    | inr off ↦ simp off (error_message-ne-none m.cid 0x01)
    | inl on ↦ simp on (ctap1_message-ne-none m.cid (auth.process_ctap1 m.payload s now).1 fits)
  ]

  handle_init-ne-none :
      (h : Transport t auth) (s : auth.State) (m : Message)
      → length m.cid ≤ 4
      → (handle_init t auth h s m).2 ≢ none
  unfolding handle_init to_be_bytes
  handle_init-ne-none h s m hc =
      let n = (h.allocated_cids + 1) % 2 ^ 32 in
      ground (
        arith,
        error_message-ne-none m.cid 0x03,
        init_reply-ne-none m.cid m.payload (to_be_bytes n) auth.with_ctap1,
        init_reply-ne-none m.cid m.payload m.cid auth.with_ctap1,
      )

  handle_wink-ne-none :
      (h : Transport t auth) (s : auth.State) (m : Message) (now : ClockValue)
      → (handle_wink t auth h s m now).2 ≢ none
  unfolding handle_wink
  handle_wink-ne-none h s m now =
      ground (arith, error_message-ne-none m.cid 0x03, send-ne-none m.cid 0x08 [])

  handle_cbor-ne-none :
      (h : Transport t auth) (s : auth.State) (m : Message) (now : ClockValue)
      → (handle_cbor t auth h s m now).2 ≢ none
  unfolding handle_cbor
  handle_cbor-ne-none h s m now = cbor_message-ne-none m.cid _

  handle_command-ne-none :
      (h : Transport t auth) (s : auth.State) (m : Message) (now : ClockValue)
      → length m.cid ≤ 4
      → length m.payload ≤ max_payload
      → Fits (auth.process_ctap1 m.payload s now).1
      → (handle_command t auth h s m now).2 ≢ none
  unfolding handle_command
  handle_command-ne-none h s m now hc small fits = ground (
    arith,
    handle_msg-ne-none h s m now fits,
    handle_cbor-ne-none h s m now,
    handle_init-ne-none h s m hc,
    send-ne-none m.cid m.cmd m.payload small,
    handle_wink-ne-none h s m now,
    error_message-ne-none m.cid 0x01,
  )

  handle_message-ne-none :
      (h : Transport t auth) (s : auth.State) (m : Message) (now : ClockValue)
      → length m.cid ≤ 4
      → length m.payload ≤ max_payload
      → Fits (auth.process_ctap1 m.payload s now).1
      → (handle_message t auth h s m now).2 ≢ none
  unfolding handle_message
  handle_message-ne-none h s m now hc small fits = ground (
    arith,
    error_message-ne-none m.cid 0x0b,
    handle_command-ne-none (record h { wink_permission = waiting }) s m now hc small fits,
  )

  handle_received-ne-none :
      (h : Transport t auth) (s : auth.State) (r : Received) (now : ClockValue)
      → ((m : Message) → r ≡ ok (some m) → (length m.cid ≤ 4) × (length m.payload ≤ max_payload))
      → ((payload : List ℕ) → Fits (auth.process_ctap1 payload s now).1)
      → (handle_received t auth h s r now).2 ≢ none
  unfolding handle_received
  handle_received-ne-none h s (ok none) now b fits = cc
  handle_received-ne-none h s (ok (some m)) now b fits =
      handle_message-ne-none h s m now (b m refl).0 (b m refl).1 (fits m.payload)
  handle_received-ne-none h s (err cid e) now b fits = handle_error-ne-none t auth h cid e

  -- The replies to a packet, where CTAP1 answers in the state that the packet finds.
  pub process_hid_packet-ne-none :
      (h : Transport t auth) (s : auth.State) (packet : HidPacket) (now : ClockValue)
      → ((payload : List ℕ) → Fits (auth.process_ctap1 payload s now).1)
      → IsValid t h.assembler
      → IsPacket packet
      → let outcome = process_hid_packet t auth h s packet now in
        (outcome.2 ≢ none) × IsValid t outcome.0.assembler
  unfolding process_hid_packet
  process_hid_packet-ne-none h s packet now fits v p = (
    handle_received-ne-none _ s (parse_packet t h.assembler packet (from_clock_value now)).1 now
        (λ m e. (
          channel (
              subst (Concerns (take 4 packet)) e
                (parse_packet-Concerns t h.assembler packet (from_clock_value now))),
          parse_packet-payload t h.assembler packet (from_clock_value now) m v p e,
        ))
        fits,
    rw (handle_received-assembler t auth _ s _ now)
        (parse_packet-IsValid t h.assembler packet (from_clock_value now) v p),
  )
    where
      channel : {cid : ChannelId} → cid ≡ take 4 packet → length cid ≤ 4
      channel e = omega (arith, ap length e, length-take 4 packet)
