-- ===== src/Hid/Continuations.antt =====
-- The continuation packets of a message, as send.rs makes them and receive.rs takes them.
use open_sk.Common.{ℕ, zero, suc, ◌+◌, ◌*◌, ◌%◌, ◌≤◌, ◌<◌, ◌≡◌, refl, arith, Bool, true, false}
use open_sk.Common.{List, [], ◌∷◌, ◌++◌, take, drop, length, none, some}
use open_sk.Common.{length-take, length-drop, length-append, ltb, ◌==◌}
use open_sk.Common.{inl, inr, ap, Bool-cases}
use open_sk.Common.{drop-append, take-append-drop, eq_bytes_refl, append_assoc}
use open_sk.Common.{take_exact, lt→ltb, ltb→lt}
use open_sk.Timer.{Timer}
use open_sk.Hid.Packet.{ChannelId, HidPacket, Message}
use open_sk.Hid.Receive.{Received, ok, Assembler, received}
use open_sk.Hid.Receive.{append_payload, parse_current, parse_busy}
use open_sk.Hid.Receive.{parse_in_time, timed_out, parse_packet, timeout_ms}
use open_sk.Hid.Send.{MessageSplitter, consume_data, next_continuation, next}
use open_sk.Hid.Send.{collect}
use open_sk.Hid.Chunks.{process-continuation, length-consume_data, consume_data_part}
use open_sk.Hid.Chunks.{consume_data_all}

-- The results of a list of packets that come in one after the other.
unfoldable pub parse_all : (t : Timer) → Assembler t → List HidPacket → t.Timestamp → List Received
parse_all t a [] now = []
parse_all t a (packet ∷ packets) now =
    let (a', r) = parse_packet t a packet now in r ∷ parse_all t a' packets now

-- The last packet completes the message, and those before it complete nothing.
abbrev pub Delivers : Message → List Received → Type 0
Delivers m [] = ⊥
Delivers m (r ∷ []) = r ≡ ok (some m)
Delivers m (r ∷ s ∷ rs) = (r ≡ ok none) × Delivers m (s ∷ rs)

pub Delivers-cons :
    (m : Message) (r : Received) (rs : List Received)
    → r ≡ ok none
    → Delivers m rs
    → Delivers m (r ∷ rs)
Delivers-cons m r [] e d = absurd d
Delivers-cons m r (s ∷ rs) e d = (e, d)

pub collect-step :
    (f : ℕ) (s : MessageSplitter) {s' : MessageSplitter} {packet : HidPacket}
    → next s ≡ (some packet, s')
    → collect (suc f) s ≡ packet ∷ collect f s'
unfolding collect
collect-step f s e = ground (arith, e)

pub parse_all-step :
    (t : Timer) (now : t.Timestamp) (a : Assembler t) (packet : HidPacket) {a' : Assembler t}
    {r : Received} (packets : List HidPacket)
    → parse_packet t a packet now ≡ (a', r)
    → parse_all t a (packet ∷ packets) now ≡ r ∷ parse_all t a' packets now
unfolding parse_all
parse_all-step t now a packet packets e = rw e

module _ (t : Timer) (now : t.Timestamp) where
  -- An assembler that has `done` of a payload on the channel `cid`, and lacks `lacks` bytes.
  abbrev pub holding : Bool → ChannelId → ℕ → ℕ → ℕ → List ℕ → Assembler t
  holding idle cid cmd seq lacks done = record {
    idle = idle;
    cid = cid;
    last_timestamp = now;
    cmd = cmd;
    seq = seq;
    remaining_payload_len = lacks;
    payload = done;
  }

  abbrev pub busy : ChannelId → ℕ → ℕ → ℕ → List ℕ → Assembler t
  busy = holding false

  -- Less than the timeout lies between two packets at one time.
  abbrev pub IsPrompt : Type 0
  IsPrompt = t.is_less (t.since now now) (t.from_ms timeout_ms) ≡ true

  parse-continuation :
      (cid : ChannelId) (cmd s lacks : ℕ) (done bytes : List ℕ)
      → IsPrompt
      → length cid ≡ 4
      → s < 128
      → length bytes ≡ 59
      → parse_packet t (busy cid cmd s lacks done) (cid ++ s ∷ bytes) now
        ≡ received t (append_payload t (busy cid cmd (suc s) lacks done) bytes)
  unfolding parse_packet timed_out parse_in_time parse_busy parse_current
  parse-continuation cid cmd s lacks done bytes prompt hc hs hb =
      rw (process-continuation cid s bytes hc hs hb, prompt, eq_bytes_refl cid, same, seq)
    where
      same : (s == s) ≡ true
      same = ground arith

      seq : (s + 1) % 256 ≡ suc s
      seq = omega arith

  next-continuation :
      (s i : ℕ) (m : Message) (packet : HidPacket) (done todo : List ℕ)
      → take 4 packet ≡ m.cid
      → m.payload ≡ done ++ todo
      → 0 < length todo
      → s < 128
      → i ≡ length done
      → next (record { message = m; packet = packet; seq = some s; i = i }) ≡ (
        some (m.cid ++ s ∷ (consume_data 59 todo).0),
        record {
          message = m;
          packet = m.cid ++ s ∷ (consume_data 59 todo).0;
          seq = some (suc s);
          i = i + (consume_data 59 todo).1;
        },
      )
  unfolding next next_continuation
  next-continuation s i m packet done todo hp split pos hs hi = simp (more, rest, seq, hp)
    where
      more : ltb i (length m.payload) ≡ true
      more = lt→ltb _ _ (omega (arith, ap length split, length-append done todo))

      rest : drop i m.payload ≡ todo
      rest = rw (split, hi) (drop-append done todo)

      seq : (s + 1) % 256 ≡ suc s
      seq = omega arith

  pub next-end :
      (s i : ℕ) (m : Message) (packet : HidPacket)
      → length m.payload ≤ i
      → (next (record { message = m; packet = packet; seq = some s; i = i })).0 ≡ none
  unfolding next next_continuation
  next-end s i m packet h = ground arith

  pub collect-end :
      (f s i : ℕ) (m : Message) (packet : HidPacket)
      → length m.payload ≤ i
      → collect f (record { message = m; packet = packet; seq = some s; i = i }) ≡ []
  unfolding collect
  collect-end zero s i m packet h = refl
  collect-end (suc f) s i m packet h = rw (next-end s i m packet h, collect)

  -- What the assembler makes of a chunk: more is to come, or the chunk completes the message.
  pub append-part :
      (idle : Bool) (cid : ChannelId) (cmd s : ℕ) (done todo : List ℕ) (n : ℕ)
      → n < length todo
      → append_payload t (holding idle cid cmd s (length todo) done) (consume_data n todo).0
        ≡ (busy cid cmd s (length (drop n todo)) (done ++ take n todo), none)
  unfolding append_payload
  append-part idle cid cmd s done todo n h = ground (
    arith,
    length-consume_data n todo,
    ap (λ (c : List ℕ × ℕ). c.0) (consume_data_part n todo h),
    length-drop n todo,
  )

  pub append-all :
      (idle : Bool) (cid : ChannelId) (cmd s : ℕ) (done todo : List ℕ) (n : ℕ)
      → length todo ≤ n
      → (append_payload t (holding idle cid cmd s (length todo) done) (consume_data n todo).0).1
        ≡ some (record { cid = cid; cmd = cmd; payload = done ++ todo })
  unfolding append_payload
  append-all idle cid cmd s done todo n h =
      ground (arith, length-consume_data n todo, (consume_data_all n todo h).0)

  -- The packets from the one with number `s` on, when `done` is what the packets before it held.
  pub continuations-Delivers :
      (f s i : ℕ) (m : Message) (cmd : ℕ) (packet : HidPacket) (done todo : List ℕ)
      → IsPrompt
      → length m.cid ≡ 4
      → take 4 packet ≡ m.cid
      → m.payload ≡ done ++ todo
      → i ≡ length done
      → 0 < length todo
      → length todo ≤ 59 * f
      → length todo + 59 * s ≤ 59 * 128
      → Delivers
          (record m { cmd = cmd })
          (parse_all t
            (busy m.cid cmd s (length todo) done)
            (collect f (record { message = m; packet = packet; seq = some s; i = i }))
            now)
  unfolding parse_all collect
  continuations-Delivers zero s i m cmd packet done todo prompt hc hp split hi pos enough bound =
      absurd (omega arith)
  continuations-Delivers (suc f) s i m cmd packet done todo prompt hc hp split hi pos enough bound =
      rw
        (
          collect-step f _ (next-continuation s i m packet done todo hp split pos (omega arith) hi),
          parse_all-step t now _ _ _ (
              parse-continuation m.cid cmd s (length todo) done (consume_data 59 todo).0 prompt hc
                (omega arith) (length-consume_data 59 todo)),
        )
        (elim (Bool-cases (ltb 59 (length todo))) [
          | inl part ↦
              let more : 59 < length todo = ltb→lt 59 (length todo) part in
              let copied : (consume_data 59 todo).1 ≡ 59 =
                ap (λ (c : List ℕ × ℕ). c.1) (consume_data_part 59 todo more) in
              rw (append-part false m.cid cmd (suc s) done todo 59 (ground arith)) (
                Delivers-cons _ _ _ refl (
                  continuations-Delivers f (suc s) (i + (consume_data 59 todo).1) m cmd
                    (m.cid ++ s ∷ (consume_data 59 todo).0) (done ++ take 59 todo) (drop 59 todo)
                    prompt hc (take_exact 4 m.cid _ hc)
                    (rw (append_assoc, take-append-drop 59 todo) split)
                    (omega
                      (arith, copied, length-append done (take 59 todo), length-take 59 todo, more))
                    (omega (arith, length-drop 59 todo, more))
                    (omega (arith, length-drop 59 todo, more))
                    (omega (arith, length-drop 59 todo, more))))
          | inr last ↦
              let fits : length todo ≤ 59 = ground arith in
              let copied : (consume_data 59 todo).1 ≡ length todo =
                (consume_data_all 59 todo fits).1 in
              rw (
                collect-end f (suc s) (i + (consume_data 59 todo).1) m
                    (m.cid ++ s ∷ (consume_data 59 todo).0)
                    (omega (arith, copied, ap length split, length-append done todo)),
                append-all false m.cid cmd (suc s) done todo 59 fits,
                split,
              )
        ])
