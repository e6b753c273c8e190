-- ===== src/Hid/Chunks.antt =====
-- One packet of src/ctap/hid: what its bytes are processed to, and the chunk of the payload in it.
use open_sk.Common.{ℕ, ◌+◌, ◌-◌, ◌*◌, ◌%◌, ◌≤◌, ◌<◌, ◌≡◌, arith}
use open_sk.Common.{List, ◌∷◌, ◌++◌, take, length}
use open_sk.Common.{length-take, length-append}
use open_sk.Common.{bit_and, replicate, length-replicate}
use open_sk.Common.{take-append, take_all}
use open_sk.Common.{take_exact, drop_exact}
use open_sk.Common.Bits.{top_bit, low_seven_bits}
use open_sk.Common.Or.{bit_or_disjoint}
use open_sk.Hid.Packet.{ChannelId, init_packet}
use open_sk.Hid.Packet.{continuation_packet, process_single_packet}
use open_sk.Hid.Send.{consume_data}

pub process-continuation :
    (cid : ChannelId) (s : ℕ) (bytes : List ℕ)
    → length cid ≡ 4
    → s < 128
    → length bytes ≡ 59
    → process_single_packet (cid ++ s ∷ bytes) ≡ (cid, continuation_packet s bytes)
unfolding process_single_packet
process-continuation cid s bytes hc hs hb =
    rw (
      drop_exact 4 cid (s ∷ bytes) hc,
      take_exact 4 cid (s ∷ bytes) hc,
      low,
      take_all 59 bytes fits,
    )
  where
    low : bit_and s 0x80 ≡ 0
    low = omega (arith, top_bit s (omega arith))

    fits : length bytes ≤ 59
    fits = omega arith

pub process-init :
    (cid : ChannelId) (kind high low : ℕ) (bytes : List ℕ)
    → length cid ≡ 4
    → 128 ≤ kind
    → kind < 256
    → low < 256
    → length bytes ≡ 57
    → process_single_packet (cid ++ kind ∷ high ∷ low ∷ bytes)
      ≡ (cid, init_packet (kind % 128) (high * 256 + low) bytes)
unfolding process_single_packet
process-init cid kind high low bytes hc h128 hk hl hb = rw (
  drop_exact 4 cid (kind ∷ high ∷ low ∷ bytes) hc,
  take_exact 4 cid (kind ∷ high ∷ low ∷ bytes) hc,
  top,
  low_seven_bits kind hk,
  bit_or_disjoint 8 high low hl,
  take_all 57 bytes fits,
)
  where
    top : bit_and kind 0x80 ≡ 128
    top = omega (arith, top_bit kind hk)

    fits : length bytes ≤ 57
    fits = omega arith

-- A chunk of the payload fills its part of the packet.
pub length-consume_data : (n : ℕ) (bs : List ℕ) → length (consume_data n bs).0 ≡ n
unfolding consume_data
length-consume_data n bs = ground (
  arith,
  length-append bs (replicate (n - length bs) 0),
  length-replicate {A = ℕ} (n - length bs) 0,
  length-take n bs,
)

pub consume_data_part : (n : ℕ) (bs : List ℕ) → n < length bs → consume_data n bs ≡ (take n bs, n)
unfolding consume_data
consume_data_part n bs h = ground arith

pub consume_data_all :
    (n : ℕ) (bs : List ℕ)
    → length bs ≤ n
    → (take (length bs) (consume_data n bs).0 ≡ bs) × ((consume_data n bs).1 ≡ length bs)
unfolding consume_data
consume_data_all n bs h = ground (arith, take-append bs (replicate (n - length bs) 0))
