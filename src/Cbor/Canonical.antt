-- ===== src/Cbor/Canonical.antt =====
-- The reader accepts nothing but the writer's output, on a machine with a 64-bit usize.
use open_sk.Common.{ℕ, zero, suc, ◌/◌, ◌%◌, ◌^◌, ◌<◌, ◌≡◌, refl, ◌∙◌, arith}
use open_sk.Common.{true, List, [], ◌∷◌, ◌++◌, bit_and}
use open_sk.Common.{append-nil, All}
use open_sk.Common.{inl, inr, ◌↔◌}
use open_sk.Common.Bits.{low_five_bits, IsByte}
use open_sk.Cbor.Values.{Value}
use open_sk.Cbor.Writer.{size_info, size_bytes, size_shift, write}
use open_sk.Cbor.Reader.{ok, read_content}
use open_sk.Cbor.Reader.{decode_complete_data_item, finish, read, Reader}
use open_sk.Cbor.Reader.{read_variadic_length_integer}
use open_sk.Cbor.Encoding.{head}
use open_sk.Cbor.Encoding.{IsWf}
use open_sk.Cbor.Written.{write-flat}
use open_sk.Cbor.Sound.{item-eq-ok, read_variadic-inverse}
use open_sk.Cbor.Content.{Reads, IsSound, unsigned-Reads, negative-Reads, bytes-Reads, text-Reads}
use open_sk.Cbor.Content.{simple-Reads}
use open_sk.Cbor.RoundTrip.{read-write}
use open_sk.Cbor.Loops.{Result-cases, rest-IsByte, array-Reads, map-Reads}

module _ (d : ℕ) (decode : Reader Value) (sound : IsSound d decode) where
  content-Reads :
      (label size : ℕ) (bs : List ℕ) (v : Value) (rest : List ℕ)
      → size < 2 ^ 64
      → All IsByte bs
      → read_content 64 decode label (size_info size) size bs ≡ ok (v, rest)
      → Reads (suc d) (head label size ++ bs) v rest
  unfolding read_content
  content-Reads zero size bs v rest hs all h = unsigned-Reads d size bs rest v hs h
  content-Reads (suc zero) size bs v rest hs all h = negative-Reads d size bs rest v h
  content-Reads (suc (suc zero)) size bs v rest hs all h = bytes-Reads d size bs rest v hs all h
  content-Reads (suc (suc (suc zero))) size bs v rest hs all h =
      text-Reads d size bs rest v hs all h
  content-Reads (suc (suc (suc (suc zero)))) size bs v rest hs all h =
      array-Reads d decode sound size bs v rest hs all h
  content-Reads (suc (suc (suc (suc (suc zero))))) size bs v rest hs all h =
      map-Reads d decode sound size bs v rest hs all h
  content-Reads (suc (suc (suc (suc (suc (suc zero)))))) size bs v rest hs all h = cc
  content-Reads (suc (suc (suc (suc (suc (suc (suc zero))))))) size bs v rest hs all h =
      simple-Reads d size bs rest v h
  content-Reads (suc (suc (suc (suc (suc (suc (suc (suc n)))))))) size bs v rest hs all h =
      ground arith

-- At every depth the reader accepts encodings only.
decode-IsSound : (d : ℕ) → IsSound d (decode_complete_data_item 64 d)
unfolding decode_complete_data_item
decode-IsSound zero bs v rest all h = cc
decode-IsSound (suc d) [] v rest all h = cc
decode-IsSound (suc d) (first ∷ bs) v rest all h =
    elim (Result-cases (read_variadic_length_integer (bit_and first 0x1f) bs)) [
      | inr (e, failed) ↦ ground arith
      | inl ((size, bs'), e) ↦
          let (info, split, hs) = read_variadic-inverse (bit_and first 0x1f) bs bs' size all.1 e in
          let five : bit_and first 0x1f ≡ first % 32 = low_five_bits first all.0 in
          let content : read_content 64 (decode_complete_data_item 64 d) (first / 2 ^ 5)
                (bit_and first 0x1f) size bs'
              ≡ ok (v, rest) =
            ground arith in
          let whole : first ∷ bs ≡ head (first / 2 ^ 5) size ++ bs' =
            unfold head in ground (arith, five, info, split) in
          rw whole (
            content-Reads d (decode_complete_data_item 64 d) (decode-IsSound d) (first / 2 ^ 5) size
              bs' v rest hs (rest-IsByte bs (size_bytes (size_shift size) size) bs' split all.1)
              (rw info at content))
    ]

finish-eq-ok :
    (w : Value) (rest : List ℕ) (v : Value) → finish (w, rest) ≡ ok v → (w ≡ v) × (rest ≡ [])
unfolding finish
finish-eq-ok w [] v h = (ground arith, refl)
finish-eq-ok w (b ∷ rest) v h = cc

read-canonical :
    (bs : List ℕ) (v : Value)
    → All IsByte bs
    → read 64 bs ≡ ok v
    → IsWf 64 v × (write v [] ≡ (bs, true))
unfolding read
read-canonical bs v all h =
    let (r, e, f) = item-eq-ok (decode_complete_data_item 64 5 bs) _ h in
    let (same, done) = finish-eq-ok r.0 r.1 v f in
    let (split, wf, flat) = decode-IsSound 5 bs v [] all (ground (arith, e, same, done)) in
    (wf, write-flat v [] flat ∙ rw (split, append-nil))

-- The reader accepts a sequence of bytes as a value exactly when the value is one of the Rust type
-- and the sequence is what the writer writes for it. So no value has two encodings, and the reader
-- refuses all but the canonical one. usize has 64 bits here.
pub read-eq-ok_iff :
    (bs : List ℕ) (v : Value)
    → All IsByte bs
    → (read 64 bs ≡ ok v) ↔ (IsWf 64 v × (write v [] ≡ (bs, true)))
read-eq-ok_iff bs v all =
    (read-canonical bs v all, λ (wf, e). read-write 64 v bs (omega arith) wf e)
