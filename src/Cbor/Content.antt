-- ===== src/Cbor/Content.antt =====
-- What reader.rs accepts behind the head of an item without elements, on a 64-bit usize.
use open_sk.Common.{ℕ, suc, ◌^◌, ◌≤◌, ◌<◌, ◌≡◌, arith}
use open_sk.Common.{List, ◌++◌, append_assoc}
use open_sk.Common.{All, All-append_left, subst}
use open_sk.Common.{Option-cases, inl, inr}
use open_sk.Common.Bits.{IsByte}
use open_sk.Cbor.Values.{unsigned, simple_code}
use open_sk.Cbor.Values.{from_integer}
use open_sk.Cbor.Values.{Value, key_value}
use open_sk.Cbor.Writer.{size_info}
use open_sk.Cbor.Writer.{negative_size}
use open_sk.Cbor.Reader.{ok}
use open_sk.Cbor.Reader.{read_byte_string_content, read_text_string_content, decode_to_simple_value}
use open_sk.Cbor.Reader.{decode_value_to_negative, Reader}
use open_sk.Cbor.Reader.{Result, read_bytes}
use open_sk.Cbor.Encoding.{head, encoding_key, encoding}
use open_sk.Cbor.Encoding.{depth, IsWf}
use open_sk.Cbor.Sound.{read_bytes-eq-some}
use native.Mathlib.Nat.{mod-eq_of_lt}

-- `bs` is the encoding of `v` with `rest` behind it, and `v` is a value of the Rust type that nests
-- at most `d` deep.
abbrev pub Reads : ℕ → List ℕ → Value → List ℕ → Type 0
Reads d bs v rest = (bs ≡ encoding v ++ rest) × IsWf 64 v × (depth v ≤ d)

abbrev pub IsSound : ℕ → Reader Value → Type 0
IsSound d decode =
    (bs : List ℕ) (v : Value) (rest : List ℕ)
    → All IsByte bs
    → decode bs ≡ ok (v, rest)
    → Reads d bs v rest

pub unsigned-Reads :
    (d size : ℕ) (bs rest : List ℕ) (v : Value)
    → size < 2 ^ 64
    → ◌≡◌ {A = Result (Value × List ℕ)} (ok (key_value (unsigned size), bs)) (ok (v, rest))
    → Reads (suc d) (head 0 size ++ bs) v rest
unfolding encoding encoding_key IsWf depth
unsigned-Reads d size bs rest v hs h = ground arith

pub negative-Reads :
    (d size : ℕ) (bs rest : List ℕ) (v : Value)
    → decode_value_to_negative size bs ≡ ok (v, rest)
    → Reads (suc d) (head 1 size ++ bs) v rest
unfolding encoding encoding_key IsWf depth decode_value_to_negative negative_size
negative-Reads d size bs rest v h = ground arith

pub bytes-Reads :
    (d size : ℕ) (bs rest : List ℕ) (v : Value)
    → size < 2 ^ 64
    → All IsByte bs
    → read_byte_string_content 64 size bs ≡ ok (v, rest)
    → Reads (suc d) (head 2 size ++ bs) v rest
unfolding encoding encoding_key IsWf depth read_byte_string_content
bytes-Reads d size bs rest v hs all h = elim (Option-cases (read_bytes size bs)) [
  | inl e ↦ cc (rw (mod-eq_of_lt hs, e, read_byte_string_content) at h)
  | inr ((left, right), e) ↦
      let (split, len) = read_bytes-eq-some size bs left right e in
      let bytes : All IsByte left =
        All-append_left IsByte left right (subst (All IsByte) split all) in
      ground (arith, mod-eq_of_lt hs, e, split, len, append_assoc (head 2 size) left right)
]

pub text-Reads :
    (d size : ℕ) (bs rest : List ℕ) (v : Value)
    → size < 2 ^ 64
    → All IsByte bs
    → read_text_string_content 64 size bs ≡ ok (v, rest)
    → Reads (suc d) (head 3 size ++ bs) v rest
unfolding encoding encoding_key IsWf depth read_text_string_content
text-Reads d size bs rest v hs all h = elim (Option-cases (read_bytes size bs)) [
  | inl e ↦ cc (rw (mod-eq_of_lt hs, e, read_text_string_content) at h)
  | inr ((left, right), e) ↦
      let (split, len) = read_bytes-eq-some size bs left right e in
      let bytes : All IsByte left =
        All-append_left IsByte left right (subst (All IsByte) split all) in
      ground (arith, mod-eq_of_lt hs, e, split, len, append_assoc (head 3 size) left right)
]

pub simple-Reads :
    (d size : ℕ) (bs rest : List ℕ) (v : Value)
    → decode_to_simple_value size (size_info size) bs ≡ ok (v, rest)
    → Reads (suc d) (head 7 size ++ bs) v rest
unfolding encoding IsWf depth decode_to_simple_value from_integer simple_code
simple-Reads d size bs rest v h = ground arith
