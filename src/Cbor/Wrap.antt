-- ===== src/Cbor/Wrap.antt =====
-- The cast `size_value as usize` of reader.rs on a machine with a 32-bit usize.
use open_sk.Common.{ℕ, suc, ◌+◌, ◌*◌, ◌%◌, ◌^◌, ◌<◌, ◌≡◌, ◌≢◌, ap, ◌∙◌, sym, arith, true}
use open_sk.Common.{List, [], ◌++◌, length, length-append, append-nil}
use open_sk.Cbor.Values.{byte_string, key_value}
use open_sk.Cbor.Writer.{size_shift, Output, write}
use open_sk.Cbor.Reader.{ok, read_content, read_byte_string_content, decode_complete_data_item}
use open_sk.Cbor.Reader.{finish, read}
use open_sk.Cbor.Encoding.{head, encoding, encoding_key, depth}
use open_sk.Cbor.Size.{length-size_bytes, read_bytes-append}
use open_sk.Cbor.Written.{write-flat}
use open_sk.Cbor.RoundTrip.{decode-head}

wrapped_content :
    (k : ℕ) (b : List ℕ)
    → length b < 2 ^ 32
    → read_byte_string_content 32 (k * 2 ^ 32 + length b) (b ++ [])
      ≡ ok (key_value (byte_string b), [])
unfolding read_byte_string_content
wrapped_content k b h = rw (low, read_bytes-append b [], read_byte_string_content)
  where
    low : (k * 2 ^ 32 + length b) % 2 ^ 32 ≡ length b
    low = omega arith

read-wrapped :
    (k : ℕ) (b : List ℕ)
    → k < 2 ^ 32
    → length b < 2 ^ 32
    → read 32 (head 2 (k * 2 ^ 32 + length b) ++ b) ≡ ok (key_value (byte_string b))
unfolding read finish read_content
read-wrapped k b hk h = rw (rw append-nil at decoded)
  where
    decoded :
        decode_complete_data_item 32 5 (head 2 (k * 2 ^ 32 + length b) ++ (b ++ []))
        ≡ ok (key_value (byte_string b), [])
    decoded =
        decode-head 32 (omega arith) 4 2 (k * 2 ^ 32 + length b) (b ++ []) (omega arith)
          (omega arith)
        ∙ wrapped_content k b h

length-head : (label size : ℕ) → length (head label size) ≡ suc (size_shift size)
unfolding head
length-head label size = ap suc (length-size_bytes (size_shift size) size)

not_written :
    (k : ℕ) (b : List ℕ)
    → 0 < k
    → length b < 2 ^ 32
    → head 2 (k * 2 ^ 32 + length b) ++ b ≢ encoding (key_value (byte_string b))
unfolding encoding encoding_key
not_written k b hk h e = ground (
  arith,
  ap length e,
  length-append (head 2 (k * 2 ^ 32 + length b)) b,
  length-append (head 2 (length b)) b,
  length-head 2 (k * 2 ^ 32 + length b),
  length-head 2 (length b),
  wide,
)
  where
    wide : size_shift (length b) < size_shift (k * 2 ^ 32 + length b)
    wide = unfold size_shift in ground arith

-- With a 32-bit usize, a head that announces any multiple of 2 ^ 32 more bytes than there are is
-- accepted, although the writer writes another head for the value that is read.
pub read_wraps :
    (k : ℕ) (b : List ℕ)
    → 0 < k
    → k < 2 ^ 32
    → length b < 2 ^ 32
    → (read 32 (head 2 (k * 2 ^ 32 + length b) ++ b) ≡ ok (key_value (byte_string b)))
      × (write (key_value (byte_string b)) [] ≢ (head 2 (k * 2 ^ 32 + length b) ++ b, true))
unfolding depth
read_wraps k b pos hk h = (read-wrapped k b hk h, other)
  where
    other : write (key_value (byte_string b)) [] ≢ (head 2 (k * 2 ^ 32 + length b) ++ b, true)
    other e =
        not_written k b pos h (
          ap (λ (o : Output). o.0)
            (sym e ∙ write-flat (key_value (byte_string b)) [] (omega arith)))
