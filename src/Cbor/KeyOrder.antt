-- ===== src/Cbor/KeyOrder.antt =====
-- `Ord for KeyType` of values.rs against the canonical order of CTAP2, in which the keys of a map
-- are sorted by their encodings, byte by byte.
use open_sk.Common.{ℕ, zero, suc, ◌*◌, ◌/◌, ◌^◌, ◌≤◌, ◌<◌, ◌≡◌, refl, ◌∙◌, sym, arith}
use open_sk.Common.{List, [], ◌++◌, length, compare}
use open_sk.Common.{append-nil}
use open_sk.Common.Int.{pos, negsuc}
use open_sk.Cbor.Values.{KeyType, unsigned, negative, byte_string, text_string, then_cmp}
use open_sk.Cbor.Values.{cmp_bytes, cmp, key_type_label}
use open_sk.Cbor.Writer.{size_info, size_bytes, size_shift, negative_size}
use open_sk.Cbor.Encoding.{head, encoding_key, IsKey}
use open_sk.Cbor.Size.{top_bytes}
use open_sk.Cbor.Written.{size_info-lt}
use native.Mathlib.Nat.{div-one}

div_mono : (a b n : ℕ) → a ≤ b → a / n ≤ b / n
div_mono a b n h = grind arith

-- Big-endian sizes of one width compare as the numbers do.
cmp_bytes-size_bytes :
    (k a b : ℕ) (xs ys : List ℕ)
    → a / 2 ^ (k * 8) ≡ b / 2 ^ (k * 8)
    → cmp_bytes (size_bytes k a ++ xs) (size_bytes k b ++ ys)
      ≡ then_cmp (compare a b) (cmp_bytes xs ys)
unfolding size_bytes cmp_bytes
cmp_bytes-size_bytes zero a b xs ys h = ground (arith, div-one a, div-one b)
cmp_bytes-size_bytes (suc k) a b xs ys h = ground (
  arith,
  top_bytes k a,
  top_bytes k b,
  div_mono a b (2 ^ (k * 8)),
  div_mono b a (2 ^ (k * 8)),
  cmp_bytes-size_bytes k a b xs ys,
)

size_info_mono : (a b : ℕ) → a ≤ b → size_info a ≤ size_info b
unfolding size_info
size_info_mono a b h = ground arith

-- Sizes with one code have one width, and the bytes behind the first one decide.
same_width :
    (a b : ℕ) (xs ys : List ℕ)
    → a < 2 ^ 64
    → b < 2 ^ 64
    → size_info a ≡ size_info b
    → cmp_bytes (size_bytes (size_shift a) a ++ xs) (size_bytes (size_shift b) b ++ ys)
      ≡ then_cmp (compare a b) (cmp_bytes xs ys)
unfolding size_info size_shift
same_width a b xs ys ha hb h = ground (
  arith,
  cmp_bytes-size_bytes 0 a b xs ys,
  cmp_bytes-size_bytes 1 a b xs ys,
  cmp_bytes-size_bytes 2 a b xs ys,
  cmp_bytes-size_bytes 4 a b xs ys,
  cmp_bytes-size_bytes 8 a b xs ys,
)

cmp_bytes-head :
    (la lb a b : ℕ) (xs ys : List ℕ)
    → a < 2 ^ 64
    → b < 2 ^ 64
    → cmp_bytes (head la a ++ xs) (head lb b ++ ys)
      ≡ then_cmp (compare la lb) (then_cmp (compare a b) (cmp_bytes xs ys))
unfolding head cmp_bytes
cmp_bytes-head la lb a b xs ys ha hb = ground (
  arith,
  size_info-lt a,
  size_info-lt b,
  size_info_mono a b,
  size_info_mono b a,
  same_width a b xs ys ha hb,
)

-- The size in the head of a key, and the bytes behind the head.
key_size : KeyType → ℕ
key_size (unsigned n) = n
key_size (negative z) = negative_size z
key_size (byte_string b) = length b
key_size (text_string t) = length t

key_content : KeyType → List ℕ
key_content (unsigned n) = []
key_content (negative z) = []
key_content (byte_string b) = b
key_content (text_string t) = t

encoding_key-parts :
    (k : KeyType) → encoding_key k ≡ head (key_type_label k) (key_size k) ++ key_content k
unfolding encoding_key key_type_label key_size key_content
encoding_key-parts (unsigned n) = sym (append-nil _)
encoding_key-parts (negative z) = sym (append-nil _)
encoding_key-parts (byte_string b) = refl
encoding_key-parts (text_string t) = refl

key_size-lt : (k : KeyType) → IsKey 64 k → key_size k < 2 ^ 64
unfolding key_size negative_size
key_size-lt (unsigned n) h = h
key_size-lt (negative (pos n)) h = absurd h
key_size-lt (negative (negsuc n)) h = omega arith
key_size-lt (byte_string b) h = h.1
key_size-lt (text_string t) h = h.1

cmp-parts :
    (a b : KeyType)
    → IsKey 64 a
    → IsKey 64 b
    → cmp a b
      ≡ then_cmp
          (compare (key_type_label a) (key_type_label b))
          (then_cmp (compare (key_size a) (key_size b)) (cmp_bytes (key_content a) (key_content b)))
unfolding cmp key_size key_content negative_size
cmp-parts (unsigned a) (unsigned b) ha hb = ground arith
cmp-parts (negative (pos a)) b ha hb = absurd ha
cmp-parts (negative (negsuc a)) (negative (pos b)) ha hb = absurd hb
cmp-parts (negative (negsuc a)) (negative (negsuc b)) ha hb = ground arith
cmp-parts (byte_string a) (byte_string b) ha hb = ground arith
cmp-parts (text_string a) (text_string b) ha hb = ground arith
cmp-parts _ _ ha hb = ground arith

-- Keys compare as their encodings do, byte by byte.
pub cmp-encoding_key :
    (a b : KeyType)
    → IsKey 64 a
    → IsKey 64 b
    → cmp a b ≡ cmp_bytes (encoding_key a) (encoding_key b)
cmp-encoding_key a b ha hb =
    cmp-parts a b ha hb
    ∙ rw (encoding_key-parts a, encoding_key-parts b)
        (sym (cmp_bytes-head _ _ _ _ _ _ (key_size-lt a ha) (key_size-lt b hb)))
