-- ===== src/Cbor/Writer.antt =====
-- libraries/cbor/src/writer.rs: the writer, with its output buffer passed along. The argument
-- `depth` is `remaining_depth + 1`, so that the source's test `remaining_depth < 0` is the case 0.
use open_sk.Common.{ℕ, zero, suc, ◌+◌, ◌-◌, ◌*◌, ◌/◌, ◌%◌, ◌^◌, Bool, true, false, bit_or}
use open_sk.Common.{List, [], ◌∷◌, ◌++◌, length, leb, if◌then◌else◌, ◌≡◌, refl}
use open_sk.Common.Int.{ℤ, pos, negsuc}
use open_sk.Cbor.Values.{unsigned, negative, byte_string, text_string, simple_code}
use open_sk.Cbor.Values.{true_value}
use open_sk.Cbor.Values.{Value, Items, Entries, key_value, array, map, simple}
use open_sk.Cbor.Values.{no_items, item, no_entries, entry}

-- The buffer after the call, and the result of the call.
abbrev pub Output : Type 0
Output = List ℕ × Bool

-- How many bytes of the size follow the first byte of an item.
unfoldable pub size_shift : ℕ → ℕ
size_shift size =
    if leb size 23
    then 0
    else if leb size 0xff
    then 1
    else if leb size 0xffff
    then 2
    else if leb size 0xffff_ffff
    then 4
    else 8

-- The low five bits of the first byte: the size itself, or the code of its width.
unfoldable pub size_info : ℕ → ℕ
size_info size =
    if leb size 23
    then size
    else if leb size 0xff
    then 24
    else if leb size 0xffff
    then 25
    else if leb size 0xffff_ffff
    then 26
    else 27

-- The bytes that `for i in (0..shift).rev()` pushes.
unfoldable pub size_bytes : ℕ → ℕ → List ℕ
size_bytes zero size = []
size_bytes (suc i) size = size / 2 ^ (i * 8) % 256 ∷ size_bytes i size

unfoldable pub start_item : ℕ → ℕ → List ℕ → List ℕ
unfolding size_shift size_info size_bytes
start_item label size out =
    out ++ bit_or (size_info size) (label * 2 ^ 5) ∷ size_bytes (size_shift size) size

-- `-(negative + 1) as u64`, with the wrap-around that a non-negative i64 would meet.
unfoldable pub negative_size : ℤ → ℕ
negative_size (negsuc n) = n
negative_size (pos n) = 2 ^ 64 - (n + 1)

-- `Vec::len` and `BTreeMap::len`.
abbrev pub items_len : Items → ℕ
items_len no_items = 0
items_len (item v xs) = suc (items_len xs)

abbrev pub entries_len : Entries → ℕ
entries_len no_entries = 0
entries_len (entry k v es) = suc (entries_len es)

-- The loops over the elements call the encoder at the depth below; they stop at its first `false`.
unfoldable pub encode_items : (Value → List ℕ → Output) → Items → List ℕ → Output
encode_items encode no_items out = (out, true)
encode_items encode (item v xs) out =
    let (out', done) = encode v out in
    let rest = encode_items encode xs out' in if done then rest else (out', false)

unfoldable pub encode_entries : (Value → List ℕ → Output) → Entries → List ℕ → Output
encode_entries encode no_entries out = (out, true)
encode_entries encode (entry k v es) out =
    let (out₁, key_done) = encode (key_value k) out in
    let (out₂, value_done) = encode v out₁ in
    let rest = encode_entries encode es out₂ in
    if key_done then (if value_done then rest else (out₂, false)) else (out₁, false)

unfoldable pub encode_cbor : ℕ → Value → List ℕ → Output
unfolding start_item negative_size encode_items encode_entries simple_code
encode_cbor zero v out = (out, false)
encode_cbor (suc depth) (key_value (unsigned n)) out = (start_item 0 n out, true)
encode_cbor (suc depth) (key_value (negative z)) out = (start_item 1 (negative_size z) out, true)
encode_cbor (suc depth) (key_value (byte_string bytes)) out =
    (start_item 2 (length bytes) out ++ bytes, true)
encode_cbor (suc depth) (key_value (text_string text)) out =
    (start_item 3 (length text) out ++ text, true)
encode_cbor (suc depth) (array xs) out =
    encode_items (encode_cbor depth) xs (start_item 4 (items_len xs) out)
encode_cbor (suc depth) (map es) out =
    encode_entries (encode_cbor depth) es (start_item 5 (entries_len es) out)
encode_cbor (suc depth) (simple s) out = (start_item 7 (simple_code s) out, true)

-- `MAX_NESTING_DEPTH` is 4.
abbrev pub max_depth : ℕ
max_depth = 4 + 1

unfoldable pub write : Value → List ℕ → Output
unfolding encode_cbor
write v out = encode_cbor max_depth v out

-- {1: [true], "a": -500} behind a byte that is already in the buffer.
write_map :
    write
      (map (
        entry
          (unsigned 1)
          (array (item (simple true_value) no_items))
          (entry (text_string (0x61 ∷ [])) (key_value (negative (negsuc 499))) no_entries)))
      (9 ∷ [])
    ≡ (9 ∷ 0xa2 ∷ 0x01 ∷ 0x81 ∷ 0xf5 ∷ 0x61 ∷ 0x61 ∷ 0x39 ∷ 0x01 ∷ 0xf3 ∷ [], true)
unfolding write
write_map = refl
