-- ===== src/Apdu/Parse.antt =====
-- `TryFrom<&[u8]> for Apdu` of src/ctap/apdu.rs, with the panics of its indices and slices.
use open_sk.Common.{ℕ, ◌+◌, ◌-◌, ◌*◌, ◌%◌, ◌^◌, List, [], take, drop, length, get_elem?}
use open_sk.Common.{Option, none, some, ltb, leb, ◌==◌, if◌then◌else◌, ◌&&◌, ◌||◌, not}
use open_sk.Common.Results.{Result, ok, err}
use open_sk.Apdu.Types.{ApduStatusCode, sw_wrong_data, sw_wrong_length, sw_internal_exception}
use open_sk.Apdu.Types.{ApduHeader, Apdu, instruction, short, extended, Case, le1, lc1_data}
use open_sk.Apdu.Types.{lc1_data_le1, lc3_data, lc3_data_le1, lc3_data_le2, le3}

-- A result of `none` is a panic.
abbrev pub Panics : Type 0 → Type 0
Panics A = Option (Result A ApduStatusCode)

infixl 5 ◌>>=◌
abbrev pub ◌>>=◌ : {A B : Type 0} → Panics A → (A → Panics B) → Panics B
r >>= f = elim r [ none ↦ none | some (err e) ↦ some (err e) | some (ok a) ↦ f a ]

-- `unwrap`
abbrev pub unwrap : {A : Type 0} → Option A → Panics A
unwrap none = none
unwrap (some a) = some (ok a)

-- An index, the subtraction of two lengths, and the slice `bytes[from..to]`.
unfoldable pub index : List ℕ → ℕ → Panics ℕ
index bytes i = unwrap (get_elem? bytes i)

unfoldable pub sub : ℕ → ℕ → Panics ℕ
sub a b = if ltb a b then none else some (ok (a - b))

unfoldable pub slice : ℕ → ℕ → List ℕ → Panics (List ℕ)
slice from to bytes =
    if ltb to from || ltb (length bytes) to then none else some (ok (drop from (take to bytes)))

-- `BigEndian::read_u16`
unfoldable pub read_u16 : List ℕ → Panics ℕ
read_u16 bytes = do high ← index bytes 0; low ← index bytes 1; some (ok (high * 2 ^ 8 + low))

-- `last().unwrap()`
unfoldable pub last : List ℕ → Panics ℕ
last bytes = index bytes (length bytes - 1)

-- An expected length of one or two bytes, where zero stands for the largest.
abbrev pub short_le : ℕ → ℕ
short_le b = if b == 0 then 0x100 else b

abbrev pub long_le : ℕ → ℕ
long_le n = if n == 0 then 0x10000 else n

-- `ApduHeader::from` of the bytes that `array_ref!` takes.
unfoldable pub header_from : List ℕ → Panics ApduHeader
header_from header = do
  cla ← index header 0
  ins ← index header 1
  p1 ← index header 2
  p2 ← index header 3
  some (ok (record { cla = cla; ins = ins; p1 = p1; p2 = p2 }))

-- The two bytes at the end.
unfoldable pub last_word : List ℕ → Panics ℕ
last_word payload = do
  start ← sub (length payload) 2
  bytes ← slice start (length payload) payload
  le_parsed ← read_u16 bytes
  some (ok (long_le le_parsed))

-- Three bytes at the end, of which the first is zero.
unfoldable pub last_three : List ℕ → Panics ℕ
last_three payload = do
  place ← sub (length payload) 3
  le_first_byte ← index payload place
  if not (le_first_byte == 0) then some (err sw_internal_exception) else last_word payload

unfoldable pub extended_le : ℕ → ℕ → List ℕ → Panics ℕ
extended_le le_len last_byte payload =
    if le_len == 0
    then some (ok 0)
    else if le_len == 1
    then some (ok (short_le last_byte))
    else if le_len == 2
    then last_word payload
    else if le_len == 3
    then last_three payload
    else some (err sw_internal_exception)

unfoldable pub extended_case : ℕ → Panics Case
extended_case le_len =
    if le_len == 0
    then some (ok lc3_data)
    else if le_len == 1
    then some (ok lc3_data_le1)
    else if le_len == 2
    then some (ok lc3_data_le2)
    else if le_len == 3
    then some (ok le3)
    else some (err sw_internal_exception)

-- The `Apdu` of the extended form. The initializers run in the order of the struct's fields.
unfoldable pub build_extended : ApduHeader → List ℕ → ℕ → ℕ → Panics Apdu
build_extended header payload extended_lc le_len = do
  last_byte ← last payload
  end ← sub (length payload) le_len
  bytes ← slice 3 end payload
  le ← extended_le le_len last_byte payload
  kind ← extended_case le_len
  some (
      ok (record {
        header = header;
        lc = extended_lc % 2 ^ 16;
        payload = bytes;
        le = le;
        case_type = extended kind;
      }))

-- `checked_sub` has its result, as the branch before it returned where it has none.
unfoldable pub parse_lc : ApduHeader → ℕ → List ℕ → ℕ → Panics Apdu
parse_lc header byte_0 payload extended_lc =
    let le_len = length payload - (extended_lc + 3) in
    if ltb (length payload) (extended_lc + 3)
    then some (err sw_wrong_length)
    else if ltb 3 le_len
    then some (err sw_wrong_length)
    else if (byte_0 == 0) && leb le_len 3
    then build_extended header payload extended_lc le_len
    else some (err sw_internal_exception)

-- The branch of a payload of more than two bytes, for a Lc of three bytes.
unfoldable pub parse_extended : ApduHeader → ℕ → List ℕ → Panics Apdu
parse_extended header byte_0 payload = do
  lc_bytes ← slice 1 3 payload
  extended_lc ← read_u16 lc_bytes
  parse_lc header byte_0 payload extended_lc

-- The data behind a Lc of one byte, to the end or up to a Le of one byte.
unfoldable pub build_short : ApduHeader → ℕ → List ℕ → Panics Apdu
build_short header byte_0 payload = do
  bytes ← slice 1 (length payload) payload
  some (
      ok (record {
        header = header;
        lc = byte_0;
        payload = bytes;
        le = 0;
        case_type = short lc1_data;
      }))

unfoldable pub build_short_le : ApduHeader → ℕ → List ℕ → Panics Apdu
build_short_le header byte_0 payload = do
  last_byte ← last payload
  end ← sub (length payload) 1
  bytes ← slice 1 end payload
  some (
      ok (record {
        header = header;
        lc = byte_0;
        payload = bytes;
        le = short_le last_byte;
        case_type = short lc1_data_le1;
      }))

unfoldable pub parse_first : ApduHeader → ℕ → List ℕ → Panics Apdu
parse_first header byte_0 payload =
    if length payload == 1
    then some (
        ok (record {
          header = header;
          lc = 0;
          payload = [];
          le = short_le byte_0;
          case_type = short le1;
        }))
    else if (length payload == 1 + byte_0) && not (byte_0 == 0)
    then build_short header byte_0 payload
    else if (length payload == 2 + byte_0) && not (byte_0 == 0)
    then build_short_le header byte_0 payload
    else if ltb 2 (length payload)
    then parse_extended header byte_0 payload
    else some (err sw_internal_exception)

unfoldable pub parse_payload : ApduHeader → List ℕ → Panics Apdu
parse_payload header payload =
    let first = (do byte_0 ← index payload 0; parse_first header byte_0 payload) in
    if length payload == 0
    then some
        (ok (record { header = header; lc = 0; payload = []; le = 0; case_type = instruction }))
    else first

-- `split_at`; the header is read once, for all branches.
unfoldable pub try_from : List ℕ → Panics Apdu
try_from frame =
    let split = (do
      header_bytes ← slice 0 4 frame
      payload ← slice 4 (length frame) frame
      header ← header_from header_bytes
      parse_payload header payload) in
    if ltb (length frame) 4 then some (err sw_wrong_data) else split
