-- ===== src/Apdu/Total.antt =====
-- `TryFrom<&[u8]> for Apdu` of src/ctap/apdu.rs without the checks of its indices and slices: what is
-- out of range is read as zero or left out. Apdu/Checked.antt compares it with Apdu/Parse.antt.
use open_sk.Common.{ℕ, ◌+◌, ◌-◌, ◌*◌, ◌%◌, ◌^◌, List, [], take, drop, length, get_or}
use open_sk.Common.{ltb, leb, ◌==◌, if◌then◌else◌, ◌&&◌, not}
use open_sk.Common.Results.{Result, ok, err, ◌>>=◌}
use open_sk.Apdu.Types.{ApduStatusCode, sw_wrong_data, sw_wrong_length, sw_internal_exception}
use open_sk.Apdu.Types.{ApduHeader, Apdu, instruction, short, extended, Case, le1, lc1_data}
use open_sk.Apdu.Types.{lc1_data_le1, lc3_data, lc3_data_le1, lc3_data_le2, le3}

-- `BigEndian::read_u16` of the bytes from the given place.
abbrev pub read_u16 : List ℕ → ℕ → ℕ
read_u16 bytes i = get_or bytes i 0 * 2 ^ 8 + get_or bytes (i + 1) 0

abbrev pub last : List ℕ → ℕ
last bytes = get_or bytes (length bytes - 1) 0

-- An expected length of one or two bytes, where zero stands for the largest.
abbrev pub short_le : ℕ → ℕ
short_le b = if b == 0 then 0x100 else b

abbrev pub long_le : ℕ → ℕ
long_le n = if n == 0 then 0x10000 else n

-- `ApduHeader::from`
abbrev pub header_from : List ℕ → ApduHeader
header_from header = record {
  cla = get_or header 0 0;
  ins = get_or header 1 0;
  p1 = get_or header 2 0;
  p2 = get_or header 3 0;
}

unfoldable pub extended_le : ℕ → List ℕ → Result ℕ ApduStatusCode
extended_le le_len payload =
    let two = long_le (read_u16 payload (length payload - 2)) in
    if le_len == 0
    then ok 0
    else if le_len == 1
    then ok (short_le (last payload))
    else if le_len == 2
    then ok two
    else if le_len == 3
    then (if not (get_or payload (length payload - 3) 0 == 0)
        then err sw_internal_exception
        else ok two)
    else err sw_internal_exception

unfoldable pub extended_case : ℕ → Result Case ApduStatusCode
extended_case le_len =
    if le_len == 0
    then ok lc3_data
    else if le_len == 1
    then ok lc3_data_le1
    else if le_len == 2
    then ok lc3_data_le2
    else if le_len == 3
    then ok le3
    else err sw_internal_exception

-- The `Apdu` of the extended form. The initializers run in the order of the struct's fields.
unfoldable pub build_extended : ApduHeader → List ℕ → ℕ → ℕ → Result Apdu ApduStatusCode
build_extended header payload extended_lc le_len = do
  le ← extended_le le_len payload
  kind ← extended_case le_len
  ok (record {
    header = header;
    lc = extended_lc % 2 ^ 16;
    payload = drop 3 (take (length payload - le_len) payload);
    le = le;
    case_type = extended kind;
  })

-- The branch of a payload of more than two bytes, for a Lc of three bytes. `checked_sub` has its
-- result, as the branch before it returned where it has none.
unfoldable pub parse_extended : ApduHeader → List ℕ → Result Apdu ApduStatusCode
parse_extended header payload =
    let extended_lc = read_u16 payload 1 in
    let le_len = length payload - (extended_lc + 3) in
    if ltb (length payload) (extended_lc + 3)
    then err sw_wrong_length
    else if ltb 3 le_len
    then err sw_wrong_length
    else if (get_or payload 0 0 == 0) && leb le_len 3
    then build_extended header payload extended_lc le_len
    else err sw_internal_exception

unfoldable pub parse_payload : ApduHeader → List ℕ → Result Apdu ApduStatusCode
parse_payload header payload =
    let byte_0 = get_or payload 0 0 in
    if length payload == 0
    then ok (record { header = header; lc = 0; payload = []; le = 0; case_type = instruction })
    else if length payload == 1
    then ok (record {
      header = header;
      lc = 0;
      payload = [];
      le = short_le byte_0;
      case_type = short le1;
    })
    else if (length payload == 1 + byte_0) && not (byte_0 == 0)
    then ok (record {
      header = header;
      lc = byte_0;
      payload = drop 1 payload;
      le = 0;
      case_type = short lc1_data;
    })
    else if (length payload == 2 + byte_0) && not (byte_0 == 0)
    then ok (record {
      header = header;
      lc = byte_0;
      payload = drop 1 (take (length payload - 1) payload);
      le = short_le (last payload);
      case_type = short lc1_data_le1;
    })
    else if ltb 2 (length payload)
    then parse_extended header payload
    else err sw_internal_exception

unfoldable pub try_from : List ℕ → Result Apdu ApduStatusCode
try_from frame =
    if ltb (length frame) 4
    then err sw_wrong_data
    else parse_payload (header_from (take 4 frame)) (drop 4 frame)
