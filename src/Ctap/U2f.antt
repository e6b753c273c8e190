-- ===== src/Ctap/U2f.antt =====
-- `U2fCommand` of src/ctap/ctap1.rs: the parsing of CTAP1 commands.
use open_sk.Common.{ℕ, ◌+◌, List, take, drop, length, get_elem?, Option, none, some}
use open_sk.Common.{ltb, leb, ◌==◌, if◌then◌else◌, ◌&&◌, not}
use open_sk.Common.Results.{Result, ok, err, ◌>>=◌}
use open_sk.Apdu.Types.{
  ApduStatusCode, Apdu, sw_cla_invalid, sw_wrong_length, sw_wrong_data, sw_ins_invalid,
}
use open_sk.Apdu.Parse

pub data Ctap1Flags : Type 0 where
  check_only enforce_up_and_sign dont_enforce_up_and_sign : Ctap1Flags

unfoldable pub flags_from : ℕ → Result Ctap1Flags ApduStatusCode
flags_from value =
    if value == 0x07
    then ok check_only
    else if value == 0x03
    then ok enforce_up_and_sign
    else if value == 0x08
    then ok dont_enforce_up_and_sign
    else err sw_wrong_data

unfoldable pub flags_byte : Ctap1Flags → ℕ
flags_byte check_only = 0x07
flags_byte enforce_up_and_sign = 0x03
flags_byte dont_enforce_up_and_sign = 0x08

pub data U2fCommand : Type 0 where
  register : (challenge application : List ℕ) → U2fCommand
  authenticate : (challenge application key_handle : List ℕ) (flags : Ctap1Flags) → U2fCommand
  version : U2fCommand
  vendor_specific : List ℕ → U2fCommand

abbrev pub ctap1_cla : ℕ
ctap1_cla = 0

abbrev pub u2f_register : ℕ
u2f_register = 0x01

abbrev pub u2f_authenticate : ℕ
u2f_authenticate = 0x02

abbrev pub u2f_version : ℕ
u2f_version = 0x03

abbrev pub vendor_specific_first : ℕ
vendor_specific_first = 0x40

abbrev pub vendor_specific_last : ℕ
vendor_specific_last = 0xbf

-- A result of `none` is a panic, of an index, a slice or an `array_ref!` out of range.
abbrev pub Parsed : Type 0
Parsed = Option (Result U2fCommand ApduStatusCode)

unfoldable pub parse_register : ℕ → List ℕ → Parsed
parse_register lc bytes =
    let challenge = take 32 bytes in
    let application = take 32 (drop 32 bytes) in
    if not (lc == 64)
    then some (err sw_wrong_length)
    else if ltb (length bytes) 64
    then none
    else some (ok (register challenge application))

unfoldable pub parse_handle : ℕ → ℕ → ℕ → List ℕ → Result U2fCommand ApduStatusCode
parse_handle lc p1 handle_length bytes =
    let command = (do
      flags ← flags_from p1
      ok (authenticate (take 32 bytes) (take 32 (drop 32 bytes)) (drop 65 bytes) flags)) in
    if not (lc == 65 + handle_length) then err sw_wrong_length else command

unfoldable pub parse_authenticate : ℕ → ℕ → List ℕ → Parsed
parse_authenticate lc p1 bytes =
    let parsed : Parsed = elim (get_elem? bytes 64) [
      | none ↦ none
      | some handle_length ↦ some (parse_handle lc p1 handle_length bytes)
    ] in
    if ltb lc 65 then some (err sw_wrong_length) else parsed

-- The `match` on the instruction.
unfoldable pub parse_instruction : ℕ → ℕ → ℕ → List ℕ → Parsed
parse_instruction ins p1 lc bytes =
    if ins == u2f_register
    then parse_register lc bytes
    else if ins == u2f_authenticate
    then parse_authenticate lc p1 bytes
    else if ins == u2f_version
    then some (if not (lc == 0) then err sw_wrong_length else ok version)
    else if leb vendor_specific_first ins && leb ins vendor_specific_last
    then some (ok (vendor_specific bytes))
    else some (err sw_ins_invalid)

unfoldable pub parse_apdu : Apdu → Parsed
parse_apdu apdu =
    if not (apdu.header.cla == ctap1_cla)
    then some (err sw_cla_invalid)
    else if not (apdu.lc == length apdu.payload) && not (apdu.lc + 2 == length apdu.payload)
    then some (err sw_wrong_length)
    else parse_instruction apdu.header.ins apdu.header.p1 apdu.lc apdu.payload

-- `TryFrom<&[u8]> for U2fCommand`
unfoldable pub try_from : List ℕ → Parsed
try_from message = elim (Parse.try_from message) [
  | none ↦ none
  | some (err e) ↦ some (err e)
  | some (ok apdu) ↦ parse_apdu apdu
]
