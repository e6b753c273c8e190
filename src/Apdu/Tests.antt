-- ===== src/Apdu/Tests.antt =====
-- APDU frames parsed at concrete bytes.
use open_sk.Common.{some, ℕ, ◌≡◌, ◌↔◌, refl, arith, List, [], ◌∷◌}
use open_sk.Common.Results.{ok, err}
use open_sk.Apdu.Types.{Apdu, short, lc1_data_le1, sw_wrong_length}
use open_sk.Apdu.Parse.{
  try_from, slice, header_from, index, parse_payload, parse_first, build_short_le, last, sub,
  parse_extended, read_u16, parse_lc,
}
use open_sk.Apdu.Print.{IsValid, print}
use open_sk.Apdu.Accept.{try_from-ok_iff}

-- SELECT with two bytes of data and the expected length 256.
abbrev select : List ℕ
select = 0x00 ∷ 0xa4 ∷ 0x00 ∷ 0x0c ∷ 0x02 ∷ 0xe1 ∷ 0x04 ∷ 0x00 ∷ []

abbrev select_apdu : Apdu
select_apdu = record {
  header = record { cla = 0; ins = 0xa4; p1 = 0; p2 = 0x0c };
  lc = 2;
  payload = 0xe1 ∷ 0x04 ∷ [];
  le = 0x100;
  case_type = short lc1_data_le1;
}

parse_select : try_from select ≡ some (ok select_apdu)
unfolding try_from slice header_from index parse_payload parse_first build_short_le last sub
parse_select = refl

-- A Lc of three bytes that covers more than there is.
parse_short : try_from (0 ∷ 1 ∷ 0 ∷ 0 ∷ 0 ∷ 1 ∷ 0 ∷ 5 ∷ []) ≡ some (err sw_wrong_length)
unfolding try_from slice header_from index parse_payload parse_first parse_extended read_u16
    parse_lc
parse_short = refl

try_from-ok_iff_example :
    (try_from select ≡ some (ok select_apdu)) ↔ (IsValid select_apdu × (print select_apdu ≡ select))
try_from-ok_iff_example = try_from-ok_iff select select_apdu (omega arith)
