-- ===== src/Apdu/Checked.antt =====
-- The indices and slices of src/ctap/apdu.rs are in range: the parser with its panics has the results
-- of the one without.
use open_sk.Common.{ℕ, zero, suc, ◌+◌, ◌-◌, ◌*◌, ◌^◌, ◌≤◌, ◌<◌, ◌≡◌, refl, ap, arith, List, [], ◌∷◌}
use open_sk.Common.{take, drop, length, get_or, take_all, length-drop, some}
use open_sk.Common.Results.{ok}
use open_sk.Apdu.Types.{ApduHeader}
use open_sk.Apdu.Parse
use open_sk.Apdu.Parse.{index, sub, slice, read_u16, last, header_from, last_word, last_three}
use open_sk.Apdu.Parse.{extended_le, extended_case, build_extended, parse_lc, parse_extended}
use open_sk.Apdu.Parse.{build_short, build_short_le, parse_first, parse_payload, long_le}
use open_sk.Apdu.Total

index-total :
    (bytes : List ℕ) (i : ℕ) → i < length bytes → index bytes i ≡ some (ok (get_or bytes i 0))
unfolding index
index-total [] i h = absurd (omega arith)
index-total (x ∷ bytes) zero h = refl
index-total (x ∷ bytes) (suc i) h = unfold index in index-total bytes i (omega arith)

sub-total : (a b : ℕ) → b ≤ a → sub a b ≡ some (ok (a - b))
unfolding sub
sub-total a b h = ground arith

slice-total :
    (from to : ℕ) (bytes : List ℕ)
    → from ≤ to
    → to ≤ length bytes
    → slice from to bytes ≡ some (ok (drop from (take to bytes)))
unfolding slice
slice-total from to bytes h k = ground arith

-- A slice to the end.
slice-rest :
    (from : ℕ) (bytes : List ℕ)
    → from ≤ length bytes
    → slice from (length bytes) bytes ≡ some (ok (drop from bytes))
slice-rest from bytes h =
    rw
      (
        slice-total from (length bytes) bytes h (omega arith),
        take_all (length bytes) bytes (omega arith),
      )
      refl

get_or-drop : (i k j : ℕ) (xs : List ℕ) → j ≡ i + k → get_or (drop i xs) k 0 ≡ get_or xs j 0
get_or-drop zero k j xs e = ap (λ n. get_or xs n 0) (omega (arith, e))
get_or-drop (suc i) k j [] e = refl
get_or-drop (suc i) k zero (x ∷ xs) e = absurd (omega (arith, e))
get_or-drop (suc i) k (suc j) (x ∷ xs) e = get_or-drop i k j xs (omega (arith, e))

last-total : (bytes : List ℕ) → 0 < length bytes → last bytes ≡ some (ok (Total.last bytes))
unfolding last
last-total bytes h = index-total bytes (length bytes - 1) (omega arith)

read_u16-total :
    (bytes : List ℕ) → 2 ≤ length bytes → read_u16 bytes ≡ some (ok (Total.read_u16 bytes 0))
unfolding read_u16
read_u16-total bytes h =
    rw (index-total bytes 0 (omega arith), index-total bytes 1 (omega arith)) refl

last_word-total :
    (payload : List ℕ)
    → 2 ≤ length payload
    → last_word payload ≡ some (ok (long_le (Total.read_u16 payload (length payload - 2))))
unfolding last_word
last_word-total payload h =
    let start = length payload - 2 in
    rw
      (
        sub-total (length payload) 2 h,
        slice-rest start payload (omega arith),
        read_u16-total (drop start payload) (omega (arith, length-drop start payload)),
        get_or-drop start 0 start payload (omega arith),
        get_or-drop start 1 (start + 1) payload refl,
      )
      (ground arith)

extended_le-total :
    (le_len : ℕ) (payload : List ℕ)
    → 3 + le_len ≤ length payload
    → extended_le le_len (Total.last payload) payload ≡ some (Total.extended_le le_len payload)
unfolding extended_le last_three Total.extended_le
extended_le-total le_len payload h = ground (
  arith,
  last_word-total payload,
  sub-total (length payload) 3,
  index-total payload (length payload - 3),
)

extended_case-total : (le_len : ℕ) → extended_case le_len ≡ some (Total.extended_case le_len)
unfolding extended_case Total.extended_case
extended_case-total le_len = ground arith

build_extended-total :
    (header : ApduHeader) (payload : List ℕ) (extended_lc le_len : ℕ)
    → 3 + le_len ≤ length payload
    → build_extended header payload extended_lc le_len
      ≡ some (Total.build_extended header payload extended_lc le_len)
unfolding build_extended Total.build_extended
build_extended-total header payload extended_lc le_len h =
    rw
      (
        last-total payload (omega arith),
        sub-total (length payload) le_len (omega arith),
        slice-total 3 (length payload - le_len) payload (omega arith) (omega arith),
        extended_le-total le_len payload h,
        extended_case-total le_len,
      )
      (ground arith)

parse_extended-total :
    (header : ApduHeader) (payload : List ℕ)
    → 2 < length payload
    → parse_extended header (get_or payload 0 0) payload
      ≡ some (Total.parse_extended header payload)
unfolding parse_extended parse_lc Total.parse_extended
parse_extended-total header [] h = absurd (omega arith)
parse_extended-total header (x ∷ []) h = absurd (omega arith)
parse_extended-total header (x ∷ y ∷ []) h = absurd (omega arith)
parse_extended-total header (x ∷ y ∷ z ∷ rest) h =
    let payload = x ∷ y ∷ z ∷ rest in
    let lc = y * 2 ^ 8 + z in
    rw
      (
        slice-total 1 3 payload (omega arith) (omega arith),
        read_u16-total (y ∷ z ∷ []) (omega arith),
      )
      (ground (arith, build_extended-total header payload lc (length payload - (lc + 3))))

parse_payload-total :
    (header : ApduHeader) (payload : List ℕ)
    → parse_payload header payload ≡ some (Total.parse_payload header payload)
unfolding parse_payload parse_first build_short build_short_le Total.parse_payload
parse_payload-total header [] = refl
parse_payload-total header (x ∷ rest) =
    let payload = x ∷ rest in
    rw (index-total payload 0 (omega arith)) (
      ground (
        arith,
        slice-rest 1 payload,
        last-total payload,
        sub-total (length payload) 1,
        slice-total 1 (length payload - 1) payload,
        parse_extended-total header payload,
      ))

-- On any frame the parser has the result of the one without checks.
pub try_from-total : (frame : List ℕ) → Parse.try_from frame ≡ some (Total.try_from frame)
unfolding Parse.try_from Total.try_from slice header_from index
try_from-total [] = refl
try_from-total (a ∷ []) = refl
try_from-total (a ∷ b ∷ []) = refl
try_from-total (a ∷ b ∷ c ∷ []) = refl
try_from-total (a ∷ b ∷ c ∷ d ∷ payload) = ground (
  arith,
  take_all (length payload) payload,
  parse_payload-total (record { cla = a; ins = b; p1 = c; p2 = d }) payload,
)
