-- ===== src/Apdu/Extended.antt =====
-- The extended form of the length fields in src/ctap/apdu.rs.
use open_sk.Common.{
  ℕ, zero, suc, ◌+◌, ◌-◌, ◌*◌, ◌%◌, ◌^◌, ◌≤◌, ◌<◌, ◌≡◌, refl, ap, arith, List, [], ◌∷◌, ◌++◌,
}
use open_sk.Common.{length, get_or, length-append, take_exact}
use open_sk.Common.Results.{ok, ◌>>=◌}
use open_sk.Apdu.Types.{ApduHeader, extended}
use open_sk.Apdu.Total.{extended_le, extended_case, build_extended, parse_extended}

pub get_or-append :
    (xs ys : List ℕ) (k i : ℕ) → i ≡ length xs + k → get_or (xs ++ ys) i 0 ≡ get_or ys k 0
get_or-append [] ys k i e = ap (λ j. get_or ys j 0) (omega (arith, e))
get_or-append (x ∷ xs) ys k zero e = absurd (omega (arith, e))
get_or-append (x ∷ xs) ys k (suc i) e = get_or-append xs ys k i (omega (arith, e))

-- Counted from the end, the bytes of the tail are the bytes of the whole.
get_or-back :
    (xs ys : List ℕ) (k j : ℕ)
    → k ≤ length ys
    → get_or (xs ++ ys) (length (xs ++ ys) - k + j) 0 ≡ get_or ys (length ys - k + j) 0
get_or-back xs ys k j h =
    get_or-append xs ys (length ys - k + j) (length (xs ++ ys) - k + j)
      (omega (arith, length-append xs ys))

pub extended_le-append :
    (xs ys : List ℕ) → extended_le (length ys) (xs ++ ys) ≡ extended_le (length ys) ys
unfolding extended_le
extended_le-append xs [] = refl
extended_le-append xs (a ∷ []) = ground (arith, get_or-back xs (a ∷ []) 1 0)
extended_le-append xs (a ∷ b ∷ []) =
    ground (arith, get_or-back xs (a ∷ b ∷ []) 2 0, get_or-back xs (a ∷ b ∷ []) 2 1)
extended_le-append xs (a ∷ b ∷ c ∷ []) = ground (
  arith,
  get_or-back xs (a ∷ b ∷ c ∷ []) 3 0,
  get_or-back xs (a ∷ b ∷ c ∷ []) 2 0,
  get_or-back xs (a ∷ b ∷ c ∷ []) 2 1,
)
extended_le-append xs (a ∷ b ∷ c ∷ d ∷ ys) = ground arith

-- The branch of a Lc of three bytes that covers the data.
pub build_extended-append :
    (header : ApduHeader) (hi lo n : ℕ) (bytes tail : List ℕ)
    → n ≡ length bytes
    → n < 2 ^ 16
    → build_extended header (0 ∷ hi ∷ lo ∷ bytes ++ tail) n (length tail) ≡ (do
      le ← extended_le (length tail) tail
      kind ← extended_case (length tail)
      ok (record { header = header; lc = n; payload = bytes; le = le; case_type = extended kind }))
unfolding build_extended
build_extended-append header hi lo n bytes tail e bound =
    let whole = 0 ∷ hi ∷ lo ∷ bytes ++ tail in
    let small : n % 2 ^ 16 ≡ n = omega arith in
    rw
      (
        extended_le-append (0 ∷ hi ∷ lo ∷ bytes) tail,
        take_exact (length (0 ∷ hi ∷ lo ∷ bytes ++ tail) - length tail) (0 ∷ hi ∷ lo ∷ bytes) tail
            (omega (arith, length-append bytes tail)),
        small,
      )
      refl

pub parse_extended-append :
    (header : ApduHeader) (hi lo : ℕ) (bytes tail : List ℕ)
    → hi * 2 ^ 8 + lo ≡ length bytes
    → length tail ≤ 3
    → parse_extended header (0 ∷ hi ∷ lo ∷ bytes ++ tail)
      ≡ build_extended header (0 ∷ hi ∷ lo ∷ bytes ++ tail) (hi * 2 ^ 8 + lo) (length tail)
unfolding parse_extended
parse_extended-append header hi lo bytes tail e h =
    let whole = 0 ∷ hi ∷ lo ∷ bytes ++ tail in
    let size : length whole - (hi * 2 ^ 8 + lo + 3) ≡ length tail =
      omega (arith, length-append bytes tail) in
    ground
      (arith, length-append bytes tail, ap (build_extended header whole (hi * 2 ^ 8 + lo)) size)
