-- ===== src/Apdu/Complete.antt =====
-- The forms of an APDU that src/ctap/apdu.rs parses.
use open_sk.Common.{
  ℕ, suc, ◌+◌, ◌*◌, ◌/◌, ◌%◌, ◌^◌, ◌≤◌, ◌<◌, ◌≡◌, refl, subst, arith, List, [], ◌∷◌, ◌++◌,
}
use open_sk.Common.{length, length-append, take_exact, append-nil}
use open_sk.Common.Results.{ok, ◌>>=◌}
use open_sk.Apdu.Types.{ApduHeader, ApduType, instruction, short, extended}
use open_sk.Apdu.Types.{le1, lc1_data, lc1_data_le1, lc3_data, lc3_data_le1, lc3_data_le2, le3}
use open_sk.Apdu.Total.{extended_le, extended_case, parse_extended, parse_payload}
use open_sk.Apdu.Print.{body, IsForm, word}
use open_sk.Apdu.Extended.{parse_extended-append, build_extended-append, get_or-append}

pub parse_payload-zero :
    (header : ApduHeader) (hi lo : ℕ) (rest : List ℕ)
    → parse_payload header (0 ∷ hi ∷ lo ∷ rest) ≡ parse_extended header (0 ∷ hi ∷ lo ∷ rest)
unfolding parse_payload
parse_payload-zero header hi lo rest = ground arith

parse_payload-extended :
    (header : ApduHeader) (n : ℕ) (bytes tail : List ℕ)
    → n ≡ length bytes
    → n < 2 ^ 16
    → length tail ≤ 3
    → parse_payload header (0 ∷ word n ++ (bytes ++ tail)) ≡ (do
      le ← extended_le (length tail) tail
      kind ← extended_case (length tail)
      ok (record { header = header; lc = n; payload = bytes; le = le; case_type = extended kind }))
parse_payload-extended header n bytes tail e bound h =
    let digits : n / 2 ^ 8 % 2 ^ 8 * 2 ^ 8 + n % 2 ^ 8 ≡ n = omega arith in
    rw
      (
        parse_payload-zero header (n / 2 ^ 8 % 2 ^ 8) (n % 2 ^ 8) (bytes ++ tail),
        parse_extended-append header (n / 2 ^ 8 % 2 ^ 8) (n % 2 ^ 8) bytes tail (omega (arith, e))
            h,
        digits,
        build_extended-append header (n / 2 ^ 8 % 2 ^ 8) (n % 2 ^ 8) n bytes tail e bound,
      )
      refl

pub length-zero : (xs : List ℕ) → length xs ≡ 0 → xs ≡ []
length-zero [] e = refl
length-zero (x ∷ xs) e = absurd (omega (arith, e))

pub parse_payload-body :
    (header : ApduHeader) (kind : ApduType) (lc le : ℕ) (bytes : List ℕ)
    → IsForm kind lc le
    → lc ≡ length bytes
    → parse_payload header (body kind lc bytes le)
      ≡ ok (record { header = header; lc = lc; payload = bytes; le = le; case_type = kind })
unfolding IsForm body extended_le extended_case
parse_payload-body header instruction lc le bytes f e =
    unfold parse_payload in ground (arith, length-zero bytes)
parse_payload-body header (short le1) lc le bytes f e =
    unfold parse_payload in ground (arith, length-zero bytes)
parse_payload-body header (short lc1_data) lc le bytes f e = unfold parse_payload in ground arith
parse_payload-body header (short lc1_data_le1) lc le bytes f e =
    unfold parse_payload in
    ground (
      arith,
      length-append bytes (le % 256 ∷ []),
      take_exact (length bytes) bytes (le % 256 ∷ []) refl,
      get_or-append (lc ∷ bytes) (le % 256 ∷ []) 0 (suc (length bytes)),
    )
parse_payload-body header (extended lc3_data) lc le bytes f e =
    subst
      (λ (t : List ℕ).
        parse_payload header (0 ∷ word lc ++ t)
        ≡ ok (record {
          header = header;
          lc = lc;
          payload = bytes;
          le = le;
          case_type = extended lc3_data;
        }))
      (append-nil bytes)
      (rw (parse_payload-extended header lc bytes [] e f.0 (omega arith), f.1) refl)
parse_payload-body header (extended lc3_data_le1) lc le bytes f e =
    rw (parse_payload-extended header lc bytes (le % 256 ∷ []) e f.0 (omega arith)) (ground arith)
parse_payload-body header (extended lc3_data_le2) lc le bytes f e =
    rw (parse_payload-extended header lc bytes (word le) e f.0 (omega arith)) (ground arith)
parse_payload-body header (extended le3) lc le bytes f e =
    rw (parse_payload-extended header lc bytes (0 ∷ word le) e f.0 (omega arith)) (ground arith)
parse_payload-body header (short _) lc le bytes f e = absurd f
parse_payload-body header (extended _) lc le bytes f e = absurd f
