-- ===== src/Apdu/Accept.antt =====
-- The frames that src/ctap/apdu.rs accepts.
use open_sk.Common.{
  ℕ, zero, suc, ◌+◌, ◌*◌, ◌%◌, ◌^◌, ◌≤◌, ◌<◌, ◌≡◌, ◌↔◌, ◌≢◌, ℕ_discrete, refl, ap, sym, subst,
  arith, List, [], ◌∷◌, ◌++◌,
}
use open_sk.Common.{take, drop, length, get_or, length-take, length-drop, append-nil}
use open_sk.Common.{take-append-drop, All, All-append_right, Bool-cases, ◌⊎◌, inl, inr}
use open_sk.Common.{ltb, leb, ◌&&◌, false}
use open_sk.Common.Bits.{IsByte, get_or-IsByte}
use open_sk.Common.Results.{Result, ok, err}
use open_sk.Apdu.Types.{
  ApduStatusCode, sw_internal_exception, sw_wrong_length, ApduHeader, Apdu, ApduType, instruction,
  short, extended,
}
use open_sk.Apdu.Types.{le1, lc1_data, lc1_data_le1, lc3_data, lc3_data_le1, lc3_data_le2, le3}
use open_sk.Apdu.Total.{extended_le, parse_extended, parse_payload, try_from}
use open_sk.Apdu.Total.{short_le, long_le}
use open_sk.Apdu.Parse
use open_sk.Apdu.Checked.{try_from-total}
use open_sk.Common.{some}
use open_sk.Apdu.Print.{body, IsForm, IsValid, print}
use open_sk.Apdu.Extended.{parse_extended-append, build_extended-append}
use open_sk.Apdu.Complete.{parse_payload-zero, parse_payload-body, length-zero}

-- What a result says of the bytes behind the header.
Prints : ApduHeader → List ℕ → Result Apdu ApduStatusCode → Type 0
Prints header payload (ok a) =
    IsValid a × (a.header ≡ header) × (body a.case_type a.lc a.payload a.le ≡ payload)
Prints header payload (err e) = Unit

Prints-body :
    (header : ApduHeader) (kind : ApduType) (lc le : ℕ) (bytes payload : List ℕ)
    → IsForm kind lc le
    → lc ≡ length bytes
    → body kind lc bytes le ≡ payload
    → Prints header payload (parse_payload header payload)
unfolding Prints
Prints-body header kind lc le bytes payload f e p =
    subst (λ t. Prints header t (parse_payload header t)) p
      (rw (parse_payload-body header kind lc le bytes f e)
        (record { form = f; lc_length = e }, refl, refl))

abbrev IsRefused : Result Apdu ApduStatusCode → Type 0
IsRefused r = (r ≡ err sw_wrong_length) ⊎ (r ≡ err sw_internal_exception)

IsRefused-Prints :
    (header : ApduHeader) (payload : List ℕ)
    → IsRefused (parse_payload header payload)
    → Prints header payload (parse_payload header payload)
unfolding Prints
IsRefused-Prints header payload (inl e) = rw e tt
IsRefused-Prints header payload (inr e) = rw e tt

take-last : (n : ℕ) (xs : List ℕ) → length xs ≡ suc n → take n xs ++ get_or xs n 0 ∷ [] ≡ xs
take-last n [] e = absurd (omega (arith, e))
take-last zero (x ∷ xs) e = ap (λ t. x ∷ t) (sym (length-zero xs (omega (arith, e))))
take-last (suc n) (x ∷ xs) e = ap (λ t. x ∷ t) (take-last n xs (omega (arith, e)))

-- Behind a Lc of three bytes.
Prints-tail :
    (header : ApduHeader) (hi lo : ℕ) (bytes tail : List ℕ)
    → hi < 256
    → lo < 256
    → All IsByte tail
    → hi * 2 ^ 8 + lo ≡ length bytes
    → length tail ≤ 3
    → Prints header
        (0 ∷ hi ∷ lo ∷ bytes ++ tail)
        (parse_payload header (0 ∷ hi ∷ lo ∷ bytes ++ tail))
unfolding body IsForm
Prints-tail header hi lo bytes [] hh hl b e h =
    Prints-body header (extended lc3_data) (hi * 2 ^ 8 + lo) 0 bytes _ (omega arith) e
      (ground (arith, append-nil bytes))
Prints-tail header hi lo bytes (x ∷ []) hh hl b e h =
    Prints-body header (extended lc3_data_le1) (hi * 2 ^ 8 + lo) (short_le x) bytes _ (ground arith)
      e (ground arith)
Prints-tail header hi lo bytes (x ∷ y ∷ []) hh hl b e h =
    Prints-body header (extended lc3_data_le2) (hi * 2 ^ 8 + lo) (long_le (x * 2 ^ 8 + y)) bytes _
      (ground arith) e (ground arith)
Prints-tail header hi lo bytes (zero ∷ y ∷ z ∷ []) hh hl b e h =
    Prints-body header (extended le3) (hi * 2 ^ 8 + lo) (long_le (y * 2 ^ 8 + z)) bytes _
      (ground arith) e (ground arith)
Prints-tail header hi lo bytes (suc x ∷ y ∷ z ∷ []) hh hl b e h =
    let tail = suc x ∷ y ∷ z ∷ [] in
    let refused : extended_le 3 tail ≡ err sw_internal_exception =
      unfold extended_le in ground arith in
    IsRefused-Prints header _ (
      inr (
        rw
          (
            parse_payload-zero header hi lo (bytes ++ tail),
            parse_extended-append header hi lo bytes tail e h,
            build_extended-append header hi lo (hi * 2 ^ 8 + lo) bytes tail e (omega arith),
            refused,
          )
          refl))
Prints-tail header hi lo bytes (x ∷ y ∷ z ∷ w ∷ tail) hh hl b e h = absurd (omega (arith, h))

parse_extended-IsRefused :
    (header : ApduHeader) (b hi lo : ℕ) (rest : List ℕ)
    → (0 < b) ⊎ ((length rest < hi * 2 ^ 8 + lo) ⊎ (hi * 2 ^ 8 + lo + 3 < length rest))
    → IsRefused (parse_extended header (b ∷ hi ∷ lo ∷ rest))
unfolding parse_extended
parse_extended-IsRefused header b hi lo rest h = ground arith

Prints-zero :
    (header : ApduHeader) (hi lo : ℕ) (rest : List ℕ)
    → hi < 256
    → lo < 256
    → All IsByte rest
    → Prints header (0 ∷ hi ∷ lo ∷ rest) (parse_payload header (0 ∷ hi ∷ lo ∷ rest))
Prints-zero header hi lo rest hh hl b =
    let n = hi * 2 ^ 8 + lo in
    elim (Bool-cases (leb n (length rest) && leb (length rest) (n + 3))) [
      | inl fits ↦
          subst (λ t. Prints header (0 ∷ hi ∷ lo ∷ t) (parse_payload header (0 ∷ hi ∷ lo ∷ t)))
            (take-append-drop n rest)
            (Prints-tail header hi lo (take n rest) (drop n rest) hh hl
              (All-append_right IsByte (take n rest) (drop n rest) (rw (take-append-drop n rest) b))
              (ground (arith, length-take n rest)) (ground (arith, length-drop n rest)))
      | inr out ↦ IsRefused-Prints header _ (
          rw (parse_payload-zero header hi lo rest)
            (parse_extended-IsRefused header 0 hi lo rest (ground arith)))
    ]

parse_payload-IsRefused :
    (header : ApduHeader) (b x : ℕ) (xs : List ℕ)
    → 0 < b
    → suc (length xs) ≢ b
    → length xs ≢ b
    → IsRefused (parse_payload header (b ∷ x ∷ xs))
unfolding parse_payload
parse_payload-IsRefused header b x [] pos h k = ground arith
parse_payload-IsRefused header b x (y ∷ rest) pos h k =
    ground (arith, parse_extended-IsRefused header b x y rest)

Prints-short :
    (header : ApduHeader) (b x : ℕ) (xs : List ℕ)
    → 0 < b
    → b < 256
    → All IsByte (x ∷ xs)
    → Prints header (b ∷ x ∷ xs) (parse_payload header (b ∷ x ∷ xs))
unfolding IsForm body
Prints-short header b x xs pos hb h = elim (ℕ_discrete (suc (length xs)) b) [
  | yes e ↦ Prints-body header (short lc1_data) b 0 (x ∷ xs) _ (omega (arith, hb)) (sym e) refl
  | no k ↦ elim (ℕ_discrete (length xs) b) [
    | no l ↦ IsRefused-Prints header _ (parse_payload-IsRefused header b x xs pos k l)
    | yes e ↦
        let z = get_or (x ∷ xs) b 0 in
        let small : z < 256 = get_or-IsByte (x ∷ xs) b h in
        let le : short_le z % 256 ≡ z = ground arith in
        Prints-body header (short lc1_data_le1) b (short_le z) (take b (x ∷ xs)) _ (ground arith)
          (omega (arith, length-take b (x ∷ xs)))
          (ap (λ t. b ∷ t) (rw le (take-last b (x ∷ xs) (omega (arith, e)))))
  ]
]

parse_payload-Prints :
    (header : ApduHeader) (payload : List ℕ)
    → All IsByte payload
    → Prints header payload (parse_payload header payload)
unfolding IsForm body
parse_payload-Prints header [] h = Prints-body header instruction 0 0 [] [] (ground arith) refl refl
parse_payload-Prints header (b ∷ []) h =
    Prints-body header (short le1) 0 (short_le b) [] _ (ground arith) refl (ground arith)
parse_payload-Prints header (zero ∷ x ∷ []) h =
    unfold parse_payload in IsRefused-Prints header _ (inr refl)
parse_payload-Prints header (zero ∷ x ∷ y ∷ rest) h =
    Prints-zero header x y rest h.1.0 h.1.1.0 h.1.1.1
parse_payload-Prints header (suc b ∷ x ∷ xs) h =
    Prints-short header (suc b) x xs (omega arith) h.0 h.1

-- What a result says of the whole frame.
unfoldable pub Frames : List ℕ → Result Apdu ApduStatusCode → Type 0
Frames frame (ok a) = IsValid a × (print a ≡ frame)
Frames frame (err e) = Unit

Frames-Prints :
    (a b c d : ℕ) (payload : List ℕ) (r : Result Apdu ApduStatusCode)
    → Prints (record { cla = a; ins = b; p1 = c; p2 = d }) payload r
    → Frames (a ∷ b ∷ c ∷ d ∷ payload) r
unfolding Prints Frames print
Frames-Prints a b c d payload (ok apdu) (v, h, e) = (v, rw (h, e) refl)
Frames-Prints a b c d payload (err e) h = tt

ltb-four : (n : ℕ) → ltb (suc (suc (suc (suc n)))) 4 ≡ false
ltb-four n = ground arith

pub try_from-Frames : (frame : List ℕ) → All IsByte frame → Frames frame (try_from frame)
unfolding try_from Frames
try_from-Frames [] h = tt
try_from-Frames (a ∷ []) h = tt
try_from-Frames (a ∷ b ∷ []) h = tt
try_from-Frames (a ∷ b ∷ c ∷ []) h = tt
try_from-Frames (a ∷ b ∷ c ∷ d ∷ payload) h =
    let header : ApduHeader = record { cla = a; ins = b; p1 = c; p2 = d } in
    rw (ltb-four (length payload)) (
      Frames-Prints a b c d payload (parse_payload header payload)
        (parse_payload-Prints header payload h.1.1.1.1))

pub try_from-print : (apdu : Apdu) → IsValid apdu → try_from (print apdu) ≡ ok apdu
unfolding try_from print
try_from-print apdu v =
    rw
      (
        ltb-four (length (body apdu.case_type apdu.lc apdu.payload apdu.le)),
        parse_payload-body apdu.header apdu.case_type apdu.lc apdu.le apdu.payload v.form
            v.lc_length,
      )
      refl

-- A frame of bytes is parsed to an APDU if and only if it is the frame that the APDU is printed to
-- and the APDU has one of the forms: its Lc counts its data and fits the Lc field of the form, and its Le
-- fits the Le field. No index or slice of the parser is out of range on the way.
pub try_from-ok_iff :
    (frame : List ℕ) (apdu : Apdu)
    → All IsByte frame
    → (Parse.try_from frame ≡ some (ok apdu)) ↔ (IsValid apdu × (print apdu ≡ frame))
try_from-ok_iff frame apdu h = (
  (λ e.
      let same : try_from frame ≡ ok apdu = ground (arith, try_from-total frame, e) in
      unfold Frames in subst (Frames frame) same (try_from-Frames frame h)),
  (λ (v, e).
      rw (try_from-total frame)
        (ap some (subst (λ t. try_from t ≡ ok apdu) e (try_from-print apdu v)))),
)
