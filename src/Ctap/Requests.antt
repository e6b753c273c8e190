-- ===== src/Ctap/Requests.antt =====
-- The messages that `U2fCommand` of src/ctap/ctap1.rs takes for a command, and no others.
use open_sk.Common.{ℕ, zero, suc, ◌+◌, ◌≤◌, ◌↔◌, ◌≡◌, sym, refl, ap, arith, List, [], ◌∷◌, ◌++◌}
use open_sk.Common.{
  take, drop, length, All, get_elem?, length-take, length-drop, take-append-drop, take_all,
}
use open_sk.Common.{◌⊎◌, Option-cases, inl, inr, Bool-cases, some, ◌==◌}
use open_sk.Common.Bits.{IsByte}
use open_sk.Common.Results.{Result, ok, err, ◌>>=◌}
use open_sk.Apdu.Types.{Apdu, ApduStatusCode}
use open_sk.Apdu.Total
use open_sk.Apdu.Checked.{try_from-total}
use open_sk.Apdu.Print.{IsValid, print}
use open_sk.Apdu.Accept.{Frames, try_from-Frames, try_from-print}
use open_sk.Ctap.U2f.{Ctap1Flags, flags_from}
use open_sk.Ctap.U2f.{
  flags_byte, U2fCommand, register, authenticate, version, vendor_specific, Parsed,
}
use open_sk.Ctap.U2f.{
  parse_register, parse_handle, parse_authenticate, parse_instruction, parse_apdu,
}
use open_sk.Ctap.U2f.{try_from}
use open_sk.Apdu.Complete.{length-zero}
use open_sk.Ctap.Messages.{Asks, parse_apdu-Asks}

flags_from-ok : (b : ℕ) (flags : Ctap1Flags) → flags_from b ≡ ok flags → b ≡ flags_byte flags
unfolding flags_from flags_byte
flags_from-ok b flags e = ground arith

parse_register-ok :
    (lc : ℕ) (bytes : List ℕ) (command : U2fCommand)
    → parse_register lc bytes ≡ some (ok command)
    → (lc ≡ 64) × (command ≡ register (take 32 bytes) (take 32 (drop 32 bytes)))
unfolding parse_register
parse_register-ok lc bytes command e = ground arith

-- The command with its flags, once they are read.
abbrev HasFlags : ℕ → List ℕ → U2fCommand → Type 0
HasFlags p1 bytes command =
    (flags : Ctap1Flags) × (p1 ≡ flags_byte flags)
    × (command ≡ authenticate (take 32 bytes) (take 32 (drop 32 bytes)) (drop 65 bytes) flags)

HasFlags-ok :
    (p1 : ℕ) (bytes : List ℕ) (command : U2fCommand) (r : Result Ctap1Flags ApduStatusCode)
    → flags_from p1 ≡ r
    → (r >>= λ flags.
        ok (authenticate (take 32 bytes) (take 32 (drop 32 bytes)) (drop 65 bytes) flags))
      ≡ ok command
    → HasFlags p1 bytes command
HasFlags-ok p1 bytes command (ok flags) e h = (flags, flags_from-ok p1 flags e, ground arith)
HasFlags-ok p1 bytes command (err x) e h = absurd cc

parse_handle-ok :
    (lc p1 n : ℕ) (bytes : List ℕ) (command : U2fCommand)
    → parse_handle lc p1 n bytes ≡ ok command
    → (lc ≡ 65 + n) × HasFlags p1 bytes command
unfolding parse_handle
parse_handle-ok lc p1 n bytes command e = elim (Bool-cases (lc == 65 + n)) [
  | inl same ↦ (ground arith, HasFlags-ok p1 bytes command (flags_from p1) refl (rw same at e))
  | inr other ↦ absurd (ground (arith, e, other))
]

drop-nil : (i : ℕ) → [] ≡ drop {A = ℕ} i []
drop-nil zero = refl
drop-nil (suc i) = refl

drop-drop : (m n i : ℕ) (xs : List ℕ) → i ≡ n + m → drop m (drop n xs) ≡ drop i xs
drop-drop m zero i xs e = ap (λ j. drop j xs) (omega (arith, e))
drop-drop zero (suc n) i [] e = drop-nil i
drop-drop (suc m) (suc n) i [] e = drop-nil i
drop-drop m (suc n) zero (x ∷ xs) e = absurd (omega (arith, e))
drop-drop m (suc n) (suc i) (x ∷ xs) e = drop-drop m n i xs (omega (arith, e))

drop-at : (i : ℕ) (xs : List ℕ) (x : ℕ) → get_elem? xs i ≡ some x → drop i xs ≡ x ∷ drop (suc i) xs
drop-at i [] x e = absurd cc
drop-at zero (y ∷ xs) x e = cc
drop-at (suc i) (y ∷ xs) x e = drop-at i xs x e

-- The bytes of an authentication request, taken apart.
authenticate_bytes :
    (bytes : List ℕ) (n : ℕ)
    → get_elem? bytes 64 ≡ some n
    → length bytes ≡ 65 + n
    → (length (take 32 bytes) ≡ 32)
      × (length (take 32 (drop 32 bytes)) ≡ 32)
      × (bytes
          ≡ take 32 bytes ++ (take 32 (drop 32 bytes) ++ (length (drop 65 bytes) ∷ drop 65 bytes)))
authenticate_bytes bytes n e size =
    let rest : length (drop 65 bytes) ≡ n = omega (arith, length-drop 65 bytes) in
    (
      omega (arith, length-take 32 bytes),
      omega (arith, length-take 32 (drop 32 bytes), length-drop 32 bytes),
      sym (
          rw (rest, ← drop-at 64 bytes n e, ← drop-drop 32 32 64 bytes refl)
            (rw (take-append-drop 32 (drop 32 bytes), take-append-drop 32 bytes) refl)),
    )

parse_instruction-ok :
    (ins p1 lc : ℕ) (bytes : List ℕ) (command : U2fCommand)
    → parse_instruction ins p1 lc bytes ≡ some (ok command)
    → ((ins ≡ 1) × (parse_register lc bytes ≡ some (ok command)))
      ⊎ (((ins ≡ 2) × (parse_authenticate lc p1 bytes ≡ some (ok command)))
          ⊎ (((ins ≡ 3) × (lc ≡ 0) × (command ≡ version))
              ⊎ ((0x40 ≤ ins) × (ins ≤ 0xbf) × (command ≡ vendor_specific bytes))))
unfolding parse_instruction
parse_instruction-ok ins p1 lc bytes command e = ground arith

parse_apdu-ok :
    (apdu : Apdu) (command : U2fCommand)
    → apdu.lc ≡ length apdu.payload
    → parse_apdu apdu ≡ some (ok command)
    → (apdu.header.cla ≡ 0)
      × (parse_instruction apdu.header.ins apdu.header.p1 (length apdu.payload) apdu.payload
          ≡ some (ok command))
unfolding parse_apdu
parse_apdu-ok apdu command hl e = ground arith

Asks-authenticate :
    (apdu : Apdu) (command : U2fCommand)
    → apdu.header.ins ≡ 2
    → parse_authenticate (length apdu.payload) apdu.header.p1 apdu.payload ≡ some (ok command)
    → Asks apdu command
unfolding parse_authenticate Asks
Asks-authenticate apdu command hi e = elim (Option-cases (get_elem? apdu.payload 64)) [
  | inl gone ↦ absurd (ground (arith, e, gone))
  | inr (n, found) ↦
      let bytes = apdu.payload in
      let parsed : parse_handle (length bytes) apdu.header.p1 n bytes ≡ ok command =
        ground (arith, e, found) in
      let (size, (flags, hf, is)) =
        parse_handle-ok (length bytes) apdu.header.p1 n bytes command parsed in
      let (h1, h2, whole) = authenticate_bytes bytes n found size in rw is (hi, hf, h1, h2, whole)
]

Asks-register :
    (apdu : Apdu) (command : U2fCommand)
    → apdu.header.ins ≡ 1
    → parse_register (length apdu.payload) apdu.payload ≡ some (ok command)
    → Asks apdu command
unfolding Asks
Asks-register apdu command hi e =
    let bytes = apdu.payload in
    let (size, is) = parse_register-ok (length bytes) bytes command e in
    let rest : length (drop 32 bytes) ≡ 32 = omega (arith, length-drop 32 bytes, size) in
    rw is (
      hi,
      omega (arith, length-take 32 bytes, size),
      omega (arith, length-take 32 (drop 32 bytes), rest),
      rw (take_all 32 (drop 32 bytes) (omega (arith, rest)), take-append-drop 32 bytes) refl,
    )

Asks-ok :
    (apdu : Apdu) (command : U2fCommand)
    → apdu.lc ≡ length apdu.payload
    → parse_apdu apdu ≡ some (ok command)
    → (apdu.header.cla ≡ 0) × Asks apdu command
unfolding Asks
Asks-ok apdu command hl e =
    let (cla, h) = parse_apdu-ok apdu command hl e in
    (
      cla,
      elim (parse_instruction-ok apdu.header.ins apdu.header.p1 (length apdu.payload) apdu.payload
          command h) [
            | inl (hi, r) ↦ Asks-register apdu command hi r
            | inr (inl (hi, r)) ↦ Asks-authenticate apdu command hi r
            | inr (inr (inl (hi, z, is))) ↦ rw is (hi, length-zero apdu.payload z)
            | inr (inr (inr (lo, hi, is))) ↦ rw is (lo, hi, refl)
          ],
    )

-- The APDU of a message that asks for a command.
abbrev pub Requests : List ℕ → U2fCommand → Type 0
Requests message command =
    (apdu : Apdu) × IsValid apdu
    × (print apdu ≡ message)
    × (apdu.header.cla ≡ 0)
    × Asks apdu command

Requests-ok :
    (message : List ℕ) (command : U2fCommand) (r : Result Apdu ApduStatusCode)
    → Frames message r
    → (elim r as (λ _. Parsed) [ err e ↦ some (err e) | ok apdu ↦ parse_apdu apdu ])
      ≡ some (ok command)
    → Requests message command
unfolding Frames
Requests-ok message command (ok apdu) (v, printed) e =
    let (cla, asks) = Asks-ok apdu command v.lc_length e in (apdu, v, printed, cla, asks)
Requests-ok message command (err x) f e = absurd cc

-- A message of bytes is taken for a command if and only if it is an APDU of class 0 that asks for this
-- command: its instruction, its parameter P1 for an authentication, and its data, of which no byte is
-- left over, are those of the message formats of U2F.
pub try_from-command_iff :
    (message : List ℕ) (command : U2fCommand)
    → All IsByte message
    → (try_from message ≡ some (ok command)) ↔ Requests message command
unfolding try_from
try_from-command_iff message command h = (
  (λ e.
      Requests-ok message command (Total.try_from message) (try_from-Frames message h)
        (rw (try_from, try_from-total message) at e)),
  (λ (apdu, v, printed, cla, asks).
      rw (← printed, try_from, try_from-total (print apdu), try_from-print apdu v)
        (parse_apdu-Asks apdu command cla v.lc_length asks)),
)
