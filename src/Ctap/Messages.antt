-- ===== src/Ctap/Messages.antt =====
-- The messages that `U2fCommand` of src/ctap/ctap1.rs parses.
use open_sk.Common.{
  drop-past, get_elem?-past, ◌∙◌, ℕ, zero, suc, ◌+◌, ◌≤◌, take_all, ◌≡◌, ◌≢◌, ◌<◌, refl, arith,
  List, [], ◌∷◌, ◌++◌, drop, length, get_elem?,
}
use open_sk.Common.{length-append, take_exact, drop_exact, none, some}
use open_sk.Common.Actions.{Result-cases}
use open_sk.Common.{inl, inr}
use open_sk.Common.Results.{ok}
use open_sk.Apdu.Types.{Apdu}
use open_sk.Apdu.Total
use open_sk.Apdu.Checked.{try_from-total}
use open_sk.Ctap.U2f.{
  Ctap1Flags, check_only, enforce_up_and_sign, dont_enforce_up_and_sign, flags_from,
}
use open_sk.Ctap.U2f.{flags_byte, U2fCommand, register, authenticate, version, vendor_specific}
use open_sk.Ctap.U2f.{
  parse_register, parse_handle, parse_authenticate, parse_instruction, parse_apdu,
}
use open_sk.Ctap.U2f.{try_from}

get_elem?-some : (bytes : List ℕ) (i : ℕ) → i < length bytes → get_elem? bytes i ≢ none
get_elem?-some [] i h e = absurd (omega arith)
get_elem?-some (x ∷ bytes) zero h e = cc
get_elem?-some (x ∷ bytes) (suc i) h e = get_elem?-some bytes i (omega arith) e

parse_register-total :
    (lc : ℕ) (bytes : List ℕ) → lc ≤ length bytes → parse_register lc bytes ≢ none
unfolding parse_register
parse_register-total lc bytes h = ground arith

parse_authenticate-total :
    (lc p1 : ℕ) (bytes : List ℕ) → lc ≤ length bytes → parse_authenticate lc p1 bytes ≢ none
unfolding parse_authenticate
parse_authenticate-total lc p1 bytes h = ground (arith, get_elem?-some bytes 64)

parse_instruction-total :
    (ins p1 lc : ℕ) (bytes : List ℕ) → lc ≤ length bytes → parse_instruction ins p1 lc bytes ≢ none
unfolding parse_instruction
parse_instruction-total ins p1 lc bytes h =
    ground (arith, parse_register-total lc bytes h, parse_authenticate-total lc p1 bytes h)

parse_apdu-total : (apdu : Apdu) → parse_apdu apdu ≢ none
unfolding parse_apdu
parse_apdu-total apdu =
    ground (arith, parse_instruction-total apdu.header.ins apdu.header.p1 apdu.lc apdu.payload)

-- Any message is parsed or refused: neither the parser of APDUs nor the one of commands reads out of
-- range.
pub try_from-no_panic : (message : List ℕ) → try_from message ≢ none
unfolding try_from
try_from-no_panic message =
    rw (try_from, try_from-total message)
      (elim (Result-cases (Total.try_from message)) [
        | inl (apdu, e) ↦ rw e (parse_apdu-total apdu)
        | inr (code, e) ↦ rw e (λ h. cc)
      ])

-- What an APDU asks for, by the message formats of U2F.
unfoldable pub Asks : Apdu → U2fCommand → Type 0
Asks apdu (register challenge application) =
    (apdu.header.ins ≡ 1)
    × (length challenge ≡ 32)
    × (length application ≡ 32)
    × (apdu.payload ≡ challenge ++ application)
Asks apdu (authenticate challenge application key_handle flags) =
    (apdu.header.ins ≡ 2)
    × (apdu.header.p1 ≡ flags_byte flags)
    × (length challenge ≡ 32)
    × (length application ≡ 32)
    × (apdu.payload ≡ challenge ++ (application ++ (length key_handle ∷ key_handle)))
Asks apdu version = (apdu.header.ins ≡ 3) × (apdu.payload ≡ [])
Asks apdu (vendor_specific bytes) =
    (0x40 ≤ apdu.header.ins) × (apdu.header.ins ≤ 0xbf) × (apdu.payload ≡ bytes)

flags_from-flags_byte : (flags : Ctap1Flags) → flags_from (flags_byte flags) ≡ ok flags
unfolding flags_from flags_byte
flags_from-flags_byte check_only = refl
flags_from-flags_byte enforce_up_and_sign = refl
flags_from-flags_byte dont_enforce_up_and_sign = refl

parse_register-append :
    (challenge application : List ℕ)
    → length challenge ≡ 32
    → length application ≡ 32
    → parse_register 64 (challenge ++ application) ≡ some (ok (register challenge application))
unfolding parse_register
parse_register-append challenge application hc ha = ground (
  arith,
  length-append challenge application,
  take_exact 32 challenge application hc,
  drop_exact 32 challenge application hc,
  take_all 32 application,
)

parse_authenticate-append :
    (challenge application key_handle : List ℕ) (flags : Ctap1Flags)
    → length challenge ≡ 32
    → length application ≡ 32
    → let bytes = challenge ++ (application ++ (length key_handle ∷ key_handle)) in
      parse_authenticate (length bytes) (flags_byte flags) bytes
      ≡ some (ok (authenticate challenge application key_handle flags))
unfolding parse_authenticate parse_handle
parse_authenticate-append challenge application key_handle flags hc ha =
    let tail = length key_handle ∷ key_handle in
    let bytes = challenge ++ (application ++ tail) in
    let size : length bytes ≡ 65 + length key_handle = omega (
      arith,
      length-append challenge (application ++ tail),
      length-append application tail,
      hc,
      ha,
    ) in
    let handle_length : get_elem? bytes 64 ≡ some (length key_handle) =
      get_elem?-past challenge (application ++ tail) 32 64 (omega (arith, hc))
      ∙ get_elem?-past application tail 0 32 (omega (arith, ha)) in
    let handle : drop 65 bytes ≡ key_handle =
      drop-past challenge (application ++ tail) 33 65 (omega (arith, hc))
      ∙ drop-past application tail 1 33 (omega (arith, ha)) in
    rw
      (
        handle_length,
        handle,
        take_exact 32 challenge (application ++ tail) hc,
        drop_exact 32 challenge (application ++ tail) hc,
        take_exact 32 application tail ha,
        flags_from-flags_byte flags,
      )
      (ground (arith, size))

parse_apdu-instruction :
    (apdu : Apdu)
    → apdu.header.cla ≡ 0
    → apdu.lc ≡ length apdu.payload
    → parse_apdu apdu
      ≡ parse_instruction apdu.header.ins apdu.header.p1 (length apdu.payload) apdu.payload
unfolding parse_apdu
parse_apdu-instruction apdu hc hl = ground (arith, hl)

pub parse_apdu-Asks :
    (apdu : Apdu) (command : U2fCommand)
    → apdu.header.cla ≡ 0
    → apdu.lc ≡ length apdu.payload
    → Asks apdu command
    → parse_apdu apdu ≡ some (ok command)
unfolding parse_instruction Asks
parse_apdu-Asks apdu (register challenge application) hc hl (hi, h1, h2, hp) =
    let size : length (challenge ++ application) ≡ 64 =
      omega (arith, length-append challenge application, h1, h2) in
    rw (parse_apdu-instruction apdu hc hl, hi, hp, size)
      (parse_register-append challenge application h1 h2)
parse_apdu-Asks apdu (authenticate challenge application key_handle flags) hc hl
      (hi, hf, h1, h2, hp) =
    rw (parse_apdu-instruction apdu hc hl, hi, hf, hp)
      (parse_authenticate-append challenge application key_handle flags h1 h2)
parse_apdu-Asks apdu version hc hl (hi, hp) = rw (parse_apdu-instruction apdu hc hl, hi, hp) refl
parse_apdu-Asks apdu (vendor_specific bytes) hc hl (h1, h2, hp) =
    rw (parse_apdu-instruction apdu hc hl, hp) (ground arith)
