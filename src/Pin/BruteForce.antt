-- ===== src/Pin/BruteForce.antt =====
-- How often an attacker who has the device can guess the PIN that src/ctap/pin_protocol_v1.rs guards.
use open_sk.Common.{ℕ, ◌+◌, ◌-◌, ◌≤◌, ◌≡◌, refl, ap, ◌∙◌, arith, Bool, true, false}
use open_sk.Common.{List, [], ◌∷◌, ◌==◌}
use open_sk.Common.Results.{ok}
use open_sk.Storage.Read.{pin_retries}
use open_sk.Storage.Retries.{decr_pin_retries-pin_retries}
use open_sk.Formats.Cose.{CoseKey}
use open_sk.Pin.Secrets.{PinPrimitives}
use open_sk.Pin.Verify.{State, new_protocol}
use open_sk.Pin.Token.{process_get_pin_token}
use open_sk.Pin.Guessing.{IsReliable, compares, is_err, token-closed, token-open}

-- A guess is a request for the token: a key and the encrypted hash of a PIN. A reboot starts the
-- protocol anew, on the store as it is.
pub data Move : Type 0 where
  guess : CoseKey → List ℕ → Move
  reboot : Move

abbrev pub one_if : Bool → ℕ
one_if true = 1
one_if false = 0

module _ (p : PinPrimitives) where
  abbrev pub rebooted : State p → State p
  rebooted s =
      let (protocol, rng') = new_protocol p s.rng in
      record s { rng = rng'; pin_protocol = protocol }

  unfoldable pub play : Move → State p → State p
  play (guess key_agreement pin_hash_enc) s =
      (process_get_pin_token p key_agreement pin_hash_enc s).0
  play reboot s = rebooted s

  unfoldable pub play_all : List Move → State p → State p
  play_all [] s = s
  play_all (move ∷ moves) s = play_all moves (play move s)

  -- Whether the move checks a guess against the PIN.
  abbrev pub checks : Move → State p → Bool
  checks (guess key_agreement pin_hash_enc) s = compares p key_agreement s
  checks reboot s = false

  unfoldable pub checked : List Move → State p → ℕ
  checked [] s = 0
  checked (move ∷ moves) s = one_if (checks move s) + checked moves (play move s)

  abbrev pub IsWrong : Move → State p → Type 0
  IsWrong (guess key_agreement pin_hash_enc) s =
      is_err (process_get_pin_token p key_agreement pin_hash_enc s).1 ≡ true
  IsWrong reboot s = Unit

  -- No guess is answered with a token.
  abbrev pub AreWrong : List Move → State p → Type 0
  AreWrong [] s = Unit
  AreWrong (move ∷ moves) s = IsWrong move s × AreWrong moves (play move s)

  retries_left :
      (key_agreement : CoseKey) (s : State p) (n : ℕ)
      → pin_retries p.store s.persistent_store ≡ ok n
      → compares p key_agreement s ≡ true
      → (n == 0) ≡ false
  retries_left key_agreement s n e c = ground arith

  guess-pin_retries :
      (key_agreement : CoseKey) (pin_hash_enc : List ℕ) (s : State p) (n : ℕ) (b : Bool)
      → IsReliable p
      → pin_retries p.store s.persistent_store ≡ ok n
      → is_err (process_get_pin_token p key_agreement pin_hash_enc s).1 ≡ true
      → compares p key_agreement s ≡ b
      → (pin_retries p.store
            (process_get_pin_token p key_agreement pin_hash_enc s).0.persistent_store
          ≡ ok (n - one_if b))
        × (one_if b ≤ n)
  guess-pin_retries key_agreement pin_hash_enc s n true reliable e w c = (
    ap (pin_retries p.store) (token-open p key_agreement pin_hash_enc s reliable c w)
        ∙ decr_pin_retries-pin_retries p.store s.persistent_store n e
            (reliable.decr_ok s.persistent_store n e),
    ground (arith, retries_left key_agreement s n e c),
  )
  guess-pin_retries key_agreement pin_hash_enc s n false reliable e w c = (
    ap (pin_retries p.store) (token-closed p key_agreement pin_hash_enc s c)
        ∙ e
        ∙ ap (λ m. ok m) (omega arith),
    omega arith,
  )

  -- A wrong guess that is checked uses up a retry, and no other move does.
  play-pin_retries :
      (move : Move) (s : State p) (n : ℕ)
      → IsReliable p
      → pin_retries p.store s.persistent_store ≡ ok n
      → IsWrong move s
      → (pin_retries p.store (play move s).persistent_store ≡ ok (n - one_if (checks move s)))
        × (one_if (checks move s) ≤ n)
  unfolding play
  play-pin_retries reboot s n reliable e w = (e ∙ ap (λ m. ok m) (omega arith), omega arith)
  play-pin_retries (guess key_agreement pin_hash_enc) s n reliable e w =
      guess-pin_retries key_agreement pin_hash_enc s n (compares p key_agreement s) reliable e w
        refl

  -- Over any guesses and reboots, of which no guess is answered with a token: the guesses that are
  -- checked against the PIN and the retries that are left are together the retries at the start. So
  -- an attacker has as many guesses as there are retries, and none after. The store has to take
  -- every retry counter.
  pub checked-add-retries :
      (moves : List Move) (s : State p) (n : ℕ)
      → IsReliable p
      → pin_retries p.store s.persistent_store ≡ ok n
      → AreWrong moves s
      → (left : ℕ) × (pin_retries p.store (play_all moves s).persistent_store ≡ ok left)
        × (checked moves s + left ≡ n)
  unfolding play_all checked
  checked-add-retries [] s n reliable e w = (n, e, omega arith)
  checked-add-retries (move ∷ moves) s n reliable e w =
      let (e', le) = play-pin_retries move s n reliable e w.0 in
      let (left, e'', sum) =
        checked-add-retries moves (play move s) (n - one_if (checks move s)) reliable e' w.1 in
      (left, e'', omega (arith, sum, le))
