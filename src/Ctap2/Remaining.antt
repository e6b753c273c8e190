-- ===== src/Ctap2/Remaining.antt =====
-- The assertions that src/ctap/mod.rs gives one after the other.
use open_sk.Common.{true, List, [], ◌∷◌, ◌++◌, length, All, none, some}
use open_sk.Common.{◌≡◌, refl, arith, ap, ◌∙◌}
use open_sk.Common.Results.{Result, err}
use open_sk.Timer.{Timer}
use open_sk.Permission.{is_granted, check_expiration-is_granted}
use open_sk.Ctap.Status.{Ctap2StatusCode, ctap2_err_not_allowed}
use open_sk.Formats.Entities.{each}
use open_sk.Formats.Responses.{ResponseData}
use open_sk.Ctap2.Device.{Device, State, Source, AssertionInput, get_assertion}
use open_sk.Ctap2.Device.{check_command_permission, update_command_permission}
use open_sk.Ctap2.Credentials.{pop, assertion_response, extended_auth_data, generate_cred_random}
use open_sk.Ctap2.Assertions.{take_next, process_get_next_assertion}

abbrev pub reverse : {A : Type 0} → List A → List A
reverse [] = []
reverse (a ∷ rest) = reverse rest ++ a ∷ []

pop-last :
    {A : Type 0} (before : List A) (last : A) → pop (before ++ last ∷ []) ≡ some (before, last)
unfolding pop
pop-last [] last = refl
pop-last (a ∷ before) last = rw (pop-last before last) refl

module _ (t : Timer) (d : Device) where
  open t use {ClockValue}

  abbrev pub Answer : Type 0
  Answer = Result ResponseData Ctap2StatusCode

  -- The answers to requests for a next assertion at the given times.
  unfoldable pub next_assertions : List ClockValue → State t d → List Answer
  next_assertions [] s = []
  next_assertions (now ∷ times) s =
      let (s', answer) = process_get_next_assertion t d now s in answer ∷ next_assertions times s'

  -- What is left to answer, from the most recent credential on.
  abbrev pub with_remaining : AssertionInput → List (Source t d) → State t d → State t d
  with_remaining input recent_first s = record s {
    stateful_command_type = some (
        get_assertion
          (record { assertion_input = input; next_credentials = reverse recent_first }));
  }

  next-one :
      (now : ClockValue) (input : AssertionInput) (credential : Source t d)
      (recent_first : List (Source t d)) (s : State t d)
      → is_granted t s.stateful_command_permission now ≡ true
      → process_get_next_assertion t d now (with_remaining input (credential ∷ recent_first) s)
        ≡ (with_remaining input recent_first s, assertion_response t d credential input none s)
  unfolding process_get_next_assertion check_command_permission update_command_permission take_next
      assertion_response extended_auth_data generate_cred_random
  next-one now input credential recent_first s g =
      let c = check_expiration-is_granted t s.stateful_command_permission now in
      ground (arith, c, pop-last (reverse recent_first) credential)

  next-none :
      (now : ClockValue) (input : AssertionInput) (s : State t d)
      → (process_get_next_assertion t d now (with_remaining input [] s)).1
        ≡ err ctap2_err_not_allowed
  unfolding process_get_next_assertion check_command_permission update_command_permission take_next
      pop
  next-none now input s = ground arith

  -- While the permission lasts, the requests for a next assertion are answered by the remaining
  -- credentials, each once and the most recent one first, as the input of the first assertion says;
  -- the request after these is refused.
  pub next_assertions-recent_first :
      (times : List ClockValue) (last : ClockValue) (input : AssertionInput)
      (recent_first : List (Source t d)) (s : State t d)
      → All (λ now. is_granted t s.stateful_command_permission now ≡ true) times
      → length times ≡ length recent_first
      → next_assertions (times ++ last ∷ []) (with_remaining input recent_first s)
        ≡ each (λ c. assertion_response t d c input none s) recent_first
          ++ err ctap2_err_not_allowed ∷ []
  unfolding next_assertions
  next_assertions-recent_first [] last input [] s g n =
      ap (λ answer. answer ∷ []) (next-none last input s)
  next_assertions-recent_first [] last input (credential ∷ recent_first) s g n =
      absurd (omega arith)
  next_assertions-recent_first (now ∷ times) last input [] s g n = absurd (omega arith)
  next_assertions-recent_first (now ∷ times) last input (credential ∷ recent_first) s g n =
      ap (λ r. r.1 ∷ next_assertions (times ++ last ∷ []) r.0)
        (next-one now input credential recent_first s g.0)
      ∙ ap (λ answers. assertion_response t d credential input none s ∷ answers)
          (next_assertions-recent_first times last input recent_first s g.1 (omega (arith, n)))
