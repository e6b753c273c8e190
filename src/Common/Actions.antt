-- ===== src/Common/Actions.antt =====
-- Calls that change a state and may fail. A failed call leaves what it has written.
use mathlib.Core.Path.{◌≡◌, refl, sym, subst}
use mathlib.Core.Logic.{◌⊎◌, inl, inr}
use mathlib.Core.Bool.{Bool, true, false}
use open_sk.Common.Tests.{if◌then◌else◌}
use open_sk.Common.Results.{Result, ok, err, map_err}

module _ (S E : Type 0) where
  abbrev pub Action : Type 0 → Type 0
  Action A = S → S × Result A E

module _ {S E : Type 0} where
  -- `?` between two calls.
  infixl 5 ◌>>=◌
  abbrev pub ◌>>=◌ : {A B : Type 0} → Action S E A → (A → Action S E B) → Action S E B
  ◌>>=◌ call next s = elim (call s).1 [ ok a ↦ next a (call s).0 | err e ↦ ((call s).0, err e) ]

  abbrev pub done : {A : Type 0} → A → Action S E A
  done a s = (s, ok a)

  abbrev pub fail : {A : Type 0} → E → Action S E A
  fail e s = (s, err e)

  -- A call that only reads.
  abbrev pub reading : {A : Type 0} → (S → Result A E) → Action S E A
  reading f s = (s, f s)

  -- An early return of an error.
  abbrev pub fail_if : Bool → E → Action S E (Unit {0})
  fail_if c e s = (s, if c then err e else ok tt)

  abbrev pub changing : (S → S) → Action S E (Unit {0})
  changing f s = (f s, ok tt)

  -- `From` of the error.
  abbrev pub converting : {A F : Type 0} → (F → E) → (S → S × Result A F) → Action S E A
  converting f call s = ((call s).0, map_err f (call s).1)

pub Result-cases {ℓ κ} :
    {A : Type ℓ} {E : Type κ} (r : Result A E) → ((a : A) × (r ≡ ok a)) ⊎ ((e : E) × (r ≡ err e))
Result-cases (ok a) = inl (a, refl)
Result-cases (err e) = inr (e, refl)

-- What holds after two calls, by what the first one answers.
pub after :
    {S E A B : Type 0} (P : S × Result B E → Type 0) (call : Action S E A) (next : A → Action S E B)
    (s : S)
    → ((a : A) → (call s).1 ≡ ok a → P (next a (call s).0))
    → ((e : E) → (call s).1 ≡ err e → P ((call s).0, err e))
    → P ((call >>= next) s)
after P call next s good bad = elim (Result-cases (call s).1) [
  | inl (a, h) ↦
      subst (λ r. P (elim r [ ok b ↦ next b (call s).0 | err e ↦ ((call s).0, err e) ])) (sym h)
        (good a h)
  | inr (e, h) ↦
      subst (λ r. P (elim r [ ok b ↦ next b (call s).0 | err e ↦ ((call s).0, err e) ])) (sym h)
        (bad e h)
]

-- A call after which a predicate of the state still holds.
pub record Keeps {S E A : Type 0} (P : S → Type 0) (call : Action S E A) : Type 0 where
  pub keeps : (s : S) → P s → P (call s).0

pub Keeps-bind :
    {S E A B : Type 0} {P : S → Type 0} {call : Action S E A} {next : A → Action S E B}
    → Keeps P call
    → ((a : A) → Keeps P (next a))
    → Keeps P (call >>= next)
Keeps-bind {P} {call} {next} first rest = record {
  keeps = λ s h.
      after (λ r. P r.0) call next s (λ a e. (rest a).keeps (call s).0 (first.keeps s h))
        (λ e e'. first.keeps s h);
}

module _ {S E : Type 0} {P : S → Type 0} where
  pub done-Keeps : {A : Type 0} (a : A) → Keeps P (done {S = S} {E = E} a)
  done-Keeps a = record { keeps = λ s h. h }

  pub fail-Keeps : {A : Type 0} (e : E) → Keeps P (fail {S = S} {E = E} {A = A} e)
  fail-Keeps e = record { keeps = λ s h. h }

  pub reading-Keeps : {A : Type 0} (f : S → Result A E) → Keeps P (reading f)
  reading-Keeps f = record { keeps = λ s h. h }

  pub fail_if-Keeps : (c : Bool) (e : E) → Keeps P (fail_if {S = S} {E = E} c e)
  fail_if-Keeps c e = record { keeps = λ s h. h }

  pub if-Keeps :
      {A : Type 0} (c : Bool) (call other : Action S E A)
      → Keeps P call
      → Keeps P other
      → Keeps P (if c then call else other)
  if-Keeps true call other k k' = k
  if-Keeps false call other k k' = k'

pub ruleset keeps_rules =
    (done-Keeps, fail-Keeps, reading-Keeps, fail_if-Keeps, if-Keeps, Keeps-bind)
