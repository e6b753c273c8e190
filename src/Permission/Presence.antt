-- ===== src/Permission/Presence.antt =====
-- `U2fUserPresenceState` of src/ctap/timed_permission.rs, and its calls over time.
use open_sk.Common.{ℕ, ◌+◌, ◌≤◌, Bool, true, false, List, [], ◌∷◌, if◌then◌else◌, ◌≡◌, refl}
use open_sk.Common.{arith, some}
use open_sk.Timer.{Timer}
use open_sk.Permission
use open_sk.Permission.{TimedPermission, waiting, granted, grant, is_granted, is_positive}
use open_sk.Permission.{check_expiration-is_granted}

pub record U2fUserPresenceState (C D : Type 0) : Type 0 where
  pub needs_up : TimedPermission C
  pub has_up : TimedPermission C
  pub request_duration : D
  pub presence_duration : D

-- The calls on the state: `grant_up` when the button is touched, `consume_up` when a command needs
-- the user, `is_up_needed` and `check_expiration` in between.
pub data Call (C : Type 0) : Type 0 where
  touch : C → Call C
  consume : C → Call C
  query : C → Call C
  clean : C → Call C

-- A state with the calls so far: how many asked for a touch, how many were touches, and how many
-- were told that the user is present.
pub record Session (C D : Type 0) : Type 0 where
  pub state : U2fUserPresenceState C D
  pub requests : ℕ
  pub touches : ℕ
  pub accepted : ℕ

module _ (t : Timer) where
  open t use {ClockValue, Duration, wrapping_add, wrapping_sub}

  abbrev pub State : Type 0
  State = U2fUserPresenceState ClockValue Duration

  unfoldable pub new : Duration → Duration → State
  new request presence = record {
    needs_up = waiting;
    has_up = waiting;
    request_duration = request;
    presence_duration = presence;
  }

  unfoldable pub check_expiration : State → ClockValue → State
  check_expiration s now = record s {
    needs_up = Permission.check_expiration t s.needs_up now;
    has_up = Permission.check_expiration t s.has_up now;
  }

  unfoldable pub grant_up : State → ClockValue → State
  unfolding check_expiration
  grant_up s now =
      let s' = check_expiration s now in
      if is_granted t s'.needs_up now
      then record s' { needs_up = waiting; has_up = grant t now s'.presence_duration }
      else s'

  unfoldable pub consume_up : State → ClockValue → State × Bool
  unfolding check_expiration
  consume_up s now =
      let s' = check_expiration s now in
      if is_granted t s'.has_up now
      then (record s' { has_up = waiting }, true)
      else (record s' { needs_up = grant t now s'.request_duration }, false)

  unfoldable pub is_up_needed : State → ClockValue → State × Bool
  unfolding check_expiration
  is_up_needed s now = let s' = check_expiration s now in (s', is_granted t s'.needs_up now)

  unfoldable pub begin : Duration → Duration → Session ClockValue Duration
  unfolding new
  begin request presence = record {
    state = new request presence;
    requests = 0;
    touches = 0;
    accepted = 0;
  }

  unfoldable pub call : Session ClockValue Duration → Call ClockValue → Session ClockValue Duration
  unfolding grant_up consume_up is_up_needed check_expiration
  call s (touch now) = record s { state = grant_up s.state now; touches = s.touches + 1 }
  call s (consume now) =
      let (state', present) = consume_up s.state now in
      if present
      then record s { state = state'; accepted = s.accepted + 1 }
      else record s { state = state'; requests = s.requests + 1 }
  call s (query now) = record s { state = (is_up_needed s.state now).0 }
  call s (clean now) = record s { state = check_expiration s.state now }

  unfoldable pub calls :
      Session ClockValue Duration → List (Call ClockValue) → Session ClockValue Duration
  calls s [] = s
  calls s (c ∷ cs) = calls (call s c) cs

  abbrev outstanding : TimedPermission ClockValue → ℕ
  outstanding waiting = 0
  outstanding (granted timeout) = 1

  -- Each presence that was accepted or is ready had its touch, and that touch its request.
  record IsPaid (s : Session ClockValue Duration) : Type 0 where
    touched : s.accepted + outstanding s.state.has_up ≤ s.touches
    requested : s.accepted + outstanding s.state.has_up + outstanding s.state.needs_up ≤ s.requests

  outstanding-le_one : (p : TimedPermission ClockValue) → outstanding p ≤ 1
  outstanding-le_one waiting = omega arith
  outstanding-le_one (granted timeout) = omega arith

  is_granted-outstanding :
      (p : TimedPermission ClockValue) (now : ClockValue)
      → is_granted t p now ≡ true
      → outstanding p ≡ 1
  unfolding is_granted
  is_granted-outstanding waiting now h = cc
  is_granted-outstanding (granted timeout) now h = refl

  expire-le :
      (p : TimedPermission ClockValue) (now : ClockValue)
      → outstanding (Permission.check_expiration t p now) ≤ outstanding p
  unfolding Permission.check_expiration
  expire-le waiting now = omega arith
  expire-le (granted timeout) now = ground arith

  call-IsPaid :
      (s : Session ClockValue Duration) (c : Call ClockValue) → IsPaid s → IsPaid (call s c)
  unfolding call
  call-IsPaid s (touch now) p = ground (
    arith,
    expire-le s.state.needs_up now,
    expire-le s.state.has_up now,
    is_granted-outstanding (Permission.check_expiration t s.state.needs_up now) now,
    outstanding-le_one (grant t now s.state.presence_duration),
  )
  call-IsPaid s (consume now) p = ground (
    arith,
    expire-le s.state.needs_up now,
    expire-le s.state.has_up now,
    is_granted-outstanding (Permission.check_expiration t s.state.has_up now) now,
    outstanding-le_one (grant t now s.state.request_duration),
  )
  call-IsPaid s (query now) p =
      ground (arith, expire-le s.state.needs_up now, expire-le s.state.has_up now)
  call-IsPaid s (clean now) p =
      ground (arith, expire-le s.state.needs_up now, expire-le s.state.has_up now)

  calls-IsPaid :
      (cs : List (Call ClockValue)) (s : Session ClockValue Duration)
      → IsPaid s
      → IsPaid (calls s cs)
  unfolding calls
  calls-IsPaid [] s p = p
  calls-IsPaid (c ∷ cs) s p = calls-IsPaid cs (call s c) (call-IsPaid s c p)

  -- Over any calls at any times, starting from a new state, user presence is accepted at most as
  -- often as the button was touched, and at most as often as a touch was asked for.
  pub accepted-le_touches :
      (request presence : Duration) (cs : List (Call ClockValue))
      → let s = calls (begin request presence) cs in
        (s.accepted ≤ s.touches) × (s.accepted ≤ s.requests)
  accepted-le_touches request presence cs =
      let p = calls-IsPaid cs (begin request presence) (unfold begin in ground arith) in omega arith

  fresh-is_granted :
      (d : Duration) (now : ClockValue)
      → wrapping_sub (wrapping_add now d) now ≡ some d
      → is_positive t (some d) ≡ true
      → is_granted t (grant t now d) now ≡ true
  unfolding is_granted grant
  fresh-is_granted d now measures positive = rw (measures, positive)

  waiting-is_granted :
      (now : ClockValue)
      → (is_granted t waiting now ≡ false) × (Permission.check_expiration t waiting now ≡ waiting)
  unfolding is_granted Permission.check_expiration
  waiting-is_granted now = (refl, refl)

  -- A touch while a request is open is accepted once: the next call that consumes user presence at
  -- that time answers true, and the one after it answers false. The clock has to measure the
  -- durations that were added to it, and the durations have to be positive.
  pub consume_up-grant_up :
      (s : State) (now : ClockValue)
      → wrapping_sub (wrapping_add now s.presence_duration) now ≡ some s.presence_duration
      → is_positive t (some s.presence_duration) ≡ true
      → is_granted t s.needs_up now ≡ true
      → let (s₁, first) = consume_up (grant_up s now) now in
        (first ≡ true) × ((consume_up s₁ now).1 ≡ false)
  unfolding consume_up grant_up
  consume_up-grant_up s now measures positive open_request = ground (
    arith,
    fresh-is_granted s.presence_duration now measures positive,
    check_expiration-is_granted t s.needs_up now,
    check_expiration-is_granted t (grant t now s.presence_duration) now,
    waiting-is_granted now,
  )
