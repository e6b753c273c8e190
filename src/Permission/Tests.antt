-- ===== src/Permission/Tests.antt =====
-- Runs of the user presence of CTAP1, on a clock of milliseconds, and the theorems at inputs.
use open_sk.Common.{ℕ, ◌≤◌, ◌≡◌, refl, true, false, List, [], ◌∷◌}
use open_sk.Timer.{ticking}
use open_sk.Permission
use open_sk.Permission.{TimedPermission, waiting, granted, grant, is_granted, is_positive}
use open_sk.Permission.{check_expiration-is_granted}
use open_sk.Permission.Presence.{State, Call, touch, consume}
use open_sk.Permission.Presence.{grant_up, consume_up, calls, begin, call}
use open_sk.Permission.Presence.{accepted-le_touches, consume_up-grant_up}

-- A request, a touch, a command that is let through, and one that is not.
abbrev busy : List (Call ℕ)
busy = consume 0 ∷ touch 10 ∷ consume 20 ∷ consume 30 ∷ []

busy_accepted : (calls ticking (begin ticking 1000 1000) busy).accepted ≡ 1
unfolding calls call begin is_granted grant is_positive Permission.check_expiration
busy_accepted = refl

-- The touch comes when the request has expired.
late_touch :
    (calls ticking (begin ticking 1000 1000) (consume 0 ∷ touch 1000 ∷ consume 1001 ∷ [])).accepted
    ≡ 0
unfolding calls call begin is_granted grant is_positive Permission.check_expiration
late_touch = refl

accepted-le_touches_example :
    let s = calls ticking (begin ticking 1000 1000) busy in
    (s.accepted ≤ s.touches) × (s.accepted ≤ s.requests)
accepted-le_touches_example = accepted-le_touches ticking 1000 1000 busy

abbrev asked : State ticking
asked = record {
  needs_up = granted 1000;
  has_up = waiting;
  request_duration = 1000;
  presence_duration = 500;
}

consume_up-grant_up_example :
    let (s₁, first) = consume_up ticking (grant_up ticking asked 7) 7 in
    (first ≡ true) × ((consume_up ticking s₁ 7).1 ≡ false)
consume_up-grant_up_example =
    consume_up-grant_up ticking asked 7 refl (unfold is_positive in refl)
      (unfold is_granted is_positive in refl)
