-- ===== src/Permission.antt =====
-- src/ctap/timed_permission.rs: a permission that expires, and the user presence of CTAP1.
pub mod Presence
mod Tests
use open_sk.Common.{Bool, true, false, Option, none, some, if◌then◌else◌, ◌≡◌, refl, arith}
use open_sk.Timer.{Timer}

pub data TimedPermission (C : Type 0) : Type 0 where
  waiting : TimedPermission C
  granted : C → TimedPermission C

module _ (t : Timer) where
  open t use {ClockValue, Duration, wrapping_add, wrapping_sub, from_ms, is_less}

  -- `remaining_duration > Duration::from_ms(0)`, with a remaining duration where the clocks agree.
  unfoldable pub is_positive : Option Duration → Bool
  is_positive none = false
  is_positive (some remaining) = is_less (from_ms 0) remaining

  unfoldable pub grant : ClockValue → Duration → TimedPermission ClockValue
  grant now duration = granted (wrapping_add now duration)

  unfoldable pub is_granted : TimedPermission ClockValue → ClockValue → Bool
  is_granted waiting now = false
  is_granted (granted timeout) now = is_positive (wrapping_sub timeout now)

  unfoldable pub check_expiration :
      TimedPermission ClockValue → ClockValue → TimedPermission ClockValue
  check_expiration waiting now = waiting
  check_expiration (granted timeout) now =
      if is_positive (wrapping_sub timeout now) then granted timeout else waiting

  -- Cleaning up keeps a permission exactly while it is granted, and never changes whether it is.
  pub check_expiration-is_granted :
      (p : TimedPermission ClockValue) (now : ClockValue)
      → (check_expiration p now ≡ (if is_granted p now then p else waiting))
        × (is_granted (check_expiration p now) now ≡ is_granted p now)
  unfolding is_granted check_expiration
  check_expiration-is_granted waiting now = (refl, refl)
  check_expiration-is_granted (granted timeout) now = ground arith
