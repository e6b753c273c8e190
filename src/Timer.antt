-- ===== src/Timer.antt =====
-- The types of libtock_drivers::timer, which the firmware calls and does not implement: a clock with
-- wrapping arithmetic, durations and timestamps. A parameter of the parts that keep time.
use open_sk.Common.{ℕ, ◌+◌, ◌-◌, Bool, Option, some, ltb}

pub record Timer : Type 1 where
  pub ClockValue : Type 0
  pub Duration : Type 0
  pub Timestamp : Type 0
  pub wrapping_add : ClockValue → Duration → ClockValue
  pub wrapping_sub : ClockValue → ClockValue → Option Duration
  pub from_ms : ℕ → Duration
  pub is_less : Duration → Duration → Bool
  pub timestamp_from_ms : ℕ → Timestamp
  pub from_clock_value : ClockValue → Timestamp
  pub since : Timestamp → Timestamp → Duration

-- A clock that counts milliseconds and never wraps, for tests.
abbrev pub ticking : Timer
ticking = record {
  ClockValue = ℕ;
  Duration = ℕ;
  Timestamp = ℕ;
  wrapping_add = λ now d. now + d;
  wrapping_sub = λ a b. some (a - b);
  from_ms = λ n. n;
  is_less = ltb;
  timestamp_from_ms = λ n. n;
  from_clock_value = λ n. n;
  since = λ a b. a - b;
}
