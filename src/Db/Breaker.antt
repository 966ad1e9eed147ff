-- ===== src/Db/Breaker.antt =====
-- PgPool::CircuitBreaker of core/db/postgres/interfaces/PgPool.h. Time points of the steady clock
-- are numbers, and do not wrap.
pub mod Invariant
pub mod Admission
use adequate_api_cpp.Base.{
  ℕ, suc, ◌+◌, ◌≤◌, ◌<◌, ◌≡◌, refl, Bool, true, false, if◌then◌else◌, ltb, leb, List, [], ◌∷◌,
  arith,
}

pub data BreakerState : Type 0 where
  closed open_state half_open : BreakerState

pub record CircuitBreaker : Type 0 where
  pub state : BreakerState
  pub consecutive_failures : ℕ
  pub failure_threshold : ℕ
  pub open_duration : ℕ
  pub open_until : ℕ
  pub half_open_probe_inflight : Bool

-- The member initialisers; the duration is three seconds in nanoseconds.
abbrev pub initial : CircuitBreaker
initial = record {
  state = closed;
  consecutive_failures = 0;
  failure_threshold = 5;
  open_duration = 3_000_000_000;
  open_until = 0;
  half_open_probe_inflight = false;
}

-- The tail of `allow`: in the half-open state one probe at a time.
abbrev pub admit_probe : CircuitBreaker → Bool × CircuitBreaker
admit_probe b =
    if b.half_open_probe_inflight
    then (false, b)
    else (true, record b { half_open_probe_inflight = true })

abbrev pub allow_in : BreakerState → CircuitBreaker → ℕ → Bool × CircuitBreaker
allow_in closed b now = (true, b)
allow_in open_state b now =
    if ltb now b.open_until
    then (false, b)
    else admit_probe (record b { state = half_open; half_open_probe_inflight = false })
allow_in half_open b now = admit_probe b

unfoldable pub allow : CircuitBreaker → ℕ → Bool × CircuitBreaker
allow b now = allow_in b.state b now

unfoldable pub on_success : CircuitBreaker → CircuitBreaker
on_success b = record b {
  state = closed;
  consecutive_failures = 0;
  half_open_probe_inflight = false;
}

abbrev pub count_failure : CircuitBreaker → ℕ → CircuitBreaker
count_failure b now =
    let failures = suc b.consecutive_failures in
    if leb b.failure_threshold failures
    then record b {
      consecutive_failures = failures;
      state = open_state;
      open_until = now + b.open_duration;
      half_open_probe_inflight = false;
    }
    else record b { consecutive_failures = failures }

abbrev pub fail_in : BreakerState → CircuitBreaker → ℕ → CircuitBreaker
fail_in half_open b now = record b {
  state = open_state;
  open_until = now + b.open_duration;
  consecutive_failures = b.failure_threshold;
  half_open_probe_inflight = false;
}
fail_in _ b now = count_failure b now

unfoldable pub on_failure : CircuitBreaker → ℕ → CircuitBreaker
on_failure b now = fail_in b.state b now
