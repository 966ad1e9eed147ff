-- ===== src/Db/Breaker/Admission.antt =====
-- Whom the circuit breaker lets through, over sequences of calls.
use adequate_api_cpp.Base.{
  ℕ, ◌+◌, ◌≤◌, ◌<◌, ◌≡◌, refl, Bool, true, false, List, [], ◌∷◌, All, length, ◌↔◌, arith,
}
use adequate_api_cpp.Db.Breaker.{
  closed, open_state, half_open, CircuitBreaker, allow, on_failure, fail_in,
}

-- The answers of a row of `allow` calls at the given times, and the breaker after them.
unfoldable pub admissions : CircuitBreaker → List ℕ → List Bool × CircuitBreaker
admissions b [] = ([], b)
admissions b (now ∷ times) =
    let (answer, b') = allow b now in
    let (answers, b'') = admissions b' times in (answer ∷ answers, b'')

abbrev pub IsRefusal : Bool → Type 0
IsRefusal answer = answer ≡ false

unfoldable pub fail_times : CircuitBreaker → List ℕ → CircuitBreaker
fail_times b [] = b
fail_times b (now ∷ times) = fail_times (on_failure b now) times

-- While open and before `open_until` every call is refused, and the breaker does not change.
pub open_refuses :
    (b : CircuitBreaker) (times : List ℕ)
    → b.state ≡ open_state
    → All (λ now. now < b.open_until) times
    → All IsRefusal (admissions b times).0 × ((admissions b times).1 ≡ b)
unfolding admissions allow
open_refuses b [] o h = (tt, refl)
open_refuses b (now ∷ times) o h = ground (arith, open_refuses b times o h.1)

-- With a probe in flight every call is refused at any time, and the breaker does not change: only
-- `on_success` or `on_failure` lets anyone through again.
pub probe_blocks :
    (b : CircuitBreaker) (times : List ℕ)
    → b.state ≡ half_open
    → b.half_open_probe_inflight ≡ true
    → All IsRefusal (admissions b times).0 × ((admissions b times).1 ≡ b)
unfolding admissions allow
probe_blocks b [] s p = (tt, refl)
probe_blocks b (now ∷ times) s p = ground (arith, probe_blocks b times s p)

allow_expired :
    (b : CircuitBreaker) (now : ℕ)
    → b.state ≡ open_state
    → b.open_until ≤ now
    → allow b now ≡ (true, record b { state = half_open; half_open_probe_inflight = true })
unfolding allow
allow_expired b now o h = ground arith

-- When the open time of an open breaker is over, the first call goes through as the probe, and
-- all the calls that follow it, at whatever times and with no outcome reported, are refused.
pub single_probe :
    (b : CircuitBreaker) (now : ℕ) (times : List ℕ)
    → b.state ≡ open_state
    → b.open_until ≤ now
    → ((allow b now).0 ≡ true) × All IsRefusal (admissions (allow b now).1 times).0
single_probe b now times o h =
    let probing : CircuitBreaker = record b {
      state = half_open;
      half_open_probe_inflight = true;
    } in
    rw (allow_expired b now o h) (refl, (probe_blocks probing times refl refl).0)

fail_times-open :
    (b : CircuitBreaker) (times : List ℕ)
    → b.state ≡ open_state
    → b.failure_threshold ≤ b.consecutive_failures
    → (fail_times b times).state ≡ open_state
unfolding fail_times on_failure
fail_times-open b [] o h = o
fail_times-open b (now ∷ times) o h =
    fail_times-open (on_failure b now) times (ground arith) (ground arith)

-- Failures in a row open a closed breaker exactly when they bring the count to the threshold.
pub opens_at_threshold :
    (b : CircuitBreaker) (times : List ℕ)
    → b.state ≡ closed
    → b.consecutive_failures < b.failure_threshold
    → ((fail_times b times).state ≡ open_state)
      ↔ (b.failure_threshold ≤ b.consecutive_failures + length times)
unfolding fail_times on_failure
opens_at_threshold b [] c h = ground arith
opens_at_threshold b (now ∷ times) c h =
    ground
      (arith, opens_at_threshold (on_failure b now) times, fail_times-open (on_failure b now) times)

-- After a failure of a half-open breaker, every call before the whole open duration has passed
-- again is refused.
failed_probe_reopens :
    (b : CircuitBreaker) (now : ℕ) (times : List ℕ)
    → b.state ≡ half_open
    → All (λ t. t < now + b.open_duration) times
    → All IsRefusal (admissions (on_failure b now) times).0
unfolding on_failure
failed_probe_reopens b now times s h =
    (open_refuses (on_failure b now) times (ground arith) (rw (s, fail_in) h)).0
