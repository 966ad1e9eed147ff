-- ===== src/Db/Breaker/Invariant.antt =====
-- What holds of the circuit breaker after any history of calls.
use adequate_api_cpp.Base.{ℕ, ◌≤◌, ◌<◌, ◌≡◌, false, List, [], ◌∷◌, arith}
use adequate_api_cpp.Db.Breaker.{
  closed, open_state, half_open, CircuitBreaker, allow, on_success, on_failure, initial,
}

pub data Call : Type 0 where
  allowed : ℕ → Call
  succeeded : Call
  failed : ℕ → Call

unfoldable pub step : CircuitBreaker → Call → CircuitBreaker
step b (allowed now) = (allow b now).1
step b succeeded = on_success b
step b (failed now) = on_failure b now

unfoldable pub run : CircuitBreaker → List Call → CircuitBreaker
unfolding step
run b [] = b
run b (c ∷ cs) = run (step b c) cs

pub record IsCoherent (b : CircuitBreaker) : Type 0 where
  pub positive : 0 < b.failure_threshold
  pub closed_below : b.state ≡ closed → b.consecutive_failures < b.failure_threshold
  pub closed_idle : b.state ≡ closed → b.half_open_probe_inflight ≡ false
  pub open_idle : b.state ≡ open_state → b.half_open_probe_inflight ≡ false
  pub open_reached : b.state ≡ open_state → b.failure_threshold ≤ b.consecutive_failures
  pub half_reached : b.state ≡ half_open → b.failure_threshold ≤ b.consecutive_failures

pub step-IsCoherent : (b : CircuitBreaker) (c : Call) → IsCoherent b → IsCoherent (step b c)
unfolding step allow on_success on_failure
step-IsCoherent b (allowed now) v = ground arith
step-IsCoherent b succeeded v = ground arith
step-IsCoherent b (failed now) v = ground arith

-- From a coherent breaker every history of calls of `allow`, `on_success` and `on_failure`, at any
-- times, leads to a coherent one: closed only with fewer failures in a row than the threshold, open
-- or half open only with at least that many, and a probe in flight only when half open.
pub run-IsCoherent : (b : CircuitBreaker) (cs : List Call) → IsCoherent b → IsCoherent (run b cs)
unfolding run
run-IsCoherent b [] v = v
run-IsCoherent b (c ∷ cs) v = run-IsCoherent (step b c) cs (step-IsCoherent b c v)

pub initial-IsCoherent : IsCoherent initial
initial-IsCoherent = ground arith
