-- ===== src/Chain/Breaker/Invariant.antt =====
-- What holds of a circuit breaker between two calls.
use kvorum.Base.{is_some, length, ◌<◌, ◌≡◌, true, none, List, [], ◌∷◌, arith}
use kvorum.Chain.Breaker.{
  new_breaker, try_acquire, record_success, record_failure, record_abandoned, call, calls,
  CircuitBreakerOptions, CircuitBreaker, BreakerCall, closed, open_state, half_open, acquires,
  fails, succeeds, abandons,
}

pub record Inv (b : CircuitBreaker) : Type 0 where
  pub probe_half_open : b.in_flight_probe ≡ true → b.state ≡ half_open
  pub opened_has_time :
      (b.state ≡ closed → b.opened_at ≡ none) × (b.state ≡ open_state → is_some b.opened_at ≡ true)
  pub closed_below : b.state ≡ closed → length b.failures < b.failure_threshold

pub new_breaker-Inv :
    (opts : CircuitBreakerOptions)
    → 0 < (new_breaker opts).failure_threshold
    → Inv (new_breaker opts)
unfolding new_breaker
new_breaker-Inv opts h = ground arith

abbrev pub ThresholdKept : CircuitBreaker → CircuitBreaker → Type 0
ThresholdKept b c =
    (c.failure_threshold ≡ b.failure_threshold)
    × (c.window_ms ≡ b.window_ms)
    × (c.cooldown_ms ≡ b.cooldown_ms)

pub call-ThresholdKept : (b : CircuitBreaker) (c : BreakerCall) → ThresholdKept b (call b c)
unfolding call try_acquire record_success record_failure record_abandoned
call-ThresholdKept b (acquires now) = ground arith
call-ThresholdKept b (fails now) = ground arith
call-ThresholdKept b succeeds = ground arith
call-ThresholdKept b abandons = ground arith

pub call-Inv :
    (b : CircuitBreaker) (c : BreakerCall) → 0 < b.failure_threshold → Inv b → Inv (call b c)
unfolding call try_acquire record_success record_failure record_abandoned
call-Inv b (acquires now) h v = ground arith
call-Inv b (fails now) h v = ground arith
call-Inv b succeeds h v = ground arith
call-Inv b abandons h v = ground arith

calls-Inv :
    (b : CircuitBreaker) (cs : List BreakerCall)
    → 0 < b.failure_threshold
    → Inv b
    → Inv (calls b cs)
unfolding calls
calls-Inv b [] h v = v
calls-Inv b (c ∷ cs) h v =
    calls-Inv (call b c) cs (ground (arith, call-ThresholdKept b c)) (call-Inv b c h v)

-- A breaker built with a positive threshold satisfies the invariant after any calls at all, in any
-- order and at any times: a probe is in flight only while it is half-open, it has an opening time
-- while it is open and none while it is closed, and while it is closed it holds fewer failures than
-- the threshold.
pub calls-new_breaker-Inv :
    (opts : CircuitBreakerOptions) (cs : List BreakerCall)
    → 0 < (new_breaker opts).failure_threshold
    → Inv (calls (new_breaker opts) cs)
calls-new_breaker-Inv opts cs h = calls-Inv (new_breaker opts) cs h (new_breaker-Inv opts h)
