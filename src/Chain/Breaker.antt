-- ===== src/Chain/Breaker.antt =====
-- libs/chain/src/breaker/circuit-breaker.ts. The injectable clock is an argument of each operation,
-- in milliseconds; a difference of two readings is compared as a sum, so no clock has to be monotone.
pub mod Invariant
pub mod Trips
pub mod Cooldown
use kvorum.Base.{
  ltb, leb, if◌then◌else◌, get_or_default, length, keep, ℕ, ◌+◌, Bool, true, false, Option, none,
  some, List, [], ◌∷◌, ◌++◌,
}

pub data CircuitBreakerState : Type 0 where
  closed open_state half_open : CircuitBreakerState

pub record CircuitBreakerOptions : Type 0 where
  pub failure_threshold : Option ℕ
  pub window_ms : Option ℕ
  pub cooldown_ms : Option ℕ

pub record CircuitBreaker : Type 0 where
  pub state : CircuitBreakerState
  pub failures : List ℕ  -- the times `at`, oldest first
  pub opened_at : Option ℕ
  pub in_flight_probe : Bool  -- `inFlightProbe !== null`
  pub failure_threshold : ℕ
  pub window_ms : ℕ
  pub cooldown_ms : ℕ

unfoldable pub new_breaker : CircuitBreakerOptions → CircuitBreaker
new_breaker opts = record {
  state = closed;
  failures = [];
  opened_at = none;
  in_flight_probe = false;
  failure_threshold = get_or_default opts.failure_threshold 5;
  window_ms = get_or_default opts.window_ms 60000;
  cooldown_ms = get_or_default opts.cooldown_ms 30000;
}

-- `openedAt !== null && now - openedAt >= cooldownMs`
abbrev pub cooled_down : Option ℕ → ℕ → ℕ → Bool
cooled_down none cooldown now = false
cooled_down (some at) cooldown now = leb (at + cooldown) now

-- The tail of `tryAcquire`: a half-open breaker grants one permit and claims the probe slot.
claim_probe : CircuitBreaker → CircuitBreaker × Bool
claim_probe b =
    if b.in_flight_probe
    then (record b { state = half_open }, false)
    else (record b { state = half_open; in_flight_probe = true }, true)

try_acquire_in : CircuitBreakerState → CircuitBreaker → ℕ → CircuitBreaker × Bool
unfolding claim_probe
try_acquire_in closed b now = (b, true)
try_acquire_in open_state b now =
    if cooled_down b.opened_at b.cooldown_ms now then claim_probe b else (b, false)
try_acquire_in half_open b now = claim_probe b

unfoldable pub try_acquire : CircuitBreaker → ℕ → CircuitBreaker × Bool
unfolding try_acquire_in
try_acquire b now = try_acquire_in b.state b now

unfoldable pub record_success : CircuitBreaker → CircuitBreaker
record_success b = record b {
  failures = [];
  opened_at = none;
  in_flight_probe = false;
  state = closed;
}

-- Failures inside the rolling window, `now - f.at < windowMs`, and the new one behind them.
abbrev pub pruned : List ℕ → ℕ → ℕ → List ℕ
pruned failures window now = keep (λ at. ltb now (at + window)) failures ++ now ∷ []

trip : CircuitBreakerState → CircuitBreaker → ℕ → CircuitBreaker
trip half_open b now = record b {
  state = open_state;
  opened_at = some now;
  in_flight_probe = false;
}
trip closed b now =
    if leb b.failure_threshold (length b.failures)
    then record b { state = open_state; opened_at = some now }
    else b
trip open_state b now = b

unfoldable pub record_failure : CircuitBreaker → ℕ → CircuitBreaker
unfolding trip
record_failure b now = trip b.state (record b { failures = pruned b.failures b.window_ms now }) now

abandon_in : CircuitBreakerState → CircuitBreaker → CircuitBreaker
abandon_in half_open b = record b { in_flight_probe = false }
abandon_in closed b = b
abandon_in open_state b = b

unfoldable pub record_abandoned : CircuitBreaker → CircuitBreaker
unfolding abandon_in
record_abandoned b = abandon_in b.state b

-- What the callers of one breaker can do to it, in the order in which the event loop runs them.
pub data BreakerCall : Type 0 where
  acquires fails : ℕ → BreakerCall
  succeeds abandons : BreakerCall

unfoldable pub call : CircuitBreaker → BreakerCall → CircuitBreaker
call b (acquires now) = (try_acquire b now).0
call b (fails now) = record_failure b now
call b succeeds = record_success b
call b abandons = record_abandoned b

unfoldable pub calls : CircuitBreaker → List BreakerCall → CircuitBreaker
calls b [] = b
calls b (c ∷ cs) = calls (call b c) cs
