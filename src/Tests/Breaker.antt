-- ===== src/Tests/Breaker.antt =====
-- The circuit breaker's theorems at concrete breakers and calls.
use kvorum.Base.{
  leb, if◌then◌else◌, length, ℕ, ◌+◌, ◌≤◌, ◌≡◌, refl, false, none, some, List, [], ◌∷◌, map, arith,
}
use kvorum.Chain.Breaker.{
  new_breaker, calls, CircuitBreaker, BreakerCall, closed, open_state, acquires, fails, abandons,
}
use kvorum.Chain.Breaker.Cooldown.{grants, open_refuses, settled, grants-le-settled}
use kvorum.Chain.Breaker.Trips.{burst_trips, Spaced-stays_closed}
use kvorum.Chain.Breaker.Invariant.{calls-new_breaker-Inv, Inv}

abbrev open_breaker : CircuitBreaker
open_breaker = record {
  state = open_state;
  failures = 90 ∷ 100 ∷ [];
  opened_at = some 100;
  in_flight_probe = false;
  failure_threshold = 2;
  window_ms = 1000;
  cooldown_ms = 50;
}

abbrev closed_breaker : CircuitBreaker
closed_breaker = record {
  state = closed;
  failures = [];
  opened_at = none;
  in_flight_probe = false;
  failure_threshold = 2;
  window_ms = 1000;
  cooldown_ms = 50;
}

abbrev early_calls : List BreakerCall
early_calls = acquires 120 ∷ fails 130 ∷ acquires 149 ∷ []

abbrev late_calls : List BreakerCall
late_calls = acquires 160 ∷ acquires 161 ∷ fails 170 ∷ acquires 230 ∷ abandons ∷ acquires 240 ∷ []

abbrev burst : List ℕ
burst = 5 ∷ 3 ∷ 9 ∷ []

open_refuses_example :
    (grants open_breaker early_calls ≡ 0)
    × ((calls open_breaker early_calls).state ≡ open_state)
    × ((calls open_breaker early_calls).opened_at ≡ some 100)
open_refuses_example =
    open_refuses open_breaker 100 early_calls refl refl
      (omega arith, (omega arith, (omega arith, tt)))

grants-le-settled_example : grants open_breaker late_calls ≤ 1 + settled late_calls
grants-le-settled_example =
    grants-le-settled open_breaker late_calls (λ h. cc) (tt, (tt, (tt, (tt, (tt, (tt, tt))))))

burst_trips_example :
    (calls closed_breaker (map fails burst)).state
    ≡ (if leb closed_breaker.failure_threshold (length burst) then open_state else closed)
burst_trips_example =
    burst_trips closed_breaker 3 burst refl refl (omega arith)
      ((omega arith, omega arith), ((omega arith, omega arith), ((omega arith, omega arith), tt)))

Spaced-stays_closed_example :
    (calls closed_breaker (map fails (5 ∷ 1005 ∷ 2100 ∷ []))).state ≡ closed
Spaced-stays_closed_example =
    Spaced-stays_closed closed_breaker (5 ∷ 1005 ∷ 2100 ∷ []) refl refl (omega arith)
      (omega arith, (omega arith, tt))

calls-new_breaker-Inv_example : Inv (
    calls
      (new_breaker (record { failure_threshold = some 2; window_ms = none; cooldown_ms = none }))
      late_calls)
calls-new_breaker-Inv_example =
    calls-new_breaker-Inv
      (record { failure_threshold = some 2; window_ms = none; cooldown_ms = none }) late_calls
      (unfold new_breaker in omega arith)
