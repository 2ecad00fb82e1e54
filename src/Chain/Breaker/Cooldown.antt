-- ===== src/Chain/Breaker/Cooldown.antt =====
-- How long an open breaker refuses, and how many permits one that is not closed grants.
use kvorum.Base.{
  if◌then◌else◌, All, ℕ, suc, ◌+◌, ◌≤◌, ◌<◌, ◌≡◌, refl, subst, ◌≢◌, some, List, [], ◌∷◌, arith,
}
use kvorum.Chain.Breaker.{
  try_acquire, record_failure, record_abandoned, call, calls, CircuitBreaker, BreakerCall, closed,
  open_state, acquires, fails, succeeds, abandons,
}

-- A call that is no success, and is made before `t`.
abbrev pub Before : ℕ → BreakerCall → Type 0
Before t (acquires now) = now < t
Before t (fails now) = now < t
Before t succeeds = ⊥
Before t abandons = Unit {0}

abbrev pub granted : CircuitBreaker → BreakerCall → ℕ
granted b (acquires now) = if (try_acquire b now).1 then 1 else 0
granted b (fails now) = 0
granted b succeeds = 0
granted b abandons = 0

-- The permits that a sequence of calls is granted.
abbrev pub grants : CircuitBreaker → List BreakerCall → ℕ
grants b [] = 0
grants b (c ∷ cs) = granted b c + grants (call b c) cs

-- While the cooldown runs, a call leaves the breaker open since the same time, and grants nothing.
stays_open :
    (b : CircuitBreaker) (t : ℕ) (c : BreakerCall)
    → b.state ≡ open_state
    → b.opened_at ≡ some t
    → Before (t + b.cooldown_ms) c
    → ((call b c).state ≡ open_state)
      × ((call b c).opened_at ≡ some t)
      × ((call b c).cooldown_ms ≡ b.cooldown_ms)
unfolding call try_acquire record_failure record_abandoned
stays_open b t (acquires now) o e h = ground arith
stays_open b t (fails now) o e h = ground arith
stays_open b t succeeds o e h = absurd h
stays_open b t abandons o e h = ground arith

refused_open :
    (b : CircuitBreaker) (t : ℕ) (c : BreakerCall)
    → b.state ≡ open_state
    → b.opened_at ≡ some t
    → Before (t + b.cooldown_ms) c
    → granted b c ≡ 0
unfolding try_acquire
refused_open b t (acquires now) o e h = ground arith
refused_open b t (fails now) o e h = refl
refused_open b t succeeds o e h = refl
refused_open b t abandons o e h = refl

open_refuses_from :
    (b : CircuitBreaker) (t limit : ℕ) (cs : List BreakerCall)
    → b.state ≡ open_state
    → b.opened_at ≡ some t
    → limit ≡ t + b.cooldown_ms
    → All (Before limit) cs
    → (grants b cs ≡ 0) × ((calls b cs).state ≡ open_state) × ((calls b cs).opened_at ≡ some t)
unfolding calls
open_refuses_from b t limit [] o e l h = (refl, o, e)
open_refuses_from b t limit (c ∷ cs) o e l h =
    let h' : Before (t + b.cooldown_ms) c = subst (λ k. Before k c) l h.0 in
    let (o', e', k) = stays_open b t c o e h' in
    let rest = open_refuses_from (call b c) t limit cs o' e' (omega arith) h.1 in
    (omega (arith, rest.0, refused_open b t c o e h'), rest.1, rest.2)

-- An open breaker grants no permit before its cooldown is over, whatever calls are made meanwhile
-- but a recorded success, and it stays open since the same time: failures that arrive late do not
-- prolong the cooldown.
pub open_refuses :
    (b : CircuitBreaker) (t : ℕ) (cs : List BreakerCall)
    → b.state ≡ open_state
    → b.opened_at ≡ some t
    → All (Before (t + b.cooldown_ms)) cs
    → (grants b cs ≡ 0) × ((calls b cs).state ≡ open_state) × ((calls b cs).opened_at ≡ some t)
open_refuses b t cs o e h = open_refuses_from b t (t + b.cooldown_ms) cs o e refl h

-- The calls that can free the probe slot of a half-open breaker.
abbrev pub settled : List BreakerCall → ℕ
settled [] = 0
settled (acquires now ∷ cs) = settled cs
settled (fails now ∷ cs) = suc (settled cs)
settled (succeeds ∷ cs) = suc (settled cs)
settled (abandons ∷ cs) = suc (settled cs)

abbrev pub NoSuccess : BreakerCall → Type 0
NoSuccess succeeds = ⊥
NoSuccess (acquires now) = Unit {0}
NoSuccess (fails now) = Unit {0}
NoSuccess abandons = Unit {0}

abbrev occupied : CircuitBreaker → ℕ
occupied b = if b.in_flight_probe then 1 else 0

try_acquire-occupied :
    (b : CircuitBreaker) (now : ℕ)
    → b.state ≢ closed
    → ((try_acquire b now).0.state ≢ closed)
      × ((if (try_acquire b now).1 then 1 else 0) + occupied b ≤ occupied (try_acquire b now).0)
unfolding try_acquire
try_acquire-occupied b now h = ground arith

free_slot :
    (b : CircuitBreaker) (c : BreakerCall)
    → NoSuccess c
    → b.state ≢ closed
    → (call b c).state ≢ closed
unfolding call try_acquire record_failure record_abandoned
free_slot b (acquires now) n h = ground arith
free_slot b (fails now) n h = ground arith
free_slot b succeeds n h = absurd n
free_slot b abandons n h = ground arith

occupied-le : (b : CircuitBreaker) → occupied b ≤ 1
occupied-le b = ground arith

grants-occupied :
    (b : CircuitBreaker) (cs : List BreakerCall)
    → b.state ≢ closed
    → All NoSuccess cs
    → grants b cs + occupied b ≤ 1 + settled cs
unfolding call
grants-occupied b [] h n = omega (arith, occupied-le b)
grants-occupied b (acquires now ∷ cs) h n =
    let (h', o) = try_acquire-occupied b now h in
    omega (arith, o, grants-occupied (try_acquire b now).0 cs h' n.1)
grants-occupied b (fails now ∷ cs) h n = omega (
  arith,
  occupied-le b,
  grants-occupied (call b (fails now)) cs (free_slot b (fails now) tt h) n.1,
)
grants-occupied b (succeeds ∷ cs) h n = absurd n.0
grants-occupied b (abandons ∷ cs) h n =
    omega
      (arith, occupied-le b, grants-occupied (call b abandons) cs (free_slot b abandons tt h) n.1)

-- Until a success is recorded, a breaker that is not closed grants at most one permit more than
-- there are recorded failures and abandoned requests.
pub grants-le-settled :
    (b : CircuitBreaker) (cs : List BreakerCall)
    → b.state ≢ closed
    → All NoSuccess cs
    → grants b cs ≤ 1 + settled cs
grants-le-settled b cs h n = omega (arith, grants-occupied b cs h n)
