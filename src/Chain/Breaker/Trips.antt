-- ===== src/Chain/Breaker/Trips.antt =====
-- When a closed breaker trips.
use kvorum.Base.{
  ltb, leb, if◌then◌else◌, leb→le, Bool-cases, length, keep, All, length-append, All-append, ℕ, ◌+◌,
  ◌≤◌, ◌<◌, ◌≡◌, refl, sym, ap, ◌∙◌, subst, inl, inr, List, [], ◌∷◌, ◌++◌, map, arith,
}
use kvorum.Chain.Breaker.{record_failure, call, calls, CircuitBreaker, closed, open_state, fails}

-- A time of one rolling window, which begins at `t`.
abbrev pub Within : ℕ → ℕ → ℕ → Type 0
Within t window at = (t ≤ at) × (at < t + window)

keep-Within :
    (t window now : ℕ) (fs : List ℕ)
    → Within t window now
    → All (Within t window) fs
    → keep (λ at. ltb now (at + window)) fs ≡ fs
keep-Within t window now [] h a = refl
keep-Within t window now (f ∷ fs) h a = ground (arith, keep-Within t window now fs h a.1)

opened_stays :
    (b : CircuitBreaker) (ts : List ℕ)
    → b.state ≡ open_state
    → (calls b (map fails ts)).state ≡ open_state
unfolding calls call record_failure
opened_stays b [] o = o
opened_stays b (t ∷ ts) o = opened_stays (record_failure b t) ts (ground arith)

below_counts :
    (b : CircuitBreaker) (t now : ℕ)
    → b.state ≡ closed
    → All (Within t b.window_ms) b.failures
    → Within t b.window_ms now
    → length b.failures + 1 < b.failure_threshold
    → record_failure b now ≡ record b { failures = b.failures ++ now ∷ [] }
unfolding record_failure
below_counts b t now c a w h =
    ground
      (arith, keep-Within t b.window_ms now b.failures w a, length-append b.failures (now ∷ []))

at_threshold :
    (b : CircuitBreaker) (t now : ℕ)
    → b.state ≡ closed
    → All (Within t b.window_ms) b.failures
    → Within t b.window_ms now
    → b.failure_threshold ≤ length b.failures + 1
    → (record_failure b now).state ≡ open_state
unfolding record_failure
at_threshold b t now c a w h =
    ground
      (arith, keep-Within t b.window_ms now b.failures w a, length-append b.failures (now ∷ []))

burst_from :
    (b : CircuitBreaker) (t : ℕ) (ts : List ℕ)
    → b.state ≡ closed
    → All (Within t b.window_ms) b.failures
    → All (Within t b.window_ms) ts
    → length b.failures < b.failure_threshold
    → (calls b (map fails ts)).state
      ≡ (if leb b.failure_threshold (length b.failures + length ts) then open_state else closed)
unfolding calls call
burst_from b t [] c a w h = ground arith
burst_from b t (now ∷ ts) c a w h =
    elim (Bool-cases (leb b.failure_threshold (length b.failures + 1))) [
      | inl full ↦ ground (
        arith,
        opened_stays (record_failure b now) ts,
        at_threshold b t now c a w.0 (leb→le _ _ full),
      )
      | inr more ↦
          let e = below_counts b t now c a w.0 (ground arith) in
          ap (λ c. (calls c (map fails ts)).state) e
          ∙ burst_from (record b { failures = b.failures ++ now ∷ [] }) t ts c
              (All-append (Within t b.window_ms) b.failures (now ∷ []) a (w.0, tt)) w.1
              (ground (arith, length-append b.failures (now ∷ [])))
          ∙ ap (λ n. if leb b.failure_threshold n then open_state else closed)
              (omega (arith, length-append b.failures (now ∷ [])))
    ]

-- Failures recorded within one rolling window of a closed breaker that held none trip it exactly
-- when there are at least as many as the threshold, however they are ordered within the window.
pub burst_trips :
    (b : CircuitBreaker) (t : ℕ) (ts : List ℕ)
    → b.state ≡ closed
    → b.failures ≡ []
    → 0 < b.failure_threshold
    → All (Within t b.window_ms) ts
    → (calls b (map fails ts)).state
      ≡ (if leb b.failure_threshold (length ts) then open_state else closed)
burst_trips b t ts c e h w =
    ground (arith, burst_from b t ts c (subst (All (Within t b.window_ms)) (sym e) tt) w)

-- Each time is at least a window behind the one before it.
abbrev pub Spaced : ℕ → List ℕ → Type 0
Spaced window [] = Unit {0}
Spaced window (t ∷ []) = Unit {0}
Spaced window (t ∷ u ∷ ts) = (t + window ≤ u) × Spaced window (u ∷ ts)

abbrev Expired : CircuitBreaker → ℕ → Type 0
Expired b now = All (λ at. at + b.window_ms ≤ now) b.failures

keep_expired :
    (window now : ℕ) (fs : List ℕ)
    → All (λ at. at + window ≤ now) fs
    → keep (λ at. ltb now (at + window)) fs ≡ []
keep_expired window now [] a = refl
keep_expired window now (f ∷ fs) a = ground (arith, keep_expired window now fs a.1)

alone_counts :
    (b : CircuitBreaker) (now : ℕ)
    → b.state ≡ closed
    → Expired b now
    → 2 ≤ b.failure_threshold
    → record_failure b now ≡ record b { failures = now ∷ [] }
unfolding record_failure
alone_counts b now c a h = ground (arith, keep_expired b.window_ms now b.failures a)

Spaced-from :
    (b : CircuitBreaker) (now : ℕ) (ts : List ℕ)
    → b.state ≡ closed
    → Expired b now
    → 2 ≤ b.failure_threshold
    → Spaced b.window_ms (now ∷ ts)
    → (calls b (map fails (now ∷ ts))).state ≡ closed
unfolding calls call
Spaced-from b now [] c a h s = rw (alone_counts b now c a h) c
Spaced-from b now (u ∷ ts) c a h s =
    ap (λ c. (calls c (map fails (u ∷ ts))).state) (alone_counts b now c a h)
    ∙ (Spaced-from (record b { failures = now ∷ [] }) u ts c (s.0, tt) h s.1)

-- Failures that are each at least a window apart never trip a breaker whose threshold is two or
-- more, however many there are.
pub Spaced-stays_closed :
    (b : CircuitBreaker) (ts : List ℕ)
    → b.state ≡ closed
    → b.failures ≡ []
    → 2 ≤ b.failure_threshold
    → Spaced b.window_ms ts
    → (calls b (map fails ts)).state ≡ closed
unfolding calls
Spaced-stays_closed b [] c e h s = c
Spaced-stays_closed b (t ∷ ts) c e h s =
    Spaced-from b t ts c (subst (All (λ at. at + b.window_ms ≤ t)) (sym e) tt) h s
