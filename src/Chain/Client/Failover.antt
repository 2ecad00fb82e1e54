-- ===== src/Chain/Client/Failover.antt =====
-- The fail-over of `send` to a provider that can answer.
use kvorum.Base.{
  Bool-cases, keep, All, keep-mem, ℕ, ◌+◌, ◌<◌, ◌≡◌, refl, sym, ap, ◌∙◌, subst, ◌≢◌, ◌⊎◌, inl, inr,
  Bool, true, false, not, ◌&&◌, Option, List, [], ◌∷◌, Memᴰ, arith,
}
use kvorum.Chain.Breaker.{try_acquire, closed}
use kvorum.Chain.Errors.{categorize_error, transparent}
use kvorum.Chain.Client.{
  Store, answered, expired, rejected, returned, client_stopped, rethrown, all_failed, ended,
  stops_pass, finished, exhausted, preferred, fallback, visit, run_pass, first_pass, deadline_ms,
  send, ProviderState, Outcome, Turn, Attempt, SendResult, PassEnd, FailoverRpcClient,
}
use kvorum.Chain.Client.Answers.{send_running}
use kvorum.Chain.Client.Distinct.{Distinct, Unused-mem, keep-Distinct, dropped-Unused}
use kvorum.Chain.Client.Passes.{
  Visit-cases, run_pass_ended, run_pass_next, Spares, visit-Spares, run_pass-Spares,
}

-- A request to the provider fails in a way that counts against it, or is answered, in time.
abbrev pub Countable : {T : Type 0} → Outcome T → Type 0
Countable (answered v) = Unit {0}
Countable expired = ⊥
Countable (rejected err) = categorize_error err ≢ transparent

pub record Responsive {T : Type 0} (t : Turn T) (ends_at : ℕ) : Type 0 where
  pub in_time : t.checked_at < ends_at
  pub countable : Countable t.outcome
  pub not_stopped : t.stopped ≡ false

module _ {T : Type 0} where
  visit_closed :
      (t : Turn T) (ends_at : ℕ) (p : ProviderState) (attempts : List Attempt) (c : Store) (v : T)
      → t.checked_at < ends_at
      → (c p.circuit).state ≡ closed
      → t.outcome ≡ answered v
      → (visit t ends_at p attempts c).1 ≡ ended (returned v)
  unfolding visit try_acquire
  visit_closed t ends_at p attempts c v i e o = ground arith

  visit_never_stops :
      (t : Turn T) (ends_at : ℕ) (p : ProviderState) (attempts a : List Attempt) (c : Store)
      → Responsive t ends_at
      → (visit t ends_at p attempts c).1 ≢ stops_pass a
  unfolding visit
  visit_never_stops t ends_at p attempts a c r h = ground arith

  visit_ends_returned :
      (t : Turn T) (ends_at : ℕ) (p : ProviderState) (attempts : List Attempt) (c : Store)
      (r : SendResult T)
      → Responsive t ends_at
      → (visit t ends_at p attempts c).1 ≡ ended r
      → (v : T) × (r ≡ returned v)
  unfolding visit
  visit_ends_returned t ends_at p attempts c (returned v) s h = (v, refl)
  visit_ends_returned t ends_at p attempts c client_stopped s h = absurd (ground arith)
  visit_ends_returned t ends_at p attempts c (rethrown e) s h = absurd (ground arith)
  visit_ends_returned t ends_at p attempts c (all_failed a) s h = absurd (ground arith)

  -- Where every provider of a pass responds, the pass returns a value or goes through to its end.
  pass-Responsive :
      (turn : ℕ → Turn T) (ends_at : ℕ) (ps : List ProviderState) (c : Store)
      (attempts : List Attempt)
      → All (λ p. Responsive (turn p.circuit) ends_at) ps
      → ((v : T) × ((run_pass turn ends_at ps c attempts).1 ≡ finished (returned v)))
        ⊎ ((a : List Attempt) × ((run_pass turn ends_at ps c attempts).1 ≡ exhausted a))
  pass-Responsive turn ends_at [] c attempts h = inr (attempts, unfold run_pass in refl)
  pass-Responsive turn ends_at (p ∷ ps) c attempts h =
      elim (Visit-cases (visit (turn p.circuit) ends_at p attempts c).1) [
        | inl (r, e) ↦
            let (v, q) = visit_ends_returned (turn p.circuit) ends_at p attempts c r h.0 e in
            inl (
              v,
              ap (λ (x : Store × PassEnd T). x.1) (run_pass_ended turn ends_at p ps c attempts r e)
                  ∙ ap finished q,
            )
        | inr (inl (a, e)) ↦
            absurd (visit_never_stops (turn p.circuit) ends_at p attempts a c h.0 e)
        | inr (inr (a, e)) ↦
            rw (run_pass_next turn ends_at p ps c attempts a e) (
              pass-Responsive turn ends_at ps (visit (turn p.circuit) ends_at p attempts c).0 a h.1)
      ]

  -- If moreover some provider's breaker is closed and it answers, the pass returns a value.
  pass_reaches :
      (turn : ℕ → Turn T) (ends_at : ℕ) (ps : List ProviderState) (c : Store)
      (attempts : List Attempt) {p : ProviderState} (v : T)
      → All (λ q. Responsive (turn q.circuit) ends_at) ps
      → Distinct ps
      → Memᴰ p ps
      → ((j : ℕ) → Spares p.circuit (turn j))
      → (c p.circuit).state ≡ closed
      → (turn p.circuit).outcome ≡ answered v
      → (w : T) × ((run_pass turn ends_at ps c attempts).1 ≡ finished (returned w))
  pass_reaches turn ends_at [] c attempts v h d m g s o = elim m [ ]
  pass_reaches turn ends_at (q ∷ ps) c attempts {p} v h d (Memᴰ.head e) g s o =
      let i : p.circuit ≡ q.circuit = ap (λ (x : ProviderState). x.circuit) e in
      let answer =
        visit_closed (turn q.circuit) ends_at q attempts c v h.0.in_time
          (subst (λ k. (c k).state ≡ closed) i s)
          (subst (λ k. (turn k).outcome ≡ answered v) i o) in
      (
        v,
        ap (λ (x : Store × PassEnd T). x.1)
            (run_pass_ended turn ends_at q ps c attempts (returned v) answer),
      )
  pass_reaches turn ends_at (q ∷ ps) c attempts {p} v h d (Memᴰ.tail m) g s o =
      elim (Visit-cases (visit (turn q.circuit) ends_at q attempts c).1) [
        | inl (r, e) ↦
            let (w, k) = visit_ends_returned (turn q.circuit) ends_at q attempts c r h.0 e in
            (
              w,
              ap (λ (x : Store × PassEnd T). x.1) (run_pass_ended turn ends_at q ps c attempts r e)
                  ∙ ap finished k,
            )
        | inr (inl (a, e)) ↦
            absurd (visit_never_stops (turn q.circuit) ends_at q attempts a c h.0 e)
        | inr (inr (a, e)) ↦
            let other = Unused-mem q.circuit ps {p = p} d.0 m in
            rw (run_pass_next turn ends_at q ps c attempts a e) (
              pass_reaches turn ends_at ps (visit (turn q.circuit) ends_at q attempts c).0 a {p = p}
                v h.1 d.1 m g
                (visit-Spares (turn q.circuit) ends_at p.circuit q attempts c (g q.circuit)
                  (λ i. other (sym i)) s)
                o)
      ]

abbrev pub usable : ProviderState → Bool
usable p = p.verified && not p.unusable

usable_split :
    (p : ProviderState)
    → usable p ≡ true
    → (preferred p ≡ true) ⊎ ((preferred p ≡ false) × (fallback p ≡ true))
usable_split p h = ground arith

preferred-usable : (p : ProviderState) → preferred p ≡ true → usable p ≡ true
preferred-usable p h = ground arith

fallback-usable : (p : ProviderState) → fallback p ≡ true → usable p ≡ true
fallback-usable p h = ground arith

module _ {T : Type 0} (client : FailoverRpcClient) (turn : ℕ → Turn T) (opt : Option ℕ) (start : ℕ)
    (c : Store) where
  abbrev ends : ℕ
  ends = start + deadline_ms client opt

  Responsive-passes :
      (f : ProviderState → Bool)
      → ((p : ProviderState) → f p ≡ true → usable p ≡ true)
      → (ps : List ProviderState) → All (λ q. usable q ≡ true → Responsive (turn q.circuit) ends) ps
      → All (λ q. Responsive (turn q.circuit) ends) (keep f ps)
  Responsive-passes f le [] h = tt
  Responsive-passes f le (p ∷ ps) h = elim (Bool-cases (f p)) [
    | inl e ↦ rw e (h.0 (le p e), Responsive-passes f le ps h.1)
    | inr e ↦ rw e (Responsive-passes f le ps h.1)
  ]

  first_pass_finished :
      (w : Store × PassEnd T) (v : T)
      → w.1 ≡ finished (returned v)
      → (first_pass turn ends client.entries w).1 ≡ returned v
  unfolding first_pass
  first_pass_finished (c', finished r) v h = cc
  first_pass_finished (c', exhausted a) v h = cc

  first_pass_exhausted :
      (w : Store × PassEnd T) (a : List Attempt) (v : T)
      → w.1 ≡ exhausted a
      → (run_pass turn ends (keep fallback client.entries) w.0 a).1 ≡ finished (returned v)
      → (first_pass turn ends client.entries w).1 ≡ returned v
  unfolding first_pass
  first_pass_exhausted (c', finished r) a v h k = cc
  first_pass_exhausted (c', exhausted a') a v h k = ground arith

  -- The client is running, no two of its providers share a breaker, and the request to each usable
  -- provider is made in time, is answered or fails in a way that counts against the provider, and
  -- does not see the client stopped. If then some usable provider whose breaker is closed answers,
  -- `send` returns a value, whatever the state of the other breakers, and also where that provider
  -- is deprioritized; provided that no send that runs at the same time opens its breaker.
  pub send_fails_over :
      {p : ProviderState} (v : T)
      → client.stopped ≡ false
      → Distinct client.entries
      → All
          (λ q. usable q ≡ true → Responsive (turn q.circuit) (start + deadline_ms client opt))
          client.entries
      → Memᴰ p client.entries
      → usable p ≡ true
      → ((j : ℕ) → Spares p.circuit (turn j))
      → (c p.circuit).state ≡ closed
      → (turn p.circuit).outcome ≡ answered v
      → (w : T) × ((send client turn opt start c).1 ≡ returned w)
  send_fails_over {p} v running d h m u g s o =
      rw (send_running client turn opt start c running) (elim (usable_split p u) [
        | inl e ↦
            let (w, k) =
              pass_reaches turn ends (keep preferred client.entries) c [] {p = p} v
                (Responsive-passes preferred preferred-usable client.entries h)
                (keep-Distinct preferred client.entries d)
                (keep-mem preferred client.entries {a = p} e m) g s o in
            (w, first_pass_finished _ w k)
        | inr (e, f) ↦
            elim (pass-Responsive turn ends (keep preferred client.entries) c []
              (Responsive-passes preferred preferred-usable client.entries h)) [
                | inl (w, k) ↦ (w, first_pass_finished _ w k)
                | inr (a, k) ↦
                    let c' = (run_pass turn ends (keep preferred client.entries) c []).0 in
                    let kept =
                      run_pass-Spares turn ends p.circuit (keep preferred client.entries) c [] g
                        (dropped-Unused preferred client.entries {p = p} d m e) s in
                    let (w, l) =
                      pass_reaches turn ends (keep fallback client.entries) c' a {p = p} v
                        (Responsive-passes fallback fallback-usable client.entries h)
                        (keep-Distinct fallback client.entries d)
                        (keep-mem fallback client.entries {a = p} f m) g kept o in
                    (w, first_pass_exhausted _ a w k l)
              ]
      ])
