-- ===== src/Chain/Client/Passes.antt =====
-- One pass over the providers: whom it can answer from, and which breakers it leaves alone.
use kvorum.Base.{
  ℕ, ◌<◌, ◌≡◌, refl, sym, ap, ◌∙◌, ◌≢◌, ◌⊎◌, inl, inr, true, List, [], ◌∷◌, Memᴰ, arith,
}
use kvorum.Chain.Breaker.{try_acquire, closed}
use kvorum.Chain.Client.{
  Store, update, answered, returned, ended, stops_pass, next, finished, exhausted, visit, run_pass,
  ProviderState, Turn, Attempt, SendResult, Visit, PassEnd,
}

-- Places in the store that no provider of a list uses.
abbrev pub Unused : ℕ → List ProviderState → Type 0
Unused i [] = Unit {0}
Unused i (p ∷ ps) = (p.circuit ≢ i) × Unused i ps

module _ {T : Type 0} where
  -- A request ends with a value only if the provider answered with it, in time and with a permit.
  visit_returned :
      (t : Turn T) (ends_at : ℕ) (p : ProviderState) (attempts : List Attempt) (c : Store) (v : T)
      → (visit t ends_at p attempts c).1 ≡ ended (returned v)
      → (t.outcome ≡ answered v)
        × ((try_acquire (c p.circuit) t.acquired_at).1 ≡ true)
        × (t.checked_at < ends_at)
  unfolding visit
  visit_returned t ends_at p attempts c v h = ground arith

  pub Visit-cases :
      (v : Visit T)
      → ((r : SendResult T) × (v ≡ ended r))
        ⊎ ((a : List Attempt) × (v ≡ stops_pass a))
        ⊎ ((a : List Attempt) × (v ≡ next a))
  Visit-cases (ended r) = inl (r, refl)
  Visit-cases (stops_pass a) = inr (inl (a, refl))
  Visit-cases (next a) = inr (inr (a, refl))

  module _ (turn : ℕ → Turn T) (ends_at : ℕ) (p : ProviderState) (ps : List ProviderState)
      (c : Store) (attempts : List Attempt) where
    abbrev visited : Store × Visit T
    visited = visit (turn p.circuit) ends_at p attempts c

    pub run_pass_ended :
        (r : SendResult T)
        → visited.1 ≡ ended r
        → run_pass turn ends_at (p ∷ ps) c attempts ≡ (visited.0, finished r)
    unfolding run_pass
    run_pass_ended r h = rw (h, run_pass)

    pub run_pass_stops :
        (a : List Attempt)
        → visited.1 ≡ stops_pass a
        → run_pass turn ends_at (p ∷ ps) c attempts ≡ (visited.0, exhausted a)
    unfolding run_pass
    run_pass_stops a h = rw (h, run_pass)

    pub run_pass_next :
        (a : List Attempt)
        → visited.1 ≡ next a
        → run_pass turn ends_at (p ∷ ps) c attempts ≡ run_pass turn ends_at ps (visited.0) a
    unfolding run_pass
    run_pass_next a h = rw (h, run_pass)

  pub run_pass_returned :
      (turn : ℕ → Turn T) (ends_at : ℕ) (ps : List ProviderState) (c : Store)
      (attempts : List Attempt) (v : T)
      → (run_pass turn ends_at ps c attempts).1 ≡ finished (returned v)
      → (p : ProviderState) × Memᴰ p ps × ((turn p.circuit).outcome ≡ answered v)
  run_pass_returned turn ends_at [] c attempts v h = absurd (unfold run_pass in ground arith)
  run_pass_returned turn ends_at (p ∷ ps) c attempts v h =
      elim (Visit-cases (visit (turn p.circuit) ends_at p attempts c).1) [
        | inl (r, e) ↦
            let r-returned : r ≡ returned v =
              cc (run_pass_ended turn ends_at p ps c attempts r e) in
            (
              p,
              Memᴰ.head refl,
              (visit_returned (turn p.circuit) ends_at p attempts c v (e ∙ ap ended r-returned)).0,
            )
        | inr (inl (a, e)) ↦ cc (run_pass_stops turn ends_at p ps c attempts a e)
        | inr (inr (a, e)) ↦
            let c' = (visit (turn p.circuit) ends_at p attempts c).0 in
            let (q, m, o) = run_pass_returned turn ends_at ps c' a v (
              sym (
                ap (λ (x : Store × PassEnd T). x.1)
                  (run_pass_next turn ends_at p ps c attempts a e))
              ∙ h) in
            (q, Memᴰ.tail m, o)
      ]

  -- What other sends do during a turn leaves a closed breaker closed.
  abbrev pub Spares : ℕ → Turn T → Type 0
  Spares i t = (s : Store) → (s i).state ≡ closed → (t.others s i).state ≡ closed

  pub visit-Spares :
      (t : Turn T) (ends_at i : ℕ) (p : ProviderState) (attempts : List Attempt) (c : Store)
      → Spares i t
      → p.circuit ≢ i
      → (c i).state ≡ closed
      → ((visit t ends_at p attempts c).0 i).state ≡ closed
  unfolding visit
  visit-Spares t ends_at i p attempts c spares other h =
      let b = (try_acquire (c p.circuit) t.acquired_at).0 in
      let before : (update c p.circuit b i).state ≡ closed = ground arith in
      let after = spares (update c p.circuit b) before in ground arith

  -- A pass over other providers leaves a closed breaker closed, if other sends do.
  pub run_pass-Spares :
      (turn : ℕ → Turn T) (ends_at i : ℕ) (ps : List ProviderState) (c : Store)
      (attempts : List Attempt)
      → ((j : ℕ) → Spares i (turn j))
      → Unused i ps
      → (c i).state ≡ closed
      → ((run_pass turn ends_at ps c attempts).0 i).state ≡ closed
  run_pass-Spares turn ends_at i [] c attempts spares h k = unfold run_pass in k
  run_pass-Spares turn ends_at i (p ∷ ps) c attempts spares h k =
      let kept = visit-Spares (turn p.circuit) ends_at i p attempts c (spares p.circuit) h.0 k in
      elim (Visit-cases (visit (turn p.circuit) ends_at p attempts c).1) [
        | inl (r, e) ↦ rw (run_pass_ended turn ends_at p ps c attempts r e) kept
        | inr (inl (a, e)) ↦ rw (run_pass_stops turn ends_at p ps c attempts a e) kept
        | inr (inr (a, e)) ↦
            rw (run_pass_next turn ends_at p ps c attempts a e)
              (run_pass-Spares turn ends_at i ps _ a spares h.1 kept)
      ]
