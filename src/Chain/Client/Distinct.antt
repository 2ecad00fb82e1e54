-- ===== src/Chain/Client/Distinct.antt =====
-- Providers that share no breaker, and what a filter keeps of that.
use kvorum.Base.{
  Bool-cases, keep, ℕ, ◌≡◌, sym, ap, ◌∙◌, subst, ◌≢◌, inl, inr, Bool, false, List, [], ◌∷◌, Memᴰ,
  arith,
}
use kvorum.Chain.Client.{ProviderState}
use kvorum.Chain.Client.Passes.{Unused}

-- No two providers share a breaker.
abbrev pub Distinct : List ProviderState → Type 0
Distinct [] = Unit {0}
Distinct (p ∷ ps) = Unused p.circuit ps × Distinct ps

pub Unused-mem :
    (i : ℕ) (ps : List ProviderState) {p : ProviderState} → Unused i ps → Memᴰ p ps → p.circuit ≢ i
Unused-mem i [] h m = elim m [ ]
Unused-mem i (q ∷ ps) h (Memᴰ.head e) = subst (λ (x : ProviderState). x.circuit ≢ i) (sym e) h.0
Unused-mem i (q ∷ ps) h (Memᴰ.tail m) = Unused-mem i ps h.1 m

keep-Unused :
    (i : ℕ) (f : ProviderState → Bool) (ps : List ProviderState)
    → Unused i ps
    → Unused i (keep f ps)
keep-Unused i f [] h = h
keep-Unused i f (p ∷ ps) h = ground (arith, keep-Unused i f ps h.1)

pub keep-Distinct :
    (f : ProviderState → Bool) (ps : List ProviderState) → Distinct ps → Distinct (keep f ps)
keep-Distinct f [] h = h
keep-Distinct f (p ∷ ps) h = ground (arith, keep-Distinct f ps h.1, keep-Unused p.circuit f ps h.0)

-- A provider that a test leaves out shares no breaker with those that it keeps.
pub dropped-Unused :
    (f : ProviderState → Bool) (ps : List ProviderState) {p : ProviderState}
    → Distinct ps
    → Memᴰ p ps
    → f p ≡ false
    → Unused p.circuit (keep f ps)
dropped-Unused f [] d m e = elim m [ ]
dropped-Unused f (q ∷ ps) {p} d (Memᴰ.head h) e = rw (sym (ap f h) ∙ e) (
    subst (λ (x : ProviderState). Unused x.circuit (keep f ps)) (sym h)
      (keep-Unused q.circuit f ps d.0))
dropped-Unused f (q ∷ ps) {p} d (Memᴰ.tail m) e =
    let rest = dropped-Unused f ps {p = p} d.1 m e in
    let other = Unused-mem q.circuit ps {p = p} d.0 m in
    elim (Bool-cases (f q)) [ inl k ↦ rw k ((λ h. other (sym h)), rest) | inr k ↦ rw k rest ]
