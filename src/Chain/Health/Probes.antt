-- ===== src/Chain/Health/Probes.antt =====
-- The chain id probes.
use kvorum.Base.{
  Option-cases, ℕ, zero, suc, ◌<◌, String, ◌≡◌, refl, ◌↔◌, inl, inr, true, not, Option, none, some,
  arith, eq_iff,
}
use kvorum.Chain.Client.{create_provider_state}
use kvorum.Chain.Health.{
  probe_chain_id, settle_probe, probe_provider, Probe, verified_probe, mismatched, exhausted_probes,
}

-- The first answer that is not an error, of the attempts from `k` on, is the `n`th after `k`.
abbrev pub FirstAnswer : (ℕ → Option String) → ℕ → ℕ → String → Type 0
FirstAnswer answer k zero s = answer k ≡ some s
FirstAnswer answer k (suc n) s = (answer k ≡ none) × FirstAnswer answer (suc k) n s

verified_first :
    (chain_id : String) (rounds : ℕ) (answer : ℕ → Option String) (k : ℕ)
    → probe_chain_id chain_id rounds answer k ≡ verified_probe
    → (n : ℕ) × (n < rounds) × FirstAnswer answer k n chain_id
unfolding probe_chain_id
verified_first chain_id zero answer k h = cc
verified_first chain_id (suc rounds) answer k h = elim (Option-cases (answer k)) [
  | inl e ↦
      let (n, l, f) = verified_first chain_id rounds answer (suc k) (rw (e, probe_chain_id) at h) in
      (suc n, omega arith, (e, f))
  | inr (s, e) ↦ (0, omega arith, ground (arith, eq_iff s chain_id))
]

first_verified :
    (chain_id : String) (rounds : ℕ) (answer : ℕ → Option String) (k n : ℕ)
    → n < rounds
    → FirstAnswer answer k n chain_id
    → probe_chain_id chain_id rounds answer k ≡ verified_probe
unfolding probe_chain_id
first_verified chain_id zero answer k n l f = absurd (omega arith)
first_verified chain_id (suc rounds) answer k zero l f = ground (arith, eq_iff chain_id chain_id)
first_verified chain_id (suc rounds) answer k (suc n) l f =
    rw (f.0, probe_chain_id) (first_verified chain_id rounds answer (suc k) n (omega arith) f.1)

settle_verified :
    (v : Probe) (name : String) (circuit : ℕ)
    → let p = settle_probe v (create_provider_state name circuit) in
      ((p.verified ≡ true) ↔ (v ≡ verified_probe)) × (p.unusable ≡ not p.verified)
unfolding settle_probe create_provider_state
settle_verified verified_probe name circuit = (((λ h. refl), (λ h. refl)), refl)
settle_verified mismatched name circuit = (((λ h. cc), (λ h. cc)), refl)
settle_verified exhausted_probes name circuit = (((λ h. cc), (λ h. cc)), refl)

-- A provider's state, as it is created, is after its probes verified exactly when the first of its
-- four answers that is no error is the configured chain id, and unusable exactly when it is not
-- verified.
pub probe_provider_verdict :
    (chain_id name : String) (circuit : ℕ) (answer : ℕ → Option String)
    → let p = probe_provider chain_id answer (create_provider_state name circuit) in
      ((p.verified ≡ true) ↔ ((n : ℕ) × (n < 4) × FirstAnswer answer 0 n chain_id))
      × (p.unusable ≡ not p.verified)
unfolding probe_provider
probe_provider_verdict chain_id name circuit answer =
    let (v, u) = settle_verified (probe_chain_id chain_id 4 answer 0) name circuit in
    (
      (
        (λ h. verified_first chain_id 4 answer 0 (v.0 h)),
        λ w. v.1 (first_verified chain_id 4 answer 0 w.0 w.1 w.2),
      ),
      u,
    )
