-- ===== src/Chain/Client/Answers.antt =====
-- From whom `send` answers.
use kvorum.Base.{
  Bool-cases, keep, mem-keep, ℕ, ◌+◌, ◌≡◌, refl, sym, ap, ◌∙◌, ◌⊎◌, inl, inr, true, false, Option,
  List, [], Memᴰ, arith,
}
use kvorum.Chain.Client.{
  Store, answered, returned, finished, exhausted, preferred, fallback, run_pass, last_pass,
  first_pass, deadline_ms, send, ProviderState, Turn, Attempt, SendResult, PassEnd,
  FailoverRpcClient,
}
use kvorum.Chain.Client.Passes.{run_pass_returned}

module _ {T : Type 0} (turn : ℕ → Turn T) (ends_at : ℕ) (v : T) where
  last_pass_returned :
      (ps : List ProviderState) (c : Store) (attempts : List Attempt) (w : Store × PassEnd T)
      → w ≡ run_pass turn ends_at ps c attempts
      → (last_pass w).1 ≡ returned v
      → (p : ProviderState) × Memᴰ p ps × ((turn p.circuit).outcome ≡ answered v)
  unfolding last_pass
  last_pass_returned ps c attempts (c', finished r) e h =
      run_pass_returned turn ends_at ps c attempts v (cc (ap (λ (x : Store × PassEnd T). x.1) e))
  last_pass_returned ps c attempts (c', exhausted a) e h = absurd (ground arith)

  first_pass_returned :
      (all ps : List ProviderState) (c : Store) (w : Store × PassEnd T)
      → w ≡ run_pass turn ends_at ps c []
      → (first_pass turn ends_at all w).1 ≡ returned v
      → ((p : ProviderState) × Memᴰ p ps × ((turn p.circuit).outcome ≡ answered v))
        ⊎ ((p : ProviderState) × Memᴰ p (keep fallback all)
            × ((turn p.circuit).outcome ≡ answered v))
  unfolding first_pass
  first_pass_returned all ps c (c', finished r) e h =
      inl (run_pass_returned turn ends_at ps c [] v (cc (ap (λ (x : Store × PassEnd T). x.1) e)))
  first_pass_returned all ps c (c', exhausted a) e h = inr (
      last_pass_returned (keep fallback all) c' a (run_pass turn ends_at (keep fallback all) c' a)
        refl h)

preferred_usable :
    (p : ProviderState) → preferred p ≡ true → (p.verified ≡ true) × (p.unusable ≡ false)
preferred_usable p h = ground arith

fallback_usable :
    (p : ProviderState) → fallback p ≡ true → (p.verified ≡ true) × (p.unusable ≡ false)
fallback_usable p h = ground arith

pub send_running :
    {T : Type 0} (client : FailoverRpcClient) (turn : ℕ → Turn T) (opt : Option ℕ) (start : ℕ)
    (c : Store)
    → client.stopped ≡ false
    → send client turn opt start c
      ≡ first_pass turn
          (start + deadline_ms client opt)
          client.entries
          (run_pass turn (start + deadline_ms client opt) (keep preferred client.entries) c [])
unfolding send
send_running client turn opt start c h = ground arith

-- `send` returns a value only if a verified provider that is not unusable answered with it.
pub send_returned :
    {T : Type 0} (client : FailoverRpcClient) (turn : ℕ → Turn T) (opt : Option ℕ) (start : ℕ)
    (c : Store) (v : T)
    → (send client turn opt start c).1 ≡ returned v
    → (p : ProviderState) × Memᴰ p client.entries
      × (p.verified ≡ true)
      × (p.unusable ≡ false)
      × ((turn p.circuit).outcome ≡ answered v)
send_returned client turn opt start c v h = elim (Bool-cases client.stopped) [
  | inl s ↦ absurd (unfold send in ground arith)
  | inr s ↦
      elim (first_pass_returned turn (start + deadline_ms client opt) v client.entries
        (keep preferred client.entries) c _ refl
        (sym (ap (λ (x : Store × SendResult _). x.1) (send_running client turn opt start c s))
          ∙ h)) [
            | inl (p, m, o) ↦
                let (n, e) = mem-keep preferred client.entries m in
                (p, n, (preferred_usable p e).0, (preferred_usable p e).1, o)
            | inr (p, m, o) ↦
                let (n, e) = mem-keep fallback client.entries m in
                (p, n, (fallback_usable p e).0, (fallback_usable p e).1, o)
          ]
]
