-- ===== src/Chain/Health/Lag.antt =====
-- The block number poll and the lag rule.
use kvorum.Base.{
  get_or_default, is_some, any, ℕ, String, ◌≡◌, refl, sym, ap, ◌∙◌, ◌⊎◌, inl, inr, Bool, true,
  false, ◌&&◌, Option, some, List, [], ◌∷◌, map, Memᴰ, arith,
}
use kvorum.Chain.Client.{preferred, ProviderState}
use kvorum.Chain.Health.{eligible, leader, poll_provider, poll_block_numbers}

-- Whether some eligible provider answered the poll.
abbrev pub some_answered : (String → Option ℕ) → List ProviderState → Bool
some_answered answer ps = any (λ p. eligible p && is_some (answer p.name)) ps

leader_unanswered :
    (answer : String → Option ℕ) (ps : List ProviderState)
    → some_answered answer ps ≡ false
    → leader answer ps ≡ 0
unfolding leader
leader_unanswered answer [] h = refl
leader_unanswered answer (p ∷ ps) h = ground (arith, leader_unanswered answer ps)

-- The highest block is that of the head, of a provider in the tail, or nobody answered.
leader_cons :
    (answer : String → Option ℕ) (p : ProviderState) (ps : List ProviderState)
    → some_answered answer (p ∷ ps) ≡ true
    → ((eligible p ≡ true) × (answer p.name ≡ some (leader answer (p ∷ ps))))
      ⊎ ((some_answered answer ps ≡ true) × (leader answer (p ∷ ps) ≡ leader answer ps))
unfolding leader
leader_cons answer p ps h = ground (arith, leader_unanswered answer ps)

leader_attained :
    (answer : String → Option ℕ) (ps : List ProviderState)
    → some_answered answer ps ≡ true
    → (p : ProviderState) × Memᴰ p ps
      × (eligible p ≡ true)
      × (answer p.name ≡ some (leader answer ps))
leader_attained answer [] h = cc
leader_attained answer (p ∷ ps) h = elim (leader_cons answer p ps h) [
  | inl (e, a) ↦ (p, Memᴰ.head refl, e, a)
  | inr (s, l) ↦ let (q, m, e, a) = leader_attained answer ps s in (q, Memᴰ.tail m, e, rw l a)
]

any-map :
    {A B : Type 0} (f : A → B) (test : B → Bool) (xs : List A) {a : A}
    → Memᴰ a xs
    → test (f a) ≡ true
    → any test (map f xs) ≡ true
any-map f test [] m h = elim m [ ]
any-map f test (x ∷ xs) (Memᴰ.head e) h = rw (ap (λ y. test (f y)) (sym e) ∙ h)
any-map f test (x ∷ xs) {a} (Memᴰ.tail m) h = ground (arith, any-map f test xs {a = a} m h)

poll_leader :
    (threshold : ℕ) (answer : Option ℕ) (now top : ℕ) (p : ProviderState)
    → eligible p ≡ true
    → answer ≡ some top
    → preferred (poll_provider top threshold answer now p) ≡ true
unfolding poll_provider
poll_leader threshold answer now top p e a = ground arith

-- If at least one eligible provider answers a block number poll, then after the poll some provider
-- is verified, usable and not deprioritized: the lag rule never leaves the client without a
-- provider for its first pass.
pub poll_block_numbers-preferred :
    (threshold : Option ℕ) (answer : String → Option ℕ) (now : ℕ) (ps : List ProviderState)
    → some_answered answer ps ≡ true
    → any preferred (poll_block_numbers threshold answer now ps) ≡ true
unfolding poll_block_numbers
poll_block_numbers-preferred threshold answer now ps h =
    let (p, m, e, a) = leader_attained answer ps h in
    any-map _ preferred ps {a = p} m
      (poll_leader (get_or_default threshold 3) (answer p.name) now (leader answer ps) p e a)
