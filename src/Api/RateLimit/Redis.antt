-- ===== src/Api/RateLimit/Redis.antt =====
-- The sorted-set commands of Redis that the scripts call, with what they rely on.
use kvorum.Base.{ltb, if◌then◌else◌, length, keep, find, ℕ, ◌+◌, ◌≡◌, true, Option, List, [], ◌∷◌}

-- A score into a list in ascending order.
abbrev pub insert_score : ℕ → List ℕ → List ℕ
insert_score s [] = s ∷ []
insert_score s (x ∷ xs) = let rest = insert_score s xs in if ltb s x then s ∷ x ∷ xs else x ∷ rest

pub record ZSets : Type 1 where
  pub ZSet : Type 0
  pub scores : ZSet → List ℕ
  -- ZREMRANGEBYSCORE from -inf to `now - window`, which may be negative.
  pub zremrangebyscore : ℕ → ℕ → ZSet → ZSet
  pub zcard : ZSet → ℕ
  pub zadd : ℕ → ZSet → ZSet  -- with a member that the set does not hold
  pub oldest : ZSet → Option ℕ  -- the score that ZRANGE 0 0 gives
  pub empty : ZSet
  pub scores-empty : scores empty ≡ []
  pub scores-zremrangebyscore :
      (now window : ℕ) (z : ZSet)
      → scores (zremrangebyscore now window z) ≡ keep (λ s. ltb now (s + window)) (scores z)
  pub zcard_scores : (z : ZSet) → zcard z ≡ length (scores z)
  pub scores-zadd : (s : ℕ) (z : ZSet) → scores (zadd s z) ≡ insert_score s (scores z)
  pub oldest_scores : (z : ZSet) → oldest z ≡ find (λ s. true) (scores z)
