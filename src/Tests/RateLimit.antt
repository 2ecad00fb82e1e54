-- ===== src/Tests/RateLimit.antt =====
-- The rate limiter's quota, with sorted sets that are lists of scores.
use kvorum.Base.{ltb, length, keep, find, ℕ, ◌+◌, ◌≤◌, refl, true, List, [], ◌∷◌, arith}
use kvorum.Api.RateLimit.{tiers, minute_ms, day_ms, auth_ip}
use kvorum.Api.RateLimit.Redis.{insert_score, ZSets}
use kvorum.Api.RateLimit.Window.{in_window}
use kvorum.Api.RateLimit.Quota.{admissions, fresh, admissions_quota}

abbrev lists : ZSets
lists = record {
  ZSet = List ℕ;
  scores = λ z. z;
  zremrangebyscore = λ now window z. keep (λ s. ltb now (s + window)) z;
  zcard = λ z. length z;
  zadd = insert_score;
  oldest = λ z. find (λ s. true) z;
  empty = [];
  scores-empty = refl;
  scores-zremrangebyscore = λ now window z. refl;
  zcard_scores = λ z. refl;
  scores-zadd = λ s z. refl;
  oldest_scores = λ z. refl;
}

abbrev requests : List ℕ
requests = 100 ∷ 100 ∷ 40000 ∷ 60100 ∷ []

admissions_quota_example :
    let h = admissions lists auth_ip requests (fresh lists) [] in
    (in_window minute_ms 60000 h ≤ (tiers auth_ip).per_minute)
    × (in_window day_ms 60000 h ≤ (tiers auth_ip).per_day)
admissions_quota_example =
    admissions_quota lists auth_ip requests 60000
      (omega arith, (omega arith, (omega arith, (omega arith, tt))))
