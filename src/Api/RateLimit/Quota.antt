-- ===== src/Api/RateLimit/Quota.antt =====
-- The quota that the sliding windows hold callers to.
use kvorum.Base.{
  if◌then◌else◌, Bool-cases, length, All, ℕ, ◌+◌, ◌≤◌, ◌≡◌, ap, ◌∙◌, ◌⊎◌, inl, inr, true, false,
  List, [], ◌∷◌, arith,
}
use kvorum.Api.RateLimit.{tiers, minute_ms, day_ms, consume, Tier, Keys}
use kvorum.Api.RateLimit.Window.{
  live, live-trim, live-insert_score, WithinQuota, Descending, in_window, All-le, quota_any_window,
  Ascending,
}
use kvorum.Api.RateLimit.Redis.{ZSets}

module _ (redis : ZSets) where
  open redis use {ZSet, scores, zremrangebyscore, zcard, zadd, empty}

  -- The admitted requests of a sequence, the latest first, from those admitted before.
  pub admissions : Tier → List ℕ → Keys redis → List ℕ → List ℕ
  admissions tier [] k h = h
  admissions tier (now ∷ times) k h =
      let (k', r) = consume redis tier now k in
      admissions tier times k' (if r.allowed then now ∷ h else h)

  abbrev pub fresh : Keys redis
  fresh = record { minute_key = empty; day_key = empty }

  -- A key counts, at any later time, the entries of the history.
  abbrev Counts : ℕ → ℕ → ZSet → List ℕ → Type 0
  Counts window now z h =
      (later : ℕ) → now ≤ later → live later window (scores z) ≡ live later window h

  record Tracks (now : ℕ) (k : Keys redis) (h : List ℕ) : Type 0 where
    minute_counts : Counts minute_ms now k.minute_key h
    day_counts : Counts day_ms now k.day_key h
    past : All (λ s. s ≤ now) h

  trimmed-Counts :
      (window now now' : ℕ) (z : ZSet) (h : List ℕ)
      → now ≤ now'
      → Counts window now z h
      → Counts window now' (zremrangebyscore now' window z) h
  trimmed-Counts window now now' z h l c later l' =
      ap (live later window) (redis.scores-zremrangebyscore now' window z)
      ∙ live-trim now' later window (scores z) l'
      ∙ c later (omega arith)

  added-Counts :
      (window now : ℕ) (z : ZSet) (h : List ℕ)
      → Counts window now z h
      → Counts window now (zadd now z) (now ∷ h)
  added-Counts window now z h c later l =
      ap (live later window) (redis.scores-zadd now z)
      ∙ live-insert_score later window now (scores z)
      ∙ ground (arith, c later l)

  trimmed_card :
      (window now now' : ℕ) (z : ZSet) (h : List ℕ)
      → now ≤ now'
      → Counts window now z h
      → zcard (zremrangebyscore now' window z) ≡ live now' window h
  trimmed_card window now now' z h l c =
      redis.zcard_scores _ ∙ ap length (redis.scores-zremrangebyscore now' window z) ∙ c now' l

  consume_allowed :
      (tier : Tier) (now : ℕ) (k : Keys redis)
      → (consume redis tier now k).1.allowed ≡ true
      → let m = zremrangebyscore now minute_ms k.minute_key in
        let d = zremrangebyscore now day_ms k.day_key in
        ((consume redis tier now k).0 ≡ record { minute_key = zadd now m; day_key = zadd now d })
        × (zcard m + 1 ≤ (tiers tier).per_minute)
        × (zcard d + 1 ≤ (tiers tier).per_day)
  unfolding consume
  consume_allowed tier now k h = ground arith

  consume_denied :
      (tier : Tier) (now : ℕ) (k : Keys redis)
      → (consume redis tier now k).1.allowed ≡ false
      → let m = zremrangebyscore now minute_ms k.minute_key in
        let d = zremrangebyscore now day_ms k.day_key in
        ((consume redis tier now k).0 ≡ record { minute_key = m; day_key = d })
        × (((tiers tier).per_minute ≤ zcard m) ⊎ ((tiers tier).per_day ≤ zcard d))
  unfolding consume
  consume_denied tier now k h = ground arith

  abbrev Within : Tier → List ℕ → Type 0
  Within tier h =
      Descending h
      × WithinQuota minute_ms (tiers tier).per_minute h
      × WithinQuota day_ms (tiers tier).per_day h

  consume-Tracks_allowed :
      (tier : Tier) (now now' : ℕ) (k : Keys redis) (h : List ℕ)
      → now ≤ now'
      → Tracks now k h
      → Within tier h
      → (consume redis tier now' k).1.allowed ≡ true
      → Tracks now' (consume redis tier now' k).0 (now' ∷ h) × Within tier (now' ∷ h)
  consume-Tracks_allowed tier now now' k h l t w a =
      let (e, m, d) = consume_allowed tier now' k a in
      let past = All-le now now' h l t.past in
      rw e (
        record {
          minute_counts =
              added-Counts minute_ms now' _ h
                (trimmed-Counts minute_ms now now' k.minute_key h l t.minute_counts);
          day_counts =
              added-Counts day_ms now' _ h
                (trimmed-Counts day_ms now now' k.day_key h l t.day_counts);
          past = (omega arith, past);
        },
        (
          (past, w.0),
          (ground (arith, trimmed_card minute_ms now now' k.minute_key h l t.minute_counts), w.1),
          (ground (arith, trimmed_card day_ms now now' k.day_key h l t.day_counts), w.2),
        ),
      )

  consume-Tracks_denied :
      (tier : Tier) (now now' : ℕ) (k : Keys redis) (h : List ℕ)
      → now ≤ now'
      → Tracks now k h
      → (consume redis tier now' k).1.allowed ≡ false
      → Tracks now' (consume redis tier now' k).0 h
  consume-Tracks_denied tier now now' k h l t a = rw ((consume_denied tier now' k a).0) (record {
    minute_counts = trimmed-Counts minute_ms now now' k.minute_key h l t.minute_counts;
    day_counts = trimmed-Counts day_ms now now' k.day_key h l t.day_counts;
    past = All-le now now' h l t.past;
  })

  admissions-Within :
      (tier : Tier) (now : ℕ) (times : List ℕ) (k : Keys redis) (h : List ℕ)
      → Ascending now times
      → Tracks now k h
      → Within tier h
      → Within tier (admissions tier times k h)
  unfolding admissions
  admissions-Within tier now [] k h l t w = w
  admissions-Within tier now (now' ∷ times) k h l t w =
      elim (Bool-cases (consume redis tier now' k).1.allowed) [
        | inl a ↦
            let (t', w') = consume-Tracks_allowed tier now now' k h l.0 t w a in
            rw a
              (admissions-Within tier now' times (consume redis tier now' k).0 (now' ∷ h) l.1 t' w')
        | inr a ↦ rw a (
            admissions-Within tier now' times (consume redis tier now' k).0 h l.1
              (consume-Tracks_denied tier now now' k h l.0 t a) w)
      ]

  fresh-Tracks : Tracks 0 fresh []
  fresh-Tracks = record {
    minute_counts = λ later l. ap (live later minute_ms) redis.scores-empty;
    day_counts = λ later l. ap (live later day_ms) redis.scores-empty;
    past = tt;
  }

  -- Of requests of one identity at times that do not fall, on keys that start empty, every window of
  -- 60 seconds admits at most the tier's quota for a minute, and every window of 24 hours at most its
  -- quota for a day, wherever the window ends: there is no burst over the border of two windows.
  pub admissions_quota :
      (tier : Tier) (times : List ℕ) (t : ℕ)
      → Ascending 0 times
      → let h = admissions tier times fresh [] in
        (in_window minute_ms t h ≤ (tiers tier).per_minute)
        × (in_window day_ms t h ≤ (tiers tier).per_day)
  admissions_quota tier times t l =
      let (d, m, q) = admissions-Within tier 0 times fresh [] l fresh-Tracks (tt, tt, tt) in
      (
        quota_any_window minute_ms (tiers tier).per_minute t _ d m,
        quota_any_window day_ms (tiers tier).per_day t _ d q,
      )
