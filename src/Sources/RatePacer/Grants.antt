-- ===== src/Sources/RatePacer/Grants.antt =====
-- No window of the pacer holds more grants than it may.
use kvorum.Base.{
  ltb, if◌then◌else◌, Bool-cases, is_some, and_true, length, All, All-map, All-keep, ℕ, suc, ◌+◌,
  ◌≤◌, ◌≡◌, refl, ap, ◌∙◌, inl, inr, true, false, ◌&&◌, none, some, List, [], ◌∷◌, arith,
}
use kvorum.Sources.RatePacer.{prune, count_since, wait_ms, round, RatePacerOptions}
use kvorum.Api.RateLimit.Window.{
  live, WithinQuota, Descending, in_window, All-le, quota_any_window, Ascending,
}
use kvorum.Sources.RatePacer.Pruned.{count_since-live, prune-keep, prune-Descending, live-prune}

module _ (o : RatePacerOptions) where
  pub round-granted :
      (now : ℕ) (grants : List ℕ)
      → let kept = prune now o.long_window_ms grants in
        ltb (count_since now o.short_window_ms kept) o.max_short && ltb (length kept) o.max_long
          ≡ true
        → round o now grants ≡ (now ∷ kept, none)
  unfolding round
  round-granted now grants h = rw (h, round) refl

  pub round-waits :
      (now : ℕ) (grants : List ℕ)
      → let kept = prune now o.long_window_ms grants in
        ltb (count_since now o.short_window_ms kept) o.max_short && ltb (length kept) o.max_long
          ≡ false
        → round o now grants
          ≡ (kept, some (wait_ms o now (count_since now o.short_window_ms kept) kept))
  unfolding round
  round-waits now grants h = rw (h, round) refl

module _ (o : RatePacerOptions) (nested_windows : o.short_window_ms ≤ o.long_window_ms) where
  -- The slots given in rounds at some times, the latest first, from those given before.
  unfoldable pub grants_of : List ℕ → List ℕ → List ℕ → List ℕ
  grants_of [] grants given = given
  grants_of (now ∷ times) grants given =
      let (grants', wait) = round o now grants in
      grants_of times grants' (if is_some wait then given else now ∷ given)

  -- The pacer's grants count for all that were given.
  record Tracks (now : ℕ) (grants given : List ℕ) : Type 0 where
    sorted : Descending grants
    past : All (λ s. s ≤ now) given
    past_grants : All (λ s. s ≤ now) grants
    short_counts :
        (later : ℕ)
        → now ≤ later
        → live later o.short_window_ms grants ≡ live later o.short_window_ms given
    long_counts :
        (later : ℕ)
        → now ≤ later
        → live later o.long_window_ms grants ≡ live later o.long_window_ms given

  abbrev Within : List ℕ → Type 0
  Within given =
      Descending given
      × WithinQuota o.short_window_ms o.max_short given
      × WithinQuota o.long_window_ms o.max_long given

  module _ (now now' : ℕ) (grants given : List ℕ) (l : now ≤ now')
      (t : Tracks now grants given) where
    pruned-Tracks : Tracks now' (prune now' o.long_window_ms grants) given
    pruned-Tracks = record {
      sorted = prune-Descending now' o.long_window_ms grants t.sorted;
      past = All-le now now' given l t.past;
      past_grants = rw (prune-keep now' o.long_window_ms grants t.sorted) (
          All-keep (λ s. s ≤ now') _ grants
            (All-map (λ s h e. h) grants (All-le now now' grants l t.past_grants)));
      short_counts = λ later h.
          live-prune now' later o.short_window_ms o.long_window_ms grants t.sorted h nested_windows
          ∙ t.short_counts later (omega arith);
      long_counts = λ later h.
          live-prune now' later o.long_window_ms o.long_window_ms grants t.sorted h (omega arith)
          ∙ t.long_counts later (omega arith);
    }

  granted-Tracks :
      (now : ℕ) (grants given : List ℕ)
      → Tracks now grants given
      → Tracks now (now ∷ grants) (now ∷ given)
  granted-Tracks now grants given t = record {
    sorted = (t.past_grants, t.sorted);
    past = (omega arith, t.past);
    past_grants = (omega arith, t.past_grants);
    short_counts = λ later h. ground (arith, t.short_counts later h);
    long_counts = λ later h. ground (arith, t.long_counts later h);
  }

  granted-Within :
      (now : ℕ) (kept given : List ℕ)
      → Tracks now kept given
      → Within given
      → All (λ s. ltb now (s + o.long_window_ms) ≡ true) kept
      → ltb (count_since now o.short_window_ms kept) o.max_short ≡ true
      → ltb (length kept) o.max_long ≡ true
      → Within (now ∷ given)
  granted-Within now kept given t w live_all a b = (
    (t.past, w.0),
    (
      ground (
        arith,
        count_since-live now o.short_window_ms kept t.sorted,
        t.short_counts now (omega arith),
      ),
      w.1,
    ),
    (ground (arith, length-live kept live_all, t.long_counts now (omega arith)), w.2),
  )
    where
      length-live :
          (l : List ℕ)
          → All (λ s. ltb now (s + o.long_window_ms) ≡ true) l
          → live now o.long_window_ms l ≡ length l
      length-live [] h = refl
      length-live (s ∷ l) h = rw h.0 (ap suc (length-live l h.1))

  pruned_live :
      (now : ℕ) (grants : List ℕ)
      → Descending grants
      → All (λ s. ltb now (s + o.long_window_ms) ≡ true) (prune now o.long_window_ms grants)
  pruned_live now grants d =
      rw (prune-keep now o.long_window_ms grants d) (All-keep _ _ grants (each grants))
    where
      each :
          (l : List ℕ)
          → All
              (λ s. ltb now (s + o.long_window_ms) ≡ true → ltb now (s + o.long_window_ms) ≡ true)
              l
      each [] = tt
      each (s ∷ l) = (λ h. h, each l)

  grants_of-Within :
      (now : ℕ) (times grants given : List ℕ)
      → Ascending now times
      → Tracks now grants given
      → Within given
      → Within (grants_of times grants given)
  unfolding grants_of
  grants_of-Within now [] grants given l t w = w
  grants_of-Within now (now' ∷ times) grants given l t w =
      let kept = prune now' o.long_window_ms grants in
      let t' = pruned-Tracks now now' grants given l.0 t in
      let short = ltb (count_since now' o.short_window_ms kept) o.max_short in
      let long = ltb (length kept) o.max_long in
      elim (Bool-cases (short && long)) [
        | inl e ↦
            let (a, b) = and_true short long e in
            rw (round-granted o now' grants e) (
              grants_of-Within now' times (now' ∷ kept) (now' ∷ given) l.1
                (granted-Tracks now' kept given t')
                (granted-Within now' kept given t' w (pruned_live now' grants t.sorted) a b))
        | inr e ↦ rw (round-waits o now' grants e) (grants_of-Within now' times kept given l.1 t' w)
      ]

  -- A pacer whose short window is not longer than its long one gives, in rounds at times that do not
  -- fall, at most its limit of slots in every short window and in every long window, wherever the
  -- window ends.
  pub grants_of_limits :
      (times : List ℕ) (t : ℕ)
      → Ascending 0 times
      → let given = grants_of times [] [] in
        (in_window o.short_window_ms t given ≤ o.max_short)
        × (in_window o.long_window_ms t given ≤ o.max_long)
  grants_of_limits times t l =
      let (d, s, q) = grants_of-Within 0 times [] [] l fresh-Tracks (tt, tt, tt) in
      (
        quota_any_window o.short_window_ms o.max_short t _ d s,
        quota_any_window o.long_window_ms o.max_long t _ d q,
      )
    where
      fresh-Tracks : Tracks 0 [] []
      fresh-Tracks = record {
        sorted = tt;
        past = tt;
        past_grants = tt;
        short_counts = λ later h. refl;
        long_counts = λ later h. refl;
      }
