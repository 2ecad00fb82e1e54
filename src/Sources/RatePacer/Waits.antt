-- ===== src/Sources/RatePacer/Waits.antt =====
-- How long the pacer sleeps is enough to get a slot.
use kvorum.Base.{
  ltb, leb, lt→ltb, leb→le, Bool-cases, get_or_default, length, keep, ℕ, zero, suc, ◌+◌, ◌-◌, ◌≤◌,
  ◌<◌, ◌≡◌, refl, sym, ap, ◌∙◌, ◌⊎◌, inl, inr, Bool, true, false, ◌&&◌, Option, none, some, List,
  [], ◌∷◌, arith,
}
use kvorum.Sources.RatePacer.{
  prune, count_since, nth, window_wait, wait_ms, round, acquired, aborted, no_fuel, after_sleep,
  after_round, acquire, RatePacerOptions, Acquired,
}
use kvorum.Api.RateLimit.Window.{live, Descending}
use kvorum.Sources.RatePacer.Grants.{round-granted, round-waits}
use kvorum.Sources.RatePacer.Pruned.{count_since-live, prune-keep, prune-Descending}

nth-some : (gs : List ℕ) (i : ℕ) → i < length gs → (g : ℕ) × (nth gs i ≡ some g)
nth-some [] i h = ground arith
nth-some (g ∷ gs) zero h = (g, refl)
nth-some (g ∷ gs) (suc i) h = nth-some gs i (omega arith)

-- Once the grant at some place is old, only the later ones count.
count_since-nth :
    (now window : ℕ) (gs : List ℕ) (i : ℕ) {g : ℕ}
    → nth gs i ≡ some g
    → g + window ≤ now
    → count_since now window gs ≤ i
unfolding count_since
count_since-nth now window [] i e h = omega arith
count_since-nth now window (x ∷ gs) zero {g} e h =
    let is : x ≡ g = ap (λ o. get_or_default o x) e in ground arith
count_since-nth now window (x ∷ gs) (suc i) {g} e h =
    ground (arith, count_since-nth now window gs i e h)

count_since-le : (now window : ℕ) (gs : List ℕ) → count_since now window gs ≤ length gs
unfolding count_since
count_since-le now window [] = omega arith
count_since-le now window (g ∷ gs) = ground (arith, count_since-le now window gs)

count_since-antitone :
    (now later window : ℕ) (gs : List ℕ)
    → now ≤ later
    → count_since later window gs ≤ count_since now window gs
unfolding count_since
count_since-antitone now later window [] h = omega arith
count_since-antitone now later window (g ∷ gs) h =
    ground (arith, count_since-antitone now later window gs h)

window_wait-nth :
    (count window now measured g : ℕ) (gs : List ℕ)
    → leb count measured ≡ true
    → nth gs (count - 1) ≡ some g
    → window_wait (leb count measured) count window now gs ≡ g + window - now
window_wait-nth count window now measured g gs e is = rw (e, is) refl

-- After the wait for a window, it has room.
window_wait-frees :
    (now later count window measured : ℕ) (gs : List ℕ)
    → 1 ≤ count
    → now ≤ later
    → measured ≤ length gs
    → count_since now window gs ≤ measured
    → now + window_wait (leb count measured) count window now gs ≤ later
    → count_since later window gs < count
window_wait-frees now later count window measured gs positive l m c h =
    elim (Bool-cases (leb count measured)) [
      | inr e ↦ omega (arith, lt-of e, count_since-antitone now later window gs l)
      | inl e ↦
          let full = leb→le count measured e in
          let (g, is) = nth-some gs (count - 1) (omega arith) in
          let old : g + window ≤ later =
            omega (arith, window_wait-nth count window now measured g gs e is) in
          omega (arith, count_since-nth later window gs (count - 1) is old)
    ]
  where
    lt-of : leb count measured ≡ false → measured < count
    lt-of e = ground arith

live-keep-le :
    (now window : ℕ) (p : ℕ → Bool) (gs : List ℕ) → live now window (keep p gs) ≤ live now window gs
live-keep-le now window p [] = omega arith
live-keep-le now window p (g ∷ gs) = ground (arith, live-keep-le now window p gs)

count_since-prune-le :
    (now window long : ℕ) (gs : List ℕ)
    → Descending gs
    → count_since now window (prune now long gs) ≤ count_since now window gs
count_since-prune-le now window long gs d = omega (
  arith,
  count_since-live now window (prune now long gs) (prune-Descending now long gs d),
  ap (live now window) (prune-keep now long gs d),
  live-keep-le now window (λ s. ltb now (s + long)) gs,
  count_since-live now window gs d,
)

length-prune :
    (now long : ℕ) (gs : List ℕ)
    → Descending gs
    → length (prune now long gs) ≡ count_since now long gs
length-prune now long gs d =
    ap length (prune-keep now long gs d) ∙ sym (count_since-live now long gs d)

module _ (o : RatePacerOptions) (some_short : 1 ≤ o.max_short) (some_long : 1 ≤ o.max_long) where
  -- A round that gives a slot.
  abbrev Gives : ℕ → List ℕ → Type 0
  Gives now grants = (gs : List ℕ) × (round o now grants ≡ (gs, none))

  round-Gives :
      (now : ℕ) (grants : List ℕ)
      → let kept = prune now o.long_window_ms grants in
        count_since now o.short_window_ms kept < o.max_short
        → length kept < o.max_long
        → Gives now grants
  unfolding round
  round-Gives now grants h k =
      (now ∷ prune now o.long_window_ms grants, rw (lt→ltb _ _ h, lt→ltb _ _ k, round) refl)

  -- The round behind a sleep that was long enough.
  next_round-Gives :
      (now later : ℕ) (grants : List ℕ)
      → Descending grants
      → now + wait_ms o now (count_since now o.short_window_ms grants) grants ≤ later
      → Gives later grants
  unfolding wait_ms
  next_round-Gives now later grants d h =
      let l : now ≤ later = omega arith in
      let short =
        window_wait-frees now later o.max_short o.short_window_ms
          (count_since now o.short_window_ms grants) grants some_short l
          (count_since-le now o.short_window_ms grants) (omega arith) (omega arith) in
      let long =
        window_wait-frees now later o.max_long o.long_window_ms (length grants) grants some_long l
          (omega arith) (count_since-le now o.long_window_ms grants) (omega arith) in
      round-Gives later grants
        (omega
          (arith, short, count_since-prune-le later o.short_window_ms o.long_window_ms grants d))
        (omega (arith, long, length-prune later o.long_window_ms grants d))

  module _ (sleep : ℕ → ℕ → Option ℕ)
      (sleeps_enough : (now ms later : ℕ) → sleep now ms ≡ some later → now + ms ≤ later) where
    -- How `acquire` may end: with a slot at once or behind one sleep, or by an aborted sleep.
    abbrev pub Ended : ℕ → Acquired → Type 0
    Ended now (acquired at gs) = (at ≡ now) ⊎ ((ms : ℕ) × (sleep now ms ≡ some at))
    Ended now (aborted gs) = (ms : ℕ) × (sleep now ms ≡ none)
    Ended now no_fuel = ⊥

    sleep_ends :
        (fuel now ms : ℕ) (kept : List ℕ) (woken : Option ℕ)
        → Descending kept
        → ms ≡ wait_ms o now (count_since now o.short_window_ms kept) kept
        → sleep now ms ≡ woken
        → Ended now (after_sleep o sleep (acquire o sleep (suc fuel)) kept woken)
    unfolding after_sleep acquire after_round
    sleep_ends fuel now ms kept none d e w = (ms, w)
    sleep_ends fuel now ms kept (some later) d e w =
        let slept = sleeps_enough now ms later w in
        let (gs, is) = next_round-Gives now later kept d (omega arith) in rw is (inr (ms, w))

    -- If both limits are positive and a sleep lasts as long as it is asked to, `acquire` gives a slot
    -- at once or behind its first sleep, or that sleep is aborted: it never sleeps twice.
    pub acquire-Ended :
        (fuel now : ℕ) (grants : List ℕ)
        → Descending grants
        → Ended now (acquire o sleep (suc (suc fuel)) now grants)
    unfolding acquire after_round
    acquire-Ended fuel now grants d =
        let kept = prune now o.long_window_ms grants in
        let short = ltb (count_since now o.short_window_ms kept) o.max_short in
        let long = ltb (length kept) o.max_long in
        elim (Bool-cases (short && long)) [
          | inl e ↦ rw (round-granted o now grants e) (inl refl)
          | inr e ↦ rw (round-waits o now grants e) (
              sleep_ends fuel now _ kept (sleep now _)
                (prune-Descending now o.long_window_ms grants d) refl refl)
        ]
