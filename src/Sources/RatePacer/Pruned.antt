-- ===== src/Sources/RatePacer/Pruned.antt =====
-- What pruning and counting the grants mean on sorted grants.
use kvorum.Base.{
  ltb, Bool-cases, keep, All, All-map, All-keep, ℕ, ◌+◌, ◌≤◌, ◌≡◌, refl, inl, inr, Bool, true,
  false, List, [], ◌∷◌, arith,
}
use kvorum.Sources.RatePacer.{prune_oldest, prune, count_since}
use kvorum.Api.RateLimit.Window.{live, Descending}

pub live-cons_old :
    (now window g : ℕ) (gs : List ℕ)
    → All (λ s. s ≤ g) gs
    → g + window ≤ now
    → live now window gs ≡ 0
live-cons_old now window g [] a h = refl
live-cons_old now window g (s ∷ gs) a h = ground (arith, live-cons_old now window g gs a.1 h, a.0)

pub count_since-live :
    (now window : ℕ) (gs : List ℕ) → Descending gs → count_since now window gs ≡ live now window gs
unfolding count_since
count_since-live now window [] d = refl
count_since-live now window (g ∷ gs) d =
    ground (arith, count_since-live now window gs d.1, live-cons_old now window g gs d.0)

keep_old :
    (now window g : ℕ) (gs : List ℕ)
    → All (λ s. s ≤ g) gs
    → g + window ≤ now
    → keep (λ s. ltb now (s + window)) gs ≡ []
keep_old now window g [] a h = refl
keep_old now window g (s ∷ gs) a h = ground (arith, keep_old now window g gs a.1 h, a.0)

prune_oldest-live :
    (now window g : ℕ) (kept : List ℕ)
    → ltb now (g + window) ≡ true
    → prune_oldest now window g kept ≡ g ∷ kept
unfolding prune_oldest
prune_oldest-live now window g [] h = ground arith
prune_oldest-live now window g (x ∷ xs) h = refl

prune_oldest-old :
    (now window g : ℕ) → ltb now (g + window) ≡ false → prune_oldest now window g [] ≡ []
unfolding prune_oldest
prune_oldest-old now window g h = ground arith

pub prune-keep :
    (now window : ℕ) (gs : List ℕ)
    → Descending gs
    → prune now window gs ≡ keep (λ s. ltb now (s + window)) gs
unfolding prune
prune-keep now window [] d = refl
prune-keep now window (g ∷ gs) d = elim (Bool-cases (ltb now (g + window))) [
  | inl e ↦ rw (e, prune-keep now window gs d.1) (prune_oldest-live now window g _ e)
  | inr e ↦
      let empty = keep_old now window g gs d.0 (ground arith) in
      rw (e, prune-keep now window gs d.1, empty) (prune_oldest-old now window g e)
]

keep-Descending : (p : ℕ → Bool) (gs : List ℕ) → Descending gs → Descending (keep p gs)
keep-Descending p [] d = tt
keep-Descending p (g ∷ gs) d = elim (Bool-cases (p g)) [
  | inl e ↦
      rw e (All-keep (λ s. s ≤ g) p gs (All-map (λ s h e. h) gs d.0), keep-Descending p gs d.1)
  | inr e ↦ rw e (keep-Descending p gs d.1)
]

pub prune-Descending :
    (now window : ℕ) (gs : List ℕ) → Descending gs → Descending (prune now window gs)
prune-Descending now window gs d = rw (prune-keep now window gs d) (keep-Descending _ gs d)

-- What is dropped is in no shorter window, now or later.
pub live-prune :
    (now later window long : ℕ) (gs : List ℕ)
    → Descending gs
    → now ≤ later
    → window ≤ long
    → live later window (prune now long gs) ≡ live later window gs
live-prune now later window long gs d h k = rw (prune-keep now long gs d) (live-keep gs)
  where
    live-keep :
        (l : List ℕ) → live later window (keep (λ s. ltb now (s + long)) l) ≡ live later window l
    live-keep [] = refl
    live-keep (s ∷ l) = ground (arith, live-keep l)
