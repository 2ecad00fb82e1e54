-- ===== src/Api/RateLimit/Window.antt =====
-- How many scores are inside a window, and what trimming and adding do to that.
use kvorum.Base.{
  ltb, leb, leb→le, Bool-cases, length, keep, All, ℕ, ◌+◌, ◌≤◌, ◌≡◌, refl, inl, inr, ◌&&◌, List, [],
  ◌∷◌, arith,
}
use kvorum.Api.RateLimit.Redis.{insert_score}

-- The scores still inside the window at a time.
abbrev pub live : ℕ → ℕ → List ℕ → ℕ
live now window l = length (keep (λ s. ltb now (s + window)) l)

pub live-trim :
    (now later window : ℕ) (l : List ℕ)
    → now ≤ later
    → live later window (keep (λ s. ltb now (s + window)) l) ≡ live later window l
live-trim now later window [] h = refl
live-trim now later window (s ∷ l) h = ground (arith, live-trim now later window l h)

pub live-insert_score :
    (now window s : ℕ) (l : List ℕ) → live now window (insert_score s l) ≡ live now window (s ∷ l)
live-insert_score now window s [] = refl
live-insert_score now window s (x ∷ l) = ground (arith, live-insert_score now window s l)

pub live-antitone :
    (now later window : ℕ) (l : List ℕ) → now ≤ later → live later window l ≤ live now window l
live-antitone now later window [] h = omega arith
live-antitone now later window (s ∷ l) h = ground (arith, live-antitone now later window l h)

-- Each entry of a history, the latest first, stands in a window that has room for it.
abbrev pub WithinQuota : ℕ → ℕ → List ℕ → Type 0
WithinQuota window limit [] = Unit {0}
WithinQuota window limit (t ∷ h) = (live t window (t ∷ h) ≤ limit) × WithinQuota window limit h

-- The times of a history fall.
abbrev pub Descending : List ℕ → Type 0
Descending [] = Unit {0}
Descending (t ∷ h) = All (λ s. s ≤ t) h × Descending h

-- The entries of a history in the window that ends at `t`.
abbrev pub in_window : ℕ → ℕ → List ℕ → ℕ
in_window window t h = length (keep (λ s. leb s t && ltb t (s + window)) h)

in_window-past :
    (window t : ℕ) (h : List ℕ) → All (λ s. s ≤ t) h → in_window window t h ≡ live t window h
in_window-past window t [] a = refl
in_window-past window t (s ∷ h) a = ground (arith, in_window-past window t h a.1)

pub All-le : (s t : ℕ) (h : List ℕ) → s ≤ t → All (λ x. x ≤ s) h → All (λ x. x ≤ t) h
All-le s t [] l a = a
All-le s t (x ∷ h) l a = (omega (arith, a.0), All-le s t h l a.1)

pub quota_any_window :
    (window limit t : ℕ) (h : List ℕ)
    → Descending h
    → WithinQuota window limit h
    → in_window window t h ≤ limit
quota_any_window window limit t [] d q = omega arith
quota_any_window window limit t (s ∷ h) d q = elim (Bool-cases (leb s t)) [
  | inl past ↦ omega (
    arith,
    in_window-past window t (s ∷ h) (leb→le s t past, All-le s t h (leb→le s t past) d.0),
    live-antitone s t window (s ∷ h) (leb→le s t past),
    q.0,
  )
  | inr future ↦ rw future (quota_any_window window limit t h d.1 q.1)
]

-- Request times that do not fall, from a time on.
abbrev pub Ascending : ℕ → List ℕ → Type 0
Ascending now [] = Unit {0}
Ascending now (t ∷ times) = (now ≤ t) × Ascending t times
