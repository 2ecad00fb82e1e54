-- ===== src/Sources/RatePacer.antt =====
-- RatePacer, of libs/sources/forum/src/client/rate-pacer.ts. The array of grants is listed from its
-- end, the latest first. Times are natural numbers, so `x > now - w` is written `now < x + w`. The
-- promise chain makes acquisitions follow one another, so callers are a sequence of rounds; what the
-- clock shows after a sleep, or that the signal aborts it, is the parameter `sleep`.
pub mod Pruned
pub mod Grants
pub mod Waits
use kvorum.Base.{
  ltb, leb, if◌then◌else◌, get_or_default, length, ℕ, zero, suc, ◌+◌, ◌-◌, max, Bool, ◌&&◌, Option,
  none, some, List, [], ◌∷◌,
}

pub record RatePacerOptions : Type 0 where
  pub max_short : ℕ
  pub short_window_ms : ℕ
  pub max_long : ℕ
  pub long_window_ms : ℕ

abbrev pub default_options : RatePacerOptions
default_options = record {
  max_short = 50;
  short_window_ms = 10000;
  max_long = 200;
  long_window_ms = 60000;
}

-- A grant with those that are kept of the later ones dropped first.
unfoldable pub prune_oldest : ℕ → ℕ → ℕ → List ℕ → List ℕ
prune_oldest now window g [] = if leb (g + window) now then [] else g ∷ []
prune_oldest now window g (x ∷ xs) = g ∷ x ∷ xs

-- The oldest grants are dropped while they are `window` old.
unfoldable pub prune : ℕ → ℕ → List ℕ → List ℕ
prune now window [] = []
prune now window (g ∷ gs) = prune_oldest now window g (prune now window gs)

unfoldable pub count_since : ℕ → ℕ → List ℕ → ℕ
count_since now window [] = 0
count_since now window (g ∷ gs) =
    let rest = count_since now window gs in if ltb now (g + window) then suc rest else 0

-- `grants[grants.length - 1 - i]`.
abbrev pub nth : List ℕ → ℕ → Option ℕ
nth [] i = none
nth (g ∷ gs) zero = some g
nth (g ∷ gs) (suc i) = nth gs i

-- How long a saturated window takes to free a slot.
abbrev pub window_wait : Bool → ℕ → ℕ → ℕ → List ℕ → ℕ
window_wait saturated count window now grants =
    if saturated then get_or_default (nth grants (count - 1)) 0 + window - now else 0

unfoldable pub wait_ms : RatePacerOptions → ℕ → ℕ → List ℕ → ℕ
wait_ms o now short_count grants = max 1 (
    max (window_wait (leb o.max_short short_count) o.max_short o.short_window_ms now grants)
      (window_wait (leb o.max_long (length grants)) o.max_long o.long_window_ms now grants))

-- A round of the loop of `acquire`: the grants after it, and how long it sleeps if it gives no slot.
unfoldable pub round : RatePacerOptions → ℕ → List ℕ → List ℕ × Option ℕ
round o now grants =
    let kept = prune now o.long_window_ms grants in
    let short_count = count_since now o.short_window_ms kept in
    if ltb short_count o.max_short && ltb (length kept) o.max_long
    then (now ∷ kept, none)
    else (kept, some (wait_ms o now short_count kept))

pub data Acquired : Type 0 where
  acquired : ℕ → List ℕ → Acquired
  aborted : List ℕ → Acquired
  no_fuel : Acquired

module _ (o : RatePacerOptions) (sleep : ℕ → ℕ → Option ℕ) where
  after_sleep : (ℕ → List ℕ → Acquired) → List ℕ → Option ℕ → Acquired
  after_sleep again grants none = aborted grants
  after_sleep again grants (some now) = again now grants

  after_round : (ℕ → List ℕ → Acquired) → ℕ → List ℕ × Option ℕ → Acquired
  unfolding after_sleep
  after_round again now (grants, none) = acquired now grants
  after_round again now (grants, some ms) = after_sleep again grants (sleep now ms)

  unfoldable pub acquire : ℕ → ℕ → List ℕ → Acquired
  unfolding after_round
  acquire zero now grants = no_fuel
  acquire (suc fuel) now grants = after_round (acquire fuel) now (round o now grants)
