-- ===== src/Tests/RatePacer.antt =====
-- The pacer's theorems at a small pacer.
use kvorum.Base.{get_or_default, ℕ, ◌+◌, ◌≤◌, ◌≡◌, ap, Option, some, List, [], ◌∷◌, arith}
use kvorum.Sources.RatePacer.{acquire, RatePacerOptions}
use kvorum.Sources.RatePacer.Grants.{grants_of, grants_of_limits}
use kvorum.Sources.RatePacer.Waits.{Ended, acquire-Ended}
use kvorum.Api.RateLimit.Window.{in_window, Ascending}

abbrev tiny : RatePacerOptions
tiny = record { max_short = 1; short_window_ms = 10; max_long = 2; long_window_ms = 60 }

abbrev asked : List ℕ
asked = 0 ∷ 5 ∷ 12 ∷ 30 ∷ []

asked-Ascending : Ascending 0 asked
asked-Ascending = (omega arith, (omega arith, (omega arith, (omega arith, tt))))

grants_of_limits_example :
    let given = grants_of tiny (omega arith) asked [] [] in
    (in_window 10 20 given ≤ 1) × (in_window 60 20 given ≤ 2)
grants_of_limits_example = grants_of_limits tiny (omega arith) asked 20 asked-Ascending

abbrev sound_sleep : ℕ → ℕ → Option ℕ
sound_sleep now ms = some (now + ms)

sound_sleep-enough : (now ms later : ℕ) → sound_sleep now ms ≡ some later → now + ms ≤ later
sound_sleep-enough now ms later h =
    let is : now + ms ≡ later = ap (λ o. get_or_default o later) h in omega (arith, is)

acquire-Ended_example :
    Ended tiny
      (omega arith)
      (omega arith)
      sound_sleep
      sound_sleep-enough
      5
      (acquire tiny sound_sleep 2 5 (0 ∷ []))
acquire-Ended_example =
    acquire-Ended tiny (omega arith) (omega arith) sound_sleep sound_sleep-enough 0 5 (0 ∷ [])
      (tt, tt)
