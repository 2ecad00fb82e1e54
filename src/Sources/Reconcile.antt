-- ===== src/Sources/Reconcile.antt =====
-- ReconcileDriver, of libs/sources/core/src/reconcile/reconcile-driver.ts. The repository and the
-- reconciler are parameters; the metrics and log lines that tell outcomes are kept as events. A call
-- that finds a tick in flight returns at once, so ticks follow one another.
pub mod Streaks
use kvorum.Base.{
  leb, if◌then◌else◌, get_or_default, ℕ, ◌+◌, String, Option, none, some, List, [], ◌∷◌, str_eq,
}

pub record StaleRow : Type 0 where
  pub id : String
  pub source_id : String
  pub source_type : String
  pub chain_id : String

pub record ReconcileBound : Type 0 where
  pub chain_id : String
  pub confirmed_threshold_block : ℕ

-- How `reconcileRow` ends.
pub data Attempt : Type 0 where
  corrected : String → String → Attempt
  outcome : String → Attempt
  transient_rpc_error : Attempt
  other_error : Attempt

pub data Event : Type 0 where
  recorded : String → Attempt → Event
  escalated : String → ℕ → Event

-- `rpcFailedStreak`, a map.
abbrev pub Streaks : Type 0
Streaks = List (String × ℕ)

pub record Driver : Type 0 where
  pub streaks : Streaks
  pub events : List Event  -- the latest first

unfoldable pub streak_of : Streaks → String → Option ℕ
streak_of [] id = none
streak_of ((i, n) ∷ m) id = let rest = streak_of m id in if str_eq i id then some n else rest

-- Map's `delete` and `set`.
unfoldable pub delete : Streaks → String → Streaks
delete [] id = []
delete ((i, n) ∷ m) id = let rest = delete m id in if str_eq i id then rest else (i, n) ∷ rest

abbrev pub set : Streaks → String → ℕ → Streaks
set m id n = (id, n) ∷ delete m id

-- `new Map(bounds.map(...)).get(chain)`: the last bound of a chain.
unfoldable pub bound_of : List ReconcileBound → String → Option ReconcileBound
bound_of [] chain = none
bound_of (b ∷ bs) chain = or_else (bound_of bs chain) b
  where
    or_else : Option ReconcileBound → ReconcileBound → Option ReconcileBound
    or_else (some c) b = some c
    or_else none b = if str_eq b.chain_id chain then some b else none

module _ (rpc_fail_escalate_after : ℕ) where
  unfoldable pub handle_rpc_failure : StaleRow → Driver → Driver
  handle_rpc_failure row d =
      let streak = get_or_default (streak_of d.streaks row.id) 0 + 1 in
      let told = recorded row.id transient_rpc_error ∷ d.events in
      record {
        streaks = set d.streaks row.id streak;
        events =
            if leb rpc_fail_escalate_after streak then escalated row.id streak ∷ told else told;
      }

  unfoldable pub settle : StaleRow → Attempt → Driver → Driver
  settle row (corrected from to) d = record {
    streaks = delete d.streaks row.id;
    events = recorded row.id (corrected from to) ∷ d.events;
  }
  settle row (outcome o) d = record {
    streaks = delete d.streaks row.id;
    events = recorded row.id (outcome o) ∷ d.events;
  }
  settle row transient_rpc_error d = handle_rpc_failure row d
  settle row other_error d = record {
    streaks = d.streaks;
    events = recorded row.id other_error ∷ d.events;
  }

  module _ (reconcile_row : StaleRow → ReconcileBound → Attempt) where
    unfoldable pub visit : Option ReconcileBound → StaleRow → Driver → Driver
    visit none row d = d
    visit (some b) row d = settle row (reconcile_row row b) d

    unfoldable pub visit_rows : List ReconcileBound → List StaleRow → Driver → Driver
    unfolding visit
    visit_rows bounds [] d = d
    visit_rows bounds (row ∷ rows) d =
        visit_rows bounds rows (visit (bound_of bounds row.chain_id) row d)

    -- A tick with what the repository finds for its bounds, `none` where the query throws.
    unfoldable pub on_confirmed_heads :
        List ReconcileBound → Option (List StaleRow) → Driver → Driver
    on_confirmed_heads [] rows d = d
    on_confirmed_heads (b ∷ bs) none d = d
    on_confirmed_heads (b ∷ bs) (some rows) d = visit_rows (b ∷ bs) rows d
