-- ===== src/Indexer/Derivation.antt =====
-- DerivationWorkerService, of apps/indexer/src/derivation/derivation-worker.service.ts. The appliers
-- and `incrementAttemptCount` are parameters that act on a world W and may throw, which is a second
-- component of false. Metrics, the progress log and the other log lines are left out.
pub mod Runs
pub mod Dispatches
use kvorum.Base.{
  if◌then◌else◌, find, any, String, join_text, Bool, true, false, ◌&&◌, Option, none, some, List,
  [], ◌∷◌, ◌++◌, str_eq,
}

pub record ArchiveRow : Type 0 where
  pub id : String
  pub source_type : String
  pub chain_id : String
  pub event_type : String

-- `${row.source_type}:${row.chain_id}:${row.event_type}`
unfoldable pub dispatch_key : ArchiveRow → String
dispatch_key r =
    join_text r.source_type (join_text ":" (join_text r.chain_id (join_text ":" r.event_type)))

-- The variables of `splitIntoDispatchRuns`.
pub record Splitting : Type 0 where
  pub runs : List (List ArchiveRow)
  pub current : List ArchiveRow
  pub current_key : Option String

-- `key !== currentKey`
abbrev pub same_key : String → Option String → Bool
same_key k none = false
same_key k (some c) = str_eq k c

-- `if (current.length > 0) runs.push(current)`
abbrev pub flush : List (List ArchiveRow) → List ArchiveRow → List (List ArchiveRow)
flush runs [] = runs
flush runs (r ∷ rs) = runs ++ ((r ∷ rs) ∷ [])

unfoldable pub push_row : ArchiveRow → Splitting → Splitting
push_row row s =
    if same_key (dispatch_key row) s.current_key
    then record { runs = s.runs; current = s.current ++ (row ∷ []); current_key = s.current_key }
    else record {
      runs = flush s.runs s.current;
      current = row ∷ [];
      current_key = some (dispatch_key row);
    }

abbrev pub push_all : List ArchiveRow → Splitting → Splitting
push_all [] s = s
push_all (r ∷ rs) s = push_all rs (push_row r s)

abbrev pub nothing_split : Splitting
nothing_split = record { runs = []; current = []; current_key = none }

unfoldable pub split_into_dispatch_runs : List ArchiveRow → List (List ArchiveRow)
split_into_dispatch_runs rows = let s = push_all rows nothing_split in flush s.runs s.current

pub record ProjectionDeriver (W : Type 0) : Type 0 where
  pub source_types : List String
  pub event_types : List String
  pub apply_batch : List ArchiveRow → W → W × Bool

abbrev pub includes : String → List String → Bool
includes x ys = any (λ y. str_eq y x) ys

pub record Worker (W : Type 0) : Type 0 where
  pub in_flight : Bool
  pub world : W

module _ {W : Type 0} where
  abbrev pub supports : String → String → ProjectionDeriver W → Bool
  supports source_type event_type d =
      includes source_type d.source_types && includes event_type d.event_types

  unfoldable pub mark_unsupported_dispatch :
      (String → W → W × Bool) → List ArchiveRow → W → W × Bool
  mark_unsupported_dispatch increment [] w = (w, true)
  mark_unsupported_dispatch increment (r ∷ rs) w =
      let rest = mark_unsupported_dispatch increment rs (increment r.id w).0 in
      if (increment r.id w).1 then rest else ((increment r.id w).0, false)

  unfoldable pub dispatch_to :
      (String → W → W × Bool) → Option (ProjectionDeriver W) → List ArchiveRow → W → W × Bool
  dispatch_to increment none rows w = mark_unsupported_dispatch increment rows w
  dispatch_to increment (some d) rows w = d.apply_batch rows w

  -- One run of the loop of `tick`, with its `try`: the error of a dispatch is logged.
  unfoldable pub dispatch_run :
      (String → W → W × Bool) → List (ProjectionDeriver W) → List ArchiveRow → W → W
  dispatch_run increment appliers [] w = w
  dispatch_run increment appliers (r ∷ rs) w =
      (dispatch_to increment (find (supports r.source_type r.event_type) appliers) (r ∷ rs) w).0

  abbrev pub dispatch_runs :
      (String → W → W × Bool) → List (ProjectionDeriver W) → List (List ArchiveRow) → W → W
  dispatch_runs increment appliers [] w = w
  dispatch_runs increment appliers (run ∷ runs) w =
      dispatch_runs increment appliers runs (dispatch_run increment appliers run w)

  -- What the two queries give, or none if one throws.
  unfoldable pub tick :
      (String → W → W × Bool)
      → List (ProjectionDeriver W)
      → List (ProjectionDeriver W)
      → Option (List ArchiveRow × List ArchiveRow)
      → Worker W
      → Worker W
  tick increment appliers offchain_appliers queried s = if s.in_flight then s else elim queried [
    | none ↦ record { in_flight = false; world = s.world }
    | some (watermark, offchain_watermark) ↦ record {
      in_flight = false;
      world =
          dispatch_runs increment offchain_appliers (split_into_dispatch_runs offchain_watermark)
            (dispatch_runs increment appliers (split_into_dispatch_runs watermark) s.world);
    }
  ]
