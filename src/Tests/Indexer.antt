-- ===== src/Tests/Indexer.antt =====
-- The theorems on the derivation worker, with one deriver that keeps the ids that it is given.
use kvorum.Base.{
  if◌then◌else◌, All, String, ◌≡◌, refl, Bool, true, false, some, List, [], ◌∷◌, ◌++◌, str_eq,
}
use kvorum.Indexer.Derivation.{split_into_dispatch_runs, tick, ArchiveRow, ProjectionDeriver}
use kvorum.Indexer.Derivation.Runs.{AreRuns, split_into_dispatch_runs-AreRuns}
use kvorum.Indexer.Derivation.Dispatches.{Splits, performed, tick-Dispatched, Dispatch, Dispatched}

abbrev created : String → ArchiveRow
created id = record { id = id; source_type = "s"; chain_id = "1"; event_type = "Created" }

abbrev canceled : String → ArchiveRow
canceled id = record { id = id; source_type = "s"; chain_id = "1"; event_type = "Canceled" }

abbrev some_rows : List ArchiveRow
some_rows = created "a" ∷ created "b" ∷ canceled "c" ∷ created "d" ∷ []

split_into_dispatch_runs-AreRuns_example : AreRuns some_rows (split_into_dispatch_runs some_rows)
split_into_dispatch_runs-AreRuns_example = split_into_dispatch_runs-AreRuns some_rows

-- What was applied and which attempt counts were incremented.
abbrev Log : Type 0
Log = List String × List String

abbrev counting : String → Log → Log × Bool
counting id w = ((w.0, w.1 ++ (id ∷ [])), true)

abbrev first_ids : List ArchiveRow → List String
first_ids [] = []
first_ids (r ∷ rs) = r.id ∷ []

-- A deriver that throws behind the first row of each batch.
abbrev creations : ProjectionDeriver Log
creations = record {
  source_types = "s" ∷ [];
  event_types = "Created" ∷ [];
  apply_batch = λ rows w. ((w.0 ++ first_ids rows, w.1), false);
}

abbrev elsewhere : String → ArchiveRow
elsewhere id = record { id = id; source_type = "s"; chain_id = "10"; event_type = "Created" }

abbrev rows_of_two_chains : List ArchiveRow
rows_of_two_chains = created "a" ∷ elsewhere "b" ∷ canceled "c" ∷ []

abbrev split_key : String → String × String × String
split_key k =
    if str_eq k "s:1:Created"
    then ("s", "1", "Created")
    else if str_eq k "s:10:Created"
    then ("s", "10", "Created")
    else ("s", "1", "Canceled")

abbrev derivers : List (ProjectionDeriver Log)
derivers = creations ∷ []

two_chains-Splits : All (Splits split_key) rows_of_two_chains
two_chains-Splits = (refl, (refl, (refl, tt)))

tick-Dispatched_example :
    (ds es : List (Dispatch Log)) × Dispatched derivers rows_of_two_chains ds
    × Dispatched [] [] es
    × ((tick counting derivers []
          (some (rows_of_two_chains, []))
          (record { in_flight = false; world = ([], []) })).world
        ≡ performed counting es (performed counting ds ([], [])))
tick-Dispatched_example =
    tick-Dispatched counting derivers [] split_key rows_of_two_chains [] ([], []) two_chains-Splits
      tt
