-- ===== src/Indexer/Derivation/Dispatches.antt =====
-- The batches that `tick` hands to the appliers.
use kvorum.Base.{
  length, find, concat, All, All-concat, ◌≤◌, String, join_text, ◌≡◌, refl, sym, ap, ◌∙◌, subst,
  Bool, false, Option, none, some, List, [], ◌∷◌, map, arith,
}
use kvorum.Indexer.Derivation.{
  dispatch_key, split_into_dispatch_runs, supports, mark_unsupported_dispatch, dispatch_to,
  dispatch_run, dispatch_runs, tick, ArchiveRow, ProjectionDeriver,
}
use kvorum.Indexer.Derivation.Runs.{IsRun, AreRuns, split_into_dispatch_runs-AreRuns}

-- The text of a row's source type, chain and event type, and that it can be split again: none of them
-- has a colon.
abbrev spelled : ArchiveRow → String
spelled r =
    join_text r.source_type (join_text ":" (join_text r.chain_id (join_text ":" r.event_type)))

abbrev kind_of : ArchiveRow → String × String × String
kind_of r = (r.source_type, r.chain_id, r.event_type)

abbrev pub Splits : (String → String × String × String) → ArchiveRow → Type 0
Splits split r = split (spelled r) ≡ kind_of r

-- A batch of rows for a deriver, or for none that supports them.
pub record Dispatch (W : Type 0) : Type 0 where
  pub deriver : Option (ProjectionDeriver W)
  pub rows : List ArchiveRow

module _ {W : Type 0} where
  -- Dispatches one after another: one that throws is given up where it throws, and the next follows.
  abbrev pub performed : (String → W → W × Bool) → List (Dispatch W) → W → W
  performed increment [] w = w
  performed increment (d ∷ ds) w =
      performed increment ds (dispatch_to increment d.deriver d.rows w).0

  -- A batch holds a row, all its rows have one source type, one chain and one event type, and it is for
  -- the first deriver that supports these types, if there is one.
  pub record IsDue (appliers : List (ProjectionDeriver W)) (d : Dispatch W) : Type 0 where
    pub some_row : 1 ≤ length d.rows
    pub kind : String × String × String
    pub of_kind : All (λ r. kind_of r ≡ kind) d.rows
    pub first_of_kind : d.deriver ≡ find (supports kind.0 kind.2) appliers

  -- The batches put end to end are the rows, and each is due.
  pub record Dispatched (appliers : List (ProjectionDeriver W)) (rows : List ArchiveRow)
      (ds : List (Dispatch W)) : Type 0 where
    pub all_rows : concat (map (λ (d : Dispatch W). d.rows) ds) ≡ rows
    pub due : All (IsDue appliers) ds

  abbrev dispatch_of : List (ProjectionDeriver W) → List ArchiveRow → Dispatch W
  dispatch_of appliers [] = record { deriver = none; rows = [] }
  dispatch_of appliers (r ∷ rs) = record {
    deriver = find (supports r.source_type r.event_type) appliers;
    rows = r ∷ rs;
  }

  module _ (appliers : List (ProjectionDeriver W)) where
    dispatch_of-rows : (run : List ArchiveRow) → (dispatch_of appliers run).rows ≡ run
    dispatch_of-rows [] = refl
    dispatch_of-rows (r ∷ rs) = refl

    all-dispatch_of :
        (runs : List (List ArchiveRow))
        → map (λ (d : Dispatch W). d.rows) (map (dispatch_of appliers) runs) ≡ runs
    all-dispatch_of [] = refl
    all-dispatch_of (run ∷ runs) = λ i. dispatch_of-rows run i ∷ all-dispatch_of runs i

    dispatch_run-performed :
        (increment : String → W → W × Bool) (run : List ArchiveRow) (w : W)
        → dispatch_run increment appliers run w
          ≡ performed increment (dispatch_of appliers run ∷ []) w
    unfolding dispatch_run dispatch_to mark_unsupported_dispatch
    dispatch_run-performed increment [] w = refl
    dispatch_run-performed increment (r ∷ rs) w = refl

    dispatch_runs-performed :
        (increment : String → W → W × Bool) (runs : List (List ArchiveRow)) (w : W)
        → dispatch_runs increment appliers runs w
          ≡ performed increment (map (dispatch_of appliers) runs) w
    dispatch_runs-performed increment [] w = refl
    dispatch_runs-performed increment (run ∷ runs) w =
        ap (dispatch_runs increment appliers runs) (dispatch_run-performed increment run w)
        ∙ dispatch_runs-performed increment runs _

    -- Rows of one key are of one kind.
    same_kind :
        (split : String → String × String × String) (k : String) (rows : List ArchiveRow)
        → All (Splits split) rows
        → All (λ r. dispatch_key r ≡ k) rows
        → All (λ r. kind_of r ≡ split k) rows
    unfolding dispatch_key
    same_kind split k [] s h = tt
    same_kind split k (r ∷ rows) s h = (sym s.0 ∙ ap split h.0, same_kind split k rows s.1 h.1)

    run-IsDue :
        (split : String → String × String × String) (run : List ArchiveRow)
        → All (Splits split) run
        → IsRun run
        → IsDue appliers (dispatch_of appliers run)
    run-IsDue split [] s h = absurd (omega (arith, h.0))
    run-IsDue split (r ∷ rs) s h =
        let kinds = same_kind split (dispatch_key r) (r ∷ rs) s h.1 in
        record {
          some_row = h.0;
          kind = split (dispatch_key r);
          of_kind = kinds;
          first_of_kind =
              ap (λ (k : String × String × String). find (supports k.0 k.2) appliers) kinds.0;
        }

    runs-IsDue :
        (split : String → String × String × String) (runs : List (List ArchiveRow))
        → All (All (Splits split)) runs
        → All IsRun runs
        → All (IsDue appliers) (map (dispatch_of appliers) runs)
    runs-IsDue split [] s h = tt
    runs-IsDue split (run ∷ runs) s h = (run-IsDue split run s.0 h.0, runs-IsDue split runs s.1 h.1)

    abbrev dispatches : List ArchiveRow → List (Dispatch W)
    dispatches rows = map (dispatch_of appliers) (split_into_dispatch_runs rows)

    rows-Dispatched :
        (split : String → String × String × String) (rows : List ArchiveRow)
        → All (Splits split) rows
        → Dispatched appliers rows (dispatches rows)
    unfolding AreRuns
    rows-Dispatched split rows s =
        let runs = split_into_dispatch_runs rows in
        let are = split_into_dispatch_runs-AreRuns rows in
        record {
          all_rows = ap concat (all-dispatch_of runs) ∙ are.0;
          due =
              runs-IsDue split runs
                (All-concat (Splits split) runs (subst (All (Splits split)) (sym are.0) s)) are.1;
        }

  -- A tick that is not in flight already and whose two queries succeed makes dispatches one after
  -- another, those of the chains first, also where some throw. Put end to end their batches are the
  -- rows in the order of their selection; each batch holds a row, its rows have one source type, one
  -- chain and one event type, and it goes to the first deriver that supports these types or, if there
  -- is none, has the attempt counts of its rows incremented. The condition is that the text
  -- `source:chain:event` of a row can be split again.
  pub tick-Dispatched :
      (increment : String → W → W × Bool) (appliers offchain : List (ProjectionDeriver W))
      (split : String → String × String × String) (rows offchain_rows : List ArchiveRow) (w : W)
      → All (Splits split) rows
      → All (Splits split) offchain_rows
      → (ds es : List (Dispatch W)) × Dispatched appliers rows ds
        × Dispatched offchain offchain_rows es
        × ((tick increment appliers offchain
              (some (rows, offchain_rows))
              (record { in_flight = false; world = w })).world
            ≡ performed increment es (performed increment ds w))
  unfolding tick
  tick-Dispatched increment appliers offchain split rows offchain_rows w s t = (
    dispatches appliers rows,
    dispatches offchain offchain_rows,
    rows-Dispatched appliers split rows s,
    rows-Dispatched offchain split offchain_rows t,
    ap (dispatch_runs increment offchain (split_into_dispatch_runs offchain_rows))
          (dispatch_runs-performed appliers increment (split_into_dispatch_runs rows) w)
        ∙ dispatch_runs-performed offchain increment (split_into_dispatch_runs offchain_rows) _,
  )
