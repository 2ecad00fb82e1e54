-- ===== src/Votes/Failures.antt =====
-- The accounts of the applier: outcomes, marks, attempt counts and dead letters.
use kvorum.Base.{ℕ, String, ◌≡◌, List, [], ◌∷◌, map}
use kvorum.Votes.{VoteRowIdentity}
use kvorum.Votes.Accounts.{Entry, Accounted}
use kvorum.Votes.Applier.{Outcome, Fetch, Ledger}
use kvorum.Votes.Table.{Table}

-- The ids of the rows of a batch, the last first, before others.
abbrev pub ids_onto : List Fetch → List String → List String
ids_onto [] acc = acc
ids_onto (f ∷ fs) acc = ids_onto fs (f.row.id ∷ acc)

-- One row's outcome is added.
Accounts : {S : Type 0} → ℕ → VoteRowIdentity → Ledger S → Ledger S → Type 0
Accounts threshold row w w' = (o : Outcome) × Accounted threshold ((row, o) ∷ []) w w'

module _ (table : Table) (threshold : ℕ) (to_lower_case : String → String) where
  open table use {State}

  -- Each row's outcome, and the accounts.
  abbrev Settled : List Fetch → Ledger State → Ledger State → Type 0
  Settled fs w w' =
      (es : List Entry) × (map (λ (e : Entry). e.0) es ≡ map (λ (f : Fetch). f.row) fs)
      × Accounted threshold es w w'
