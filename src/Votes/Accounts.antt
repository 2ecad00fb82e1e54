-- ===== src/Votes/Accounts.antt =====
-- The accounts of the vote applier, as what a list of rows with their outcomes calls for.
use kvorum.Base.{
  leb, if◌then◌else◌, ℕ, suc, String, ◌≡◌, Bool, true, false, ◌&&◌, List, [], ◌∷◌, map,
}
use kvorum.Votes.{VoteRowIdentity}
use kvorum.Votes.Applier.{Outcome, DeadLetter, Fetch, Ledger, derived, skipped_idempotent, failed}

-- A row with its outcome.
abbrev pub Entry : Type 0
Entry = VoteRowIdentity × Outcome

-- What one outcome of a row adds to the accounts.
abbrev pub with_attempt : Entry → List String → List String
with_attempt (row, derived) l = l
with_attempt (row, skipped_idempotent) l = l
with_attempt (row, failed reason) l = row.id ∷ l

abbrev pub with_mark : Entry → List String → List String
with_mark (row, derived) l = row.id ∷ l
with_mark (row, skipped_idempotent) l = row.id ∷ l
with_mark (row, failed reason) l = l

-- A failure is a dead letter if the attempts, with this one, have reached the threshold.
abbrev pub with_letter : ℕ → Entry → List DeadLetter → List DeadLetter
with_letter threshold (row, derived) l = l
with_letter threshold (row, skipped_idempotent) l = l
with_letter threshold (row, failed reason) l =
    let attempts = suc row.derivation_attempt_count in
    if leb threshold attempts
    then record { id = row.id; reason = reason; retries = attempts } ∷ l
    else l

-- What a list adds, entry by entry.
abbrev pub each : {B : Type 0} → (Entry → B → B) → List Entry → B → B
each add [] l = l
each add (e ∷ es) l = each add es (add e l)

-- The accounts of the ledger `w'` are those of `w` with the entries.
pub record Accounted {S : Type 0} (threshold : ℕ) (es : List Entry) (w w' : Ledger S) : Type 0 where
  pub recorded : w'.outcomes ≡ each (λ e l. (e.0.id, e.1) ∷ l) es w.outcomes
  pub attempted : w'.attempts ≡ each with_attempt es w.attempts
  pub marks : w'.marked ≡ each with_mark es w.marked
  pub letters : w'.dead ≡ each (with_letter threshold) es w.dead

-- What a batch does: it throws and writes nothing, which is only where the registry knows the chain
-- and a fetch throws; or each row has one outcome, and the accounts are the outcomes'.
abbrev pub BatchDone :
    {S : Type 0} → ℕ → Bool → Bool → Bool → List Fetch → Ledger S → Ledger S × Bool → Type 0
BatchDone threshold known payloads_ok times_ok fs w (w', false) =
    (known ≡ true) × (payloads_ok && times_ok ≡ false) × (w' ≡ w)
BatchDone threshold known payloads_ok times_ok fs w (w', true) =
    (es : List Entry) × (map (λ (e : Entry). e.0) es ≡ map (λ (f : Fetch). f.row) fs)
    × Accounted threshold es w w'
