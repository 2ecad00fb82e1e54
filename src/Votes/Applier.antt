-- ===== src/Votes/Applier.antt =====
-- GovernorVoteProjectionApplier, of
-- libs/sources/compound/src/governor/domain/governor-vote-projection-applier.ts. What the calls
-- outside the code give (the payload's parse, the repositories, the clock of a block) is a parameter
-- (Services), and so is the projection table. An insert that fails leaves the table as it was, and
-- the failure path's own two writes are taken to succeed. What is logged is left out.
use kvorum.Base.{
  ltb, if◌then◌else◌, ℕ, ◌+◌, String, ◌≡◌, refl, ◌⊎◌, inl, inr, Bool, true, false, not, Option,
  none, some, List, [], ◌∷◌, str_eq,
}
use kvorum.Votes.{
  is_newer_vote, build_vote_rows, CurrentVoteRow, VoteRow, VoteRowIdentity, IncomingVote,
}
use kvorum.Votes.Table.{Table}

pub record VoteCast : Type 0 where
  pub proposal_id : String
  pub voter : String
  pub primary_choice : ℕ
  pub voting_power : ℕ

-- The answer to a lookup in a repository, which may throw.
pub data Lookup : Type 0 where
  found : String → Lookup
  missing : Lookup
  lookup_error : Lookup

pub Lookup-cases :
    (l : Lookup) → ((x : String) × (l ≡ found x)) ⊎ (l ≡ missing) ⊎ (l ≡ lookup_error)
Lookup-cases (found x) = inl (x, refl)
Lookup-cases missing = inr (inl refl)
Lookup-cases lookup_error = inr (inr refl)

pub data FailureReason : Type 0 where
  payload_missing : FailureReason
  decode_error : FailureReason
  projection_apply_error : FailureReason
  watermark_update_error : FailureReason
  no_proposal : FailureReason
  block_timestamp_unavailable : FailureReason

pub data Outcome : Type 0 where
  derived : Outcome
  skipped_idempotent : Outcome
  failed : FailureReason → Outcome

-- What the calls of one row's projection give.
pub record Services : Type 0 where
  pub parse : String → Option VoteCast
  pub find_dao_id_for_source : String → Lookup
  pub find_by_source : String → String → String → Lookup
  pub read_ok : Bool
  pub insert_ok : Bool
  pub mark_ok : Bool

pub record DeadLetter : Type 0 where
  pub id : String
  pub reason : FailureReason
  pub retries : ℕ

-- A row of a batch, its payload and its block's time as the two lookups of `applyBatch` found them,
-- and the services while it is projected.
pub record Fetch : Type 0 where
  pub row : VoteRowIdentity
  pub payload : Option String
  pub cast_at : Option ℕ
  pub services : Services

-- What the applier has written, the last first: `record`ed outcomes, rows marked derived, attempt
-- counts incremented and dead letters.
pub record Ledger (S : Type 0) : Type 0 where
  pub projection : S
  pub outcomes : List (String × Outcome)
  pub marked : List String
  pub attempts : List String
  pub dead : List DeadLetter

module _ {S : Type 0} where
  abbrev pub record_outcome : VoteRowIdentity → Outcome → Ledger S → Ledger S
  record_outcome row o w = record {
    projection = w.projection;
    outcomes = (row.id, o) ∷ w.outcomes;
    marked = w.marked;
    attempts = w.attempts;
    dead = w.dead;
  }

  abbrev pub mark_derived : VoteRowIdentity → Ledger S → Ledger S
  mark_derived row w = record {
    projection = w.projection;
    outcomes = w.outcomes;
    marked = row.id ∷ w.marked;
    attempts = w.attempts;
    dead = w.dead;
  }

  abbrev pub with_projection : S → Ledger S → Ledger S
  with_projection t w = record {
    projection = t;
    outcomes = w.outcomes;
    marked = w.marked;
    attempts = w.attempts;
    dead = w.dead;
  }

  unfoldable pub fail_and_maybe_dlq : ℕ → VoteRowIdentity → FailureReason → Ledger S → Ledger S
  fail_and_maybe_dlq threshold row reason w =
      let attempt = row.derivation_attempt_count + 1 in
      record {
        projection = w.projection;
        outcomes = (row.id, failed reason) ∷ w.outcomes;
        marked = w.marked;
        attempts = row.id ∷ w.attempts;
        dead =
            if ltb attempt threshold
            then w.dead
            else record { id = row.id; reason = reason; retries = attempt } ∷ w.dead;
      }

abbrev pub incoming_of : VoteCast → IncomingVote
incoming_of e = record { primary_choice = e.primary_choice; voting_power = e.voting_power }

unfoldable pub derived_or_skipped : Bool → Outcome
derived_or_skipped newer = if newer then derived else skipped_idempotent

-- `current !== undefined && current.vote_id === row.id`
abbrev pub is_current : VoteRowIdentity → Option CurrentVoteRow → Bool
is_current row none = false
is_current row (some c) = str_eq c.vote_id row.id

module _ (table : Table) where
  open table use {State, insert_row}

  unfoldable pub insert_batch : List VoteRow → State → State
  insert_batch [] t = t
  insert_batch (r ∷ rs) t = insert_batch rs (insert_row r t)

module _ (table : Table) (threshold : ℕ) (to_lower_case : String → String) where
  open table use {State, find_current_vote}

  -- From `isNewerVote` on.
  unfoldable pub project :
      VoteRowIdentity
      → ℕ
      → Services
      → VoteCast
      → String
      → String
      → Option CurrentVoteRow
      → Ledger State
      → Ledger State
  unfolding derived_or_skipped
  project row cast_at s event dao proposal current w =
      let newer = is_newer_vote cast_at row.block_number row.log_index current in
      let rows =
        build_vote_rows row dao proposal (to_lower_case event.voter) cast_at (incoming_of event)
          current newer in
      let w' = with_projection (insert_batch table rows w.projection) w in
      if not s.insert_ok
      then fail_and_maybe_dlq threshold row projection_apply_error w
      else if s.mark_ok
      then record_outcome row (derived_or_skipped newer) (mark_derived row w')
      else fail_and_maybe_dlq threshold row watermark_update_error w'

  -- From `findCurrentVote` on.
  unfoldable pub supersede :
      VoteRowIdentity → ℕ → Services → VoteCast → String → String → Ledger State → Ledger State
  unfolding project
  supersede row cast_at s event dao proposal w =
      let current = find_current_vote dao proposal (to_lower_case event.voter) w.projection in
      if not s.read_ok
      then fail_and_maybe_dlq threshold row projection_apply_error w
      else if is_current row current
      then (if s.mark_ok
          then record_outcome row skipped_idempotent (mark_derived row w)
          else fail_and_maybe_dlq threshold row projection_apply_error w)
      else project row cast_at s event dao proposal current w

  unfoldable pub apply : VoteRowIdentity → String → ℕ → Services → Ledger State → Ledger State
  apply row payload cast_at s w = elim (s.parse payload) [
    | none ↦ fail_and_maybe_dlq threshold row decode_error w
    | some event ↦ elim (s.find_dao_id_for_source row.dao_source_id) [
      | found dao ↦ elim (s.find_by_source dao row.source_type event.proposal_id) [
        | found proposal ↦ supersede row cast_at s event dao proposal w
        | missing ↦ fail_and_maybe_dlq threshold row no_proposal w
        | lookup_error ↦ fail_and_maybe_dlq threshold row projection_apply_error w
      ]
      | _ ↦ fail_and_maybe_dlq threshold row projection_apply_error w
    ]
  ]

  unfoldable pub apply_fetch : Fetch → Ledger State → Ledger State
  apply_fetch f w = elim f.payload [
    | none ↦ fail_and_maybe_dlq threshold f.row payload_missing w
    | some payload ↦ elim f.cast_at [
      | none ↦ fail_and_maybe_dlq threshold f.row block_timestamp_unavailable w
      | some cast_at ↦ apply f.row payload cast_at f.services w
    ]
  ]

  abbrev pub apply_all : List Fetch → Ledger State → Ledger State
  apply_all [] w = w
  apply_all (f ∷ fs) w = apply_all fs (apply_fetch f w)

  abbrev pub fail_all : List Fetch → Ledger State → Ledger State
  fail_all [] w = w
  fail_all (f ∷ fs) w =
      fail_all fs (fail_and_maybe_dlq threshold f.row block_timestamp_unavailable w)

  -- The Booleans say whether the registry knows the chain and whether the fetches of the payloads and
  -- of the times of the blocks answer; the result is false where one throws, and `applyBatch` with it.
  unfoldable pub apply_batch : Bool → Bool → Bool → List Fetch → Ledger State → Ledger State × Bool
  apply_batch known payloads_ok times_ok [] w = (w, true)
  apply_batch known payloads_ok times_ok (f ∷ fs) w =
      if not known
      then (fail_all (f ∷ fs) w, true)
      else if not payloads_ok
      then (w, false)
      else if not times_ok
      then (w, false)
      else (apply_all (f ∷ fs) w, true)
