-- ===== src/Votes.antt =====
-- The votes of one voter on one proposal: libs/sources/core/src/vote/vote-rows.ts, and the applier of
-- libs/sources/compound/src/governor/domain/governor-vote-projection-applier.ts that projects them.
-- Times are in milliseconds, block numbers are natural numbers. The projection table is a parameter
-- (Table). Metrics and log lines are left out.
pub mod Table
pub mod Applier
pub mod Rows
pub mod Positions
pub mod Effect
pub mod Current
pub mod Latest
pub mod Accounts
pub mod Failures
use kvorum.Base.{
  ltb, ◌==◌, if◌then◌else◌, ℕ, String, Bool, true, not, Option, none, some, List, [], ◌∷◌,
}

pub record CurrentVoteRow : Type 0 where
  pub vote_id : String
  pub cast_at : ℕ
  pub block_number : ℕ
  pub log_index : ℕ
  pub primary_choice : ℕ
  pub voting_power : ℕ
  pub voting_chain_id : String

pub record VoteRow : Type 0 where
  pub vote_id : String
  pub dao_id : String
  pub proposal_id : String
  pub voter_address : String
  pub voting_chain_id : String
  pub primary_choice : ℕ
  pub voting_power : ℕ
  pub cast_at : ℕ
  pub block_number : ℕ
  pub log_index : ℕ
  pub superseded : Bool
  pub superseded_at : Option ℕ
  pub superseded_by_vote_id : Option String

-- The archive row of a vote, as far as the applier reads it.
pub record VoteRowIdentity : Type 0 where
  pub id : String
  pub block_number : ℕ
  pub log_index : ℕ
  pub chain_id : String
  pub dao_source_id : String
  pub source_type : String
  pub derivation_attempt_count : ℕ

pub record IncomingVote : Type 0 where
  pub primary_choice : ℕ
  pub voting_power : ℕ

newer_than : ℕ → ℕ → ℕ → CurrentVoteRow → Bool
newer_than cast_at block log c =
    if not (cast_at == c.cast_at)
    then ltb c.cast_at cast_at
    else if not (block == c.block_number)
    then ltb c.block_number block
    else ltb c.log_index log

unfoldable pub is_newer_vote : ℕ → ℕ → ℕ → Option CurrentVoteRow → Bool
unfolding newer_than
is_newer_vote cast_at block log none = true
is_newer_vote cast_at block log (some c) = newer_than cast_at block log c

abbrev current_id : Option CurrentVoteRow → Option String
current_id none = none
current_id (some c) = some c.vote_id

incoming_row :
    VoteRowIdentity
    → String
    → String
    → String
    → ℕ
    → IncomingVote
    → Option CurrentVoteRow
    → Bool
    → VoteRow
incoming_row row dao proposal voter cast_at vote current newer = record {
  vote_id = row.id;
  dao_id = dao;
  proposal_id = proposal;
  voter_address = voter;
  voting_chain_id = row.chain_id;
  primary_choice = vote.primary_choice;
  voting_power = vote.voting_power;
  cast_at = cast_at;
  block_number = row.block_number;
  log_index = row.log_index;
  superseded = not newer;
  superseded_at = if newer then none else some cast_at;
  superseded_by_vote_id = if newer then none else current_id current;
}

superseded_row : VoteRowIdentity → String → String → String → ℕ → CurrentVoteRow → VoteRow
superseded_row row dao proposal voter cast_at c = record {
  vote_id = c.vote_id;
  dao_id = dao;
  proposal_id = proposal;
  voter_address = voter;
  voting_chain_id = c.voting_chain_id;
  primary_choice = c.primary_choice;
  voting_power = c.voting_power;
  cast_at = c.cast_at;
  block_number = c.block_number;
  log_index = c.log_index;
  superseded = true;
  superseded_at = some cast_at;
  superseded_by_vote_id = some row.id;
}

-- `!args.incomingIsNewer || args.current === undefined`
unfoldable pub build_vote_rows :
    VoteRowIdentity
    → String
    → String
    → String
    → ℕ
    → IncomingVote
    → Option CurrentVoteRow
    → Bool
    → List VoteRow
unfolding incoming_row superseded_row
build_vote_rows row dao proposal voter cast_at vote none newer =
    incoming_row row dao proposal voter cast_at vote none newer ∷ []
build_vote_rows row dao proposal voter cast_at vote (some c) newer =
    incoming_row row dao proposal voter cast_at vote (some c) newer
    ∷ (if newer then superseded_row row dao proposal voter cast_at c ∷ [] else [])
