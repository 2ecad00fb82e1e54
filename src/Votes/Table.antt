-- ===== src/Votes/Table.antt =====
-- vote_events_projection: one row for a vote of a voter on a proposal of a DAO.
use kvorum.Base.{if◌then◌else◌, String, ◌≡◌, true, false, Option, none, some, str_eq}
use kvorum.Votes.{CurrentVoteRow, VoteRow}

abbrev pub current_of : VoteRow → CurrentVoteRow
current_of r = record {
  vote_id = r.vote_id;
  cast_at = r.cast_at;
  block_number = r.block_number;
  log_index = r.log_index;
  primary_choice = r.primary_choice;
  voting_power = r.voting_power;
  voting_chain_id = r.voting_chain_id;
}

-- A row is about a voter, on a proposal of a DAO.
abbrev pub About : String → String → String → VoteRow → Type 0
About dao proposal voter r =
    (r.dao_id ≡ dao) × (r.proposal_id ≡ proposal) × (r.voter_address ≡ voter)

-- The view holds one row for a vote, the one inserted last, and `findCurrentVote` gives a row with
-- `superseded = 0`, if there is one. Its three texts are the DAO, the proposal and the voter.
pub record Table : Type 1 where
  pub State : Type 0
  pub row_of : String → String → String → State → String → Option VoteRow
  pub insert_row : VoteRow → State → State
  pub find_current_vote : String → String → String → State → Option CurrentVoteRow
  pub empty : State
  pub row_of-empty : (d p v id : String) → row_of d p v empty id ≡ none
  pub row_of-insert_row :
      (d p v : String) (r : VoteRow) (t : State) (id : String)
      → About d p v r
      → row_of d p v (insert_row r t) id
        ≡ (if str_eq r.vote_id id then some r else row_of d p v t id)
  pub current_found :
      (d p v : String) (t : State) (c : CurrentVoteRow)
      → find_current_vote d p v t ≡ some c
      → (r : VoteRow) × (row_of d p v t c.vote_id ≡ some r)
        × (r.superseded ≡ false)
        × (c ≡ current_of r)
  pub current_missing :
      (d p v : String) (t : State) (id : String) (r : VoteRow)
      → find_current_vote d p v t ≡ none
      → row_of d p v t id ≡ some r
      → r.superseded ≡ true
