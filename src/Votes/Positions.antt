-- ===== src/Votes/Positions.antt =====
-- The positions of votes in time, under `isNewerVote`.
use kvorum.Base.{ℕ, ◌≡◌, true, false, some, arith}
use kvorum.Votes.{newer_than, is_newer_vote, CurrentVoteRow}

pub record Position : Type 0 where
  pub cast_at : ℕ
  pub block_number : ℕ
  pub log_index : ℕ

-- The position of a vote is after the one of a current row.
abbrev pub After : Position → CurrentVoteRow → Type 0
After p c = is_newer_vote p.cast_at p.block_number p.log_index (some c) ≡ true

abbrev pub NotAfter : Position → CurrentVoteRow → Type 0
NotAfter p c = is_newer_vote p.cast_at p.block_number p.log_index (some c) ≡ false

abbrev pub position_of : CurrentVoteRow → Position
position_of c = record {
  cast_at = c.cast_at;
  block_number = c.block_number;
  log_index = c.log_index;
}

pub position_of-NotAfter : (c : CurrentVoteRow) → NotAfter (position_of c) c
unfolding is_newer_vote newer_than
position_of-NotAfter c = ground arith

-- What is not after a row is not after a row at a later position.
pub NotAfter-After :
    (p q : Position) (c d : CurrentVoteRow)
    → NotAfter p c
    → After q c
    → position_of d ≡ q
    → NotAfter p d
unfolding is_newer_vote newer_than
NotAfter-After p q c d not_after after at = ground arith
