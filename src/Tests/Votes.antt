-- ===== src/Tests/Votes.antt =====
-- The theorems on projected votes at two votes of one voter, one of them projected twice.
use kvorum.Base.{if◌then◌else◌, ℕ, String, ◌≡◌, refl, sym, true, some, List, [], ◌∷◌, str_eq}
use kvorum.Votes.{CurrentVoteRow, VoteRow, VoteRowIdentity}
use kvorum.Votes.Applier.{apply_all, VoteCast, Services, Fetch, Ledger, found, missing}
use kvorum.Votes.Effect.{Sound}
use kvorum.Votes.Current.{IsLatest}
use kvorum.Votes.Failures.{ids_onto}
use kvorum.Votes.Latest.{projected_votes_current}
use kvorum.Votes.Positions.{Position}
use kvorum.Tests.VoteList.{vote_list}

abbrev ballot : VoteCast
ballot = record { proposal_id = "9"; voter = "0xab"; primary_choice = 1; voting_power = 50 }

abbrev answering : Services
answering = record {
  parse = λ text. some ballot;
  find_dao_id_for_source = λ s. found "dao";
  find_by_source = λ d t s. found "proposal";
  read_ok = true;
  insert_ok = true;
  mark_ok = true;
}

abbrev failing : Services
failing = record {
  parse = λ text. some ballot;
  find_dao_id_for_source = λ s. found "dao";
  find_by_source = λ d t s. missing;
  read_ok = true;
  insert_ok = true;
  mark_ok = true;
}

abbrev archived : String → ℕ → ℕ → VoteRowIdentity
archived id block attempts = record {
  id = id;
  block_number = block;
  log_index = 3;
  chain_id = "1";
  dao_source_id = "source";
  source_type = "compound_governor_bravo";
  derivation_attempt_count = attempts;
}

abbrev fetched_vote : String → ℕ → Fetch
fetched_vote id block = record {
  row = archived id block 0;
  payload = some "{}";
  cast_at = some 1000;
  services = answering;
}

abbrev hopeless_vote : Fetch
hopeless_vote = record {
  row = archived "c" 12 4;
  payload = some "{}";
  cast_at = some 1000;
  services = failing;
}

abbrev positions : String → Position
positions id = record {
  cast_at = 1000;
  block_number = if str_eq id "a" then 10 else 11;
  log_index = 3;
}

abbrev blank : Ledger (List VoteRow)
blank = record { projection = []; outcomes = []; marked = []; attempts = []; dead = [] }

abbrev plain : String → String
plain s = s

abbrev SoundVote : Fetch → Type 0
SoundVote f = Sound vote_list 5 plain "dao" "proposal" "0xab" positions f

fetched_vote-Sound :
    (id : String) (block : ℕ)
    → block ≡ (if str_eq id "a" then 10 else 11)
    → SoundVote (fetched_vote id block)
fetched_vote-Sound id block e = record {
  text = "{}";
  at = 1000;
  event = ballot;
  payload_is = refl;
  cast_at_is = refl;
  parsed = refl;
  dao_is = refl;
  proposal_is = refl;
  voter_is = refl;
  reads = refl;
  inserts = refl;
  marks = refl;
  position_is = λ i. record { cast_at = 1000; block_number = sym e i; log_index = 3 };
}

abbrev later_votes : List Fetch
later_votes = fetched_vote "a" 10 ∷ fetched_vote "b" 11 ∷ []

projected_votes_current_example :
    (c : CurrentVoteRow) × IsLatest vote_list 5 plain "dao" "proposal" "0xab" positions
      (ids_onto (fetched_vote "b" 11 ∷ later_votes) [])
      (apply_all vote_list 5 plain (fetched_vote "b" 11 ∷ later_votes) blank).projection
      c
projected_votes_current_example =
    projected_votes_current vote_list 5 plain "dao" "proposal" "0xab" positions
      (fetched_vote "b" 11) later_votes blank refl
      (
        fetched_vote-Sound "b" 11 refl,
        (fetched_vote-Sound "a" 10 refl, (fetched_vote-Sound "b" 11 refl, tt)),
      )

abbrev mixed_votes : List Fetch
mixed_votes = fetched_vote "a" 10 ∷ hopeless_vote ∷ []
