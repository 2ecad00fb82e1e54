-- ===== src/Tests/VoteChoice.antt =====
-- The vote choice decoder's theorems, with natural numbers for JavaScript's.
use kvorum.Base.{◌==◌, ℕ, ◌≡◌, true, false, some, [], ◌∷◌}
use kvorum.Sources.VoteChoice.{
  format_scaled, decode_weighted, decode_vote_choice, Numbers, Choice, object,
}
use kvorum.Sources.VoteChoice.Decimal.{weight_value, weight_value-format_scaled}
use kvorum.Sources.VoteChoice.Decoded.{decode_weighted-IsWhole, decode_vote_choice-IsBallot}
use kvorum.Sources.VoteChoice.Weighed.{IsBallot, IsWhole}

abbrev naturals : Numbers
naturals = record {
  Num = ℕ;
  to_natural = λ n. some n;
  is_finite = λ n. true;
  is_negative = λ n. false;
  is_zero = λ n. n == 0;
  round = λ n. n;
}

abbrev two_to_one : Choice naturals
two_to_one = object ((1, some 2) ∷ (2, some 1) ∷ [])

weight_value-format_scaled_example :
    weight_value (format_scaled 333333333333333330) ≡ 333333333333333330
weight_value-format_scaled_example = weight_value-format_scaled 333333333333333330

decode_weighted-IsWhole_example :
    IsBallot 2 (decode_weighted naturals 2 two_to_one)
    × IsWhole (decode_weighted naturals 2 two_to_one)
decode_weighted-IsWhole_example = decode_weighted-IsWhole naturals 2 two_to_one

decode_vote_choice-IsBallot_example :
    IsBallot 2 (decode_vote_choice naturals 2 (some "weighted") two_to_one)
decode_vote_choice-IsBallot_example =
    decode_vote_choice-IsBallot naturals 2 (some "weighted") two_to_one
