-- ===== src/Sources/VoteChoice/Decoded.antt =====
-- What a decoded choice looks like.
use kvorum.Base.{
  ltb, Bool-cases, All, ℕ, ◌≤◌, ◌<◌, String, refl, inl, inr, not, ◌||◌, Option, none, some, List,
  [], ◌∷◌, map, arith,
}
use kvorum.Sources.VoteChoice.{
  number, array, object, other, weight_one, with_primary, full_weight, push_some, single_choice,
  full_choices, weigh_some, in_range, is_one_of, valid_index, decode_single, valid_indices,
  decode_approval, add_entry, collect, decode_weighted, decode_vote_choice, Numbers, Choice,
  DecodedChoice, Entry,
}
use kvorum.Sources.VoteChoice.Decimal.{weight_value}
use kvorum.Sources.VoteChoice.Weighed.{IsBallot, IsWhole, weigh-IsBallot}

full_choices-IsBallot :
    (choice_count : ℕ) (indices : List ℕ)
    → All (λ i. i < choice_count) indices
    → IsBallot choice_count (with_primary (map full_weight indices))
unfolding with_primary
full_choices-IsBallot choice_count [] h = tt
full_choices-IsBallot choice_count (i ∷ is) h = (refl, (h.0, in_count is h.1), same_weight is)
  where
    in_count :
        (l : List ℕ)
        → All (λ j. j < choice_count) l
        → All (λ (x : DecodedChoice). x.choice_index < choice_count) (map full_weight l)
    in_count [] h = tt
    in_count (j ∷ l) h = (h.0, in_count l h.1)

    same_weight :
        (l : List ℕ)
        → All
            (λ (x : DecodedChoice). weight_value x.weight ≤ weight_value weight_one)
            (map full_weight l)
    same_weight [] = tt
    same_weight (j ∷ l) = (omega arith, same_weight l)

-- An optional value that has a property if it is there.
abbrev IfSome : {A : Type 0} → (A → Type 0) → Option A → Type 0
IfSome P none = Unit
IfSome P (some a) = P a

push_some-All :
    {A : Type 0} (P : A → Type 0) (o : Option A) (rest : Option (List A))
    → IfSome P o
    → IfSome (All P) rest
    → IfSome (All P) (push_some o rest)
unfolding push_some
push_some-All P none rest h k = tt
push_some-All P (some a) none h k = tt
push_some-All P (some a) (some l) h k = (h, k)

in_range-bound :
    (choice_count : ℕ) (o : Option ℕ) → IfSome (λ i. i < choice_count) (in_range choice_count o)
unfolding in_range
in_range-bound choice_count none = tt
in_range-bound choice_count (some n) = elim (Bool-cases (ltb n 1 || ltb choice_count n)) [
  | inl e ↦ rw (e, in_range) tt
  | inr e ↦ rw (e, in_range) (ground arith)
]

module _ (N : Numbers) (choice_count : ℕ) where
  valid_index-bound :
      (o : Option N.Num) → IfSome (λ i. i < choice_count) (valid_index N choice_count o)
  unfolding valid_index
  valid_index-bound none = tt
  valid_index-bound (some n) = in_range-bound choice_count (N.to_natural n)

  valid_indices-bound :
      (l : List (Option N.Num))
      → IfSome (All (λ i. i < choice_count)) (valid_indices N choice_count l)
  unfolding valid_indices
  valid_indices-bound [] = tt
  valid_indices-bound (o ∷ l) =
      push_some-All (λ i. i < choice_count) (valid_index N choice_count o) _ (valid_index-bound o)
        (valid_indices-bound l)

  abbrev InCount : Entry → Type 0
  InCount e = e.index < choice_count

  add_entry-bound :
      (i : Option ℕ) (v : Option N.Num) (rest : Option (List Entry))
      → IfSome (λ i. i < choice_count) i
      → IfSome (All InCount) rest
      → IfSome (All InCount) (add_entry N choice_count i v rest)
  unfolding add_entry
  add_entry-bound none v rest h k = tt
  add_entry-bound (some i) none rest h k = tt
  add_entry-bound (some i) (some v) rest h k =
      elim (Bool-cases (not (N.is_finite v) || N.is_negative v)) [
        | inl e ↦ rw (e, add_entry) tt
        | inr e ↦ elim (Bool-cases (N.is_zero v)) [
          | inl g ↦ rw (e, g, add_entry) k
          | inr g ↦ rw (e, g, add_entry) (push_some-All InCount (some _) rest h k)
        ]
      ]

  collect-bound :
      (l : List (N.Num × Option N.Num)) → IfSome (All InCount) (collect N choice_count l)
  unfolding collect
  collect-bound [] = tt
  collect-bound ((key, value) ∷ rest) =
      add_entry-bound (valid_index N choice_count (some key)) value (collect N choice_count rest)
        (valid_index-bound (some key)) (collect-bound rest)

  single_choice-IsBallot :
      (o : Option ℕ) → IfSome (λ i. i < choice_count) o → IsBallot choice_count (single_choice o)
  unfolding single_choice
  single_choice-IsBallot none h = tt
  single_choice-IsBallot (some i) h = (refl, (h, tt), tt)

  decode_single-IsBallot : (c : Choice N) → IsBallot choice_count (decode_single N choice_count c)
  unfolding decode_single
  decode_single-IsBallot (number n) = single_choice-IsBallot _ (valid_index-bound (some n))
  decode_single-IsBallot (array l) = tt
  decode_single-IsBallot (object l) = tt
  decode_single-IsBallot other = tt

  full_some-IsBallot :
      (o : Option (List ℕ))
      → IfSome (All (λ i. i < choice_count)) o
      → IsBallot choice_count (full_choices o)
  unfolding full_choices
  full_some-IsBallot none h = tt
  full_some-IsBallot (some l) h = full_choices-IsBallot choice_count l h

  decode_approval-IsBallot :
      (c : Choice N) → IsBallot choice_count (decode_approval N choice_count c)
  unfolding decode_approval
  decode_approval-IsBallot (number n) = tt
  decode_approval-IsBallot (array l) = full_some-IsBallot _ (valid_indices-bound l)
  decode_approval-IsBallot (object l) = tt
  decode_approval-IsBallot other = tt

  weigh_some-IsBallot :
      (o : Option (List Entry))
      → IfSome (All InCount) o
      → IsBallot choice_count (weigh_some o) × IsWhole (weigh_some o)
  unfolding weigh_some
  weigh_some-IsBallot none h = (tt, tt)
  weigh_some-IsBallot (some es) h = weigh-IsBallot choice_count es h

  -- The weights of a decoded choice of the weighted kinds are together exactly one, each option is in
  -- range, and the primary choice is the first of the options with the largest weight.
  pub decode_weighted-IsWhole :
      (c : Choice N)
      → let d = decode_weighted N choice_count c in IsBallot choice_count d × IsWhole d
  unfolding decode_weighted
  decode_weighted-IsWhole (number n) = (tt, tt)
  decode_weighted-IsWhole (array l) = (tt, tt)
  decode_weighted-IsWhole (object l) = weigh_some-IsBallot _ (collect-bound l)
  decode_weighted-IsWhole other = (tt, tt)

  -- Whatever the kind of vote, a choice that decodes has only options in range, at least one of them;
  -- the primary choice is the first, and no option weighs more than it.
  pub decode_vote_choice-IsBallot :
      (kind : Option String) (c : Choice N)
      → IsBallot choice_count (decode_vote_choice N choice_count kind c)
  unfolding decode_vote_choice
  decode_vote_choice-IsBallot none c = tt
  decode_vote_choice-IsBallot (some t) c =
      elim (Bool-cases (is_one_of ("single-choice" ∷ "basic" ∷ []) t)) [
        | inl a ↦ rw (a, decode_vote_choice) (decode_single-IsBallot c)
        | inr a ↦ elim (Bool-cases (is_one_of ("approval" ∷ "ranked-choice" ∷ "copeland" ∷ []) t)) [
          | inl b ↦ rw (a, b, decode_vote_choice) (decode_approval-IsBallot c)
          | inr b ↦ elim (Bool-cases (is_one_of ("weighted" ∷ "quadratic" ∷ []) t)) [
            | inl d ↦ rw (a, b, d, decode_vote_choice) (decode_weighted-IsWhole c).0
            | inr d ↦ rw (a, b, d, decode_vote_choice) tt
          ]
        ]
      ]
