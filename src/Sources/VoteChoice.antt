-- ===== src/Sources/VoteChoice.antt =====
-- decodeVoteChoice, of libs/sources/snapshot/src/domain/vote-choice-decoder.ts. JavaScript's numbers
-- and their arithmetic are a parameter. The text of a weight is kept as a number and a list of digits.
pub mod Decimal
pub mod Shares
pub mod Weighed
pub mod Decoded
use kvorum.Base.{
  ltb, leb, ◌==◌, if◌then◌else◌, any, ℕ, zero, suc, ◌+◌, ◌-◌, ◌*◌, ◌/◌, ◌%◌, String, Bool, true,
  false, not, ◌||◌, Option, none, some, List, [], ◌∷◌, ◌++◌, map, str_eq,
}

pub record Numbers : Type 1 where
  pub Num : Type 0
  pub to_natural : Num → Option ℕ  -- an integer that is not negative
  pub is_finite : Num → Bool
  pub is_negative : Num → Bool
  pub is_zero : Num → Bool
  pub round : Num → ℕ  -- `Math.round`, of a finite number that is not negative

-- `choice: unknown`. An item or a value that is no number is `none`; an entry has `Number(key)`.
pub data Choice (N : Numbers) : Type 0 where
  number : N.Num → Choice N
  array : List (Option N.Num) → Choice N
  object : List (N.Num × Option N.Num) → Choice N
  other : Choice N

-- The text of a weight, `${whole}.${fraction}`.
pub record Weight : Type 0 where
  pub whole : ℕ
  pub fraction : List ℕ

pub record DecodedChoice : Type 0 where
  pub choice_index : ℕ
  pub weight : Weight

pub data VoteChoiceDecode : Type 0 where
  decoded : ℕ → List DecodedChoice → VoteChoiceDecode
  undecodable : VoteChoiceDecode

pub record Entry : Type 0 where
  pub index : ℕ
  pub raw : ℕ

abbrev pub weight_one : Weight
weight_one = record { whole = 1; fraction = 0 ∷ [] }

abbrev pub scale : ℕ
scale = 1000000000000000000

-- The decimal digits of a number at some places, `toString` with `padStart`.
unfoldable pub padded_digits : ℕ → ℕ → List ℕ
padded_digits zero n = []
padded_digits (suc places) n = padded_digits places (n / 10) ++ (n % 10 ∷ [])

-- `replace(/0+$/, '')`.
unfoldable pub strip_digit : ℕ → List ℕ → List ℕ
strip_digit d [] = if d == 0 then [] else d ∷ []
strip_digit d (x ∷ xs) = d ∷ x ∷ xs

unfoldable pub strip_zeros : List ℕ → List ℕ
strip_zeros [] = []
strip_zeros (d ∷ ds) = strip_digit d (strip_zeros ds)

unfoldable pub format_scaled : ℕ → Weight
format_scaled scaled =
    if scaled % scale == 0 then record { whole = scaled / scale; fraction = 0 ∷ [] } else record {
      whole = scaled / scale;
      fraction = strip_zeros (padded_digits 18 (scaled % scale));
    }

-- Whether an entry stands before another, in the order of `entries.sort`.
abbrev pub before : Entry → Entry → Bool
before a b =
    if ltb b.raw a.raw then true else if ltb a.raw b.raw then false else leb a.index b.index

unfoldable pub insert_entry : Entry → List Entry → List Entry
insert_entry e [] = e ∷ []
insert_entry e (x ∷ xs) =
    let rest = insert_entry e xs in if before e x then e ∷ x ∷ xs else x ∷ rest

unfoldable pub sort_entries : List Entry → List Entry
sort_entries [] = []
sort_entries (e ∷ es) = insert_entry e (sort_entries es)

unfoldable pub total_raw : List Entry → ℕ
total_raw [] = 0
total_raw (e ∷ es) = e.raw + total_raw es

unfoldable pub sum : List ℕ → ℕ
sum [] = 0
sum (x ∷ xs) = x + sum xs

-- `scaled[0] = scaled[0]! + residue`.
unfoldable pub add_residue : List ℕ → List ℕ
add_residue [] = []
add_residue (s ∷ ss) = (s + (scale - sum (s ∷ ss))) ∷ ss

unfoldable pub scaled_weights : ℕ → List Entry → List ℕ
scaled_weights total entries = add_residue (map (λ e. e.raw * scale / total) entries)

unfoldable pub zip_choices : List Entry → List ℕ → List DecodedChoice
zip_choices [] ss = []
zip_choices (e ∷ es) [] = []
zip_choices (e ∷ es) (s ∷ ss) =
    record { choice_index = e.index; weight = format_scaled s } ∷ zip_choices es ss

-- `primaryChoice` is the index of the first choice.
unfoldable pub with_primary : List DecodedChoice → VoteChoiceDecode
with_primary [] = undecodable
with_primary (c ∷ cs) = decoded c.choice_index (c ∷ cs)

unfoldable pub weigh : List Entry → VoteChoiceDecode
weigh entries =
    let total = total_raw entries in
    let sorted = sort_entries entries in
    if total == 0
    then undecodable
    else with_primary (zip_choices sorted (scaled_weights total sorted))

abbrev pub full_weight : ℕ → DecodedChoice
full_weight index = record { choice_index = index; weight = weight_one }

-- `push` of an item, if there is one, before the others.
unfoldable pub push_some : {A : Type 0} → Option A → Option (List A) → Option (List A)
push_some none rest = none
push_some (some a) none = none
push_some (some a) (some items) = some (a ∷ items)

unfoldable pub single_choice : Option ℕ → VoteChoiceDecode
single_choice none = undecodable
single_choice (some i) = decoded i (full_weight i ∷ [])

unfoldable pub full_choices : Option (List ℕ) → VoteChoiceDecode
full_choices none = undecodable
full_choices (some is) = with_primary (map full_weight is)

unfoldable pub weigh_some : Option (List Entry) → VoteChoiceDecode
weigh_some none = undecodable
weigh_some (some es) = weigh es

unfoldable pub in_range : ℕ → Option ℕ → Option ℕ
in_range choice_count none = none
in_range choice_count (some n) = if ltb n 1 || ltb choice_count n then none else some (n - 1)

abbrev pub is_one_of : List String → String → Bool
is_one_of names t = any (λ n. str_eq n t) names

module _ (N : Numbers) (choice_count : ℕ) where
  unfoldable pub valid_index : Option N.Num → Option ℕ
  valid_index none = none
  valid_index (some n) = in_range choice_count (N.to_natural n)

  unfoldable pub decode_single : Choice N → VoteChoiceDecode
  decode_single (number n) = single_choice (valid_index (some n))
  decode_single (array l) = undecodable
  decode_single (object l) = undecodable
  decode_single other = undecodable

  unfoldable pub valid_indices : List (Option N.Num) → Option (List ℕ)
  valid_indices [] = some []
  valid_indices (raw ∷ rest) = push_some (valid_index raw) (valid_indices rest)

  unfoldable pub decode_approval : Choice N → VoteChoiceDecode
  decode_approval (number n) = undecodable
  decode_approval (array l) = full_choices (valid_indices l)
  decode_approval (object l) = undecodable
  decode_approval other = undecodable

  -- The entry of an option, with the entries of those behind it; an option without weight has none.
  unfoldable pub add_entry : Option ℕ → Option N.Num → Option (List Entry) → Option (List Entry)
  add_entry none value rest = none
  add_entry (some index) none rest = none
  add_entry (some index) (some v) rest =
      if not (N.is_finite v) || N.is_negative v
      then none
      else if N.is_zero v
      then rest
      else push_some (some (record { index = index; raw = N.round v })) rest

  unfoldable pub collect : List (N.Num × Option N.Num) → Option (List Entry)
  collect [] = some []
  collect ((key, value) ∷ rest) = add_entry (valid_index (some key)) value (collect rest)

  unfoldable pub decode_weighted : Choice N → VoteChoiceDecode
  decode_weighted (number n) = undecodable
  decode_weighted (array l) = undecodable
  decode_weighted (object l) = weigh_some (collect l)
  decode_weighted other = undecodable

  unfoldable pub decode_vote_choice : Option String → Choice N → VoteChoiceDecode
  decode_vote_choice none c = undecodable
  decode_vote_choice (some t) c =
      if is_one_of ("single-choice" ∷ "basic" ∷ []) t
      then decode_single c
      else if is_one_of ("approval" ∷ "ranked-choice" ∷ "copeland" ∷ []) t
      then decode_approval c
      else if is_one_of ("weighted" ∷ "quadratic" ∷ []) t
      then decode_weighted c
      else undecodable
