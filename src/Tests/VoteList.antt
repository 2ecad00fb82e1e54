-- ===== src/Tests/VoteList.antt =====
-- The projection table as the list of the inserted rows, the last first.
use kvorum.Base.{
  if◌then◌else◌, Bool-cases, Option-cases, Option-clash, and_true, String, ◌≡◌, refl, sym, ap, ◌∙◌,
  subst, inl, inr, Bool, true, false, ◌&&◌, Option, none, some, List, [], ◌∷◌, str_eq, eq_iff,
}
use kvorum.Votes.{CurrentVoteRow, VoteRow}
use kvorum.Votes.Rows.{some_inj}
use kvorum.Votes.Table.{current_of, About, Table}

abbrev pub about : String → String → String → VoteRow → Bool
about d p v r = str_eq r.dao_id d && str_eq r.proposal_id p && str_eq r.voter_address v

pub row_in : String → String → String → List VoteRow → String → Option VoteRow
row_in d p v [] id = none
row_in d p v (r ∷ t) id =
    let rest = row_in d p v t id in if about d p v r && str_eq r.vote_id id then some r else rest

abbrev pub live : Option VoteRow → Option CurrentVoteRow
live none = none
live (some r) = if r.superseded then none else some (current_of r)

abbrev pub or_else : Option CurrentVoteRow → Option CurrentVoteRow → Option CurrentVoteRow
or_else none o = o
or_else (some c) o = some c

-- The first vote of some rows that is current in the table.
pub scan : String → String → String → List VoteRow → List VoteRow → Option CurrentVoteRow
scan d p v t [] = none
scan d p v t (x ∷ xs) = or_else (live (row_in d p v t x.vote_id)) (scan d p v t xs)

row_in-vote_id :
    (d p v : String) (t : List VoteRow) (id : String) (r : VoteRow)
    → row_in d p v t id ≡ some r
    → r.vote_id ≡ id
unfolding row_in
row_in-vote_id d p v [] id r e = Option-clash e
row_in-vote_id d p v (x ∷ t) id r e = elim (Bool-cases (about d p v x && str_eq x.vote_id id)) [
  | inl h ↦
      let same =
        some_inj (subst (λ (b : Bool). (if b then some x else row_in d p v t id) ≡ some r) h e) in
      ap (λ (y : VoteRow). y.vote_id) (sym same)
      ∙ (eq_iff x.vote_id id).0 (and_true (about d p v x) (str_eq x.vote_id id) h).1
  | inr h ↦
      row_in-vote_id d p v t id r
        (subst (λ (b : Bool). (if b then some x else row_in d p v t id) ≡ some r) h e)
]

live_found :
    (o : Option VoteRow) (c : CurrentVoteRow)
    → live o ≡ some c
    → (r : VoteRow) × (o ≡ some r) × (r.superseded ≡ false) × (c ≡ current_of r)
live_found none c e = Option-clash e
live_found (some r) c e = elim (Bool-cases r.superseded) [
  | inl h ↦
      Option-clash (subst (λ (b : Bool). (if b then none else some (current_of r)) ≡ some c) h e)
  | inr h ↦ (
    r,
    refl,
    h,
    sym (some_inj (subst (λ (b : Bool). (if b then none else some (current_of r)) ≡ some c) h e)),
  )
]

scan_found :
    (d p v : String) (t xs : List VoteRow) (c : CurrentVoteRow)
    → scan d p v t xs ≡ some c
    → (id : String) × (live (row_in d p v t id) ≡ some c)
unfolding scan
scan_found d p v t [] c e = Option-clash e
scan_found d p v t (x ∷ xs) c e = elim (Option-cases (live (row_in d p v t x.vote_id))) [
  | inl h ↦ scan_found d p v t xs c (subst (λ o. or_else o (scan d p v t xs) ≡ some c) h e)
  | inr (c', h) ↦ (x.vote_id, h ∙ subst (λ o. or_else o (scan d p v t xs) ≡ some c) h e)
]

pub list_current_found :
    (d p v : String) (t : List VoteRow) (c : CurrentVoteRow)
    → scan d p v t t ≡ some c
    → (r : VoteRow) × (row_in d p v t c.vote_id ≡ some r)
      × (r.superseded ≡ false)
      × (c ≡ current_of r)
list_current_found d p v t c e =
    let (id, l) = scan_found d p v t t c e in
    let (r, at, dead, is) = live_found (row_in d p v t id) c l in
    let same = ap (λ (x : CurrentVoteRow). x.vote_id) is ∙ row_in-vote_id d p v t id r at in
    (r, ap (row_in d p v t) same ∙ at, dead, is)

scan_missing :
    (d p v : String) (t xs : List VoteRow) (id : String) (r : VoteRow)
    → scan d p v t xs ≡ none
    → row_in d p v xs id ≡ some r
    → live (row_in d p v t id) ≡ none
unfolding scan row_in
scan_missing d p v t [] id r e h = Option-clash h
scan_missing d p v t (x ∷ xs) id r e h = elim (Option-cases (live (row_in d p v t x.vote_id))) [
  | inr (c, l) ↦ Option-clash (sym (subst (λ o. or_else o (scan d p v t xs) ≡ none) l e))
  | inl l ↦ elim (Bool-cases (about d p v x && str_eq x.vote_id id)) [
    | inl m ↦
        ap (λ i. live (row_in d p v t i))
          (sym ((eq_iff x.vote_id id).0 (and_true (about d p v x) (str_eq x.vote_id id) m).1))
        ∙ l
    | inr m ↦
        scan_missing d p v t xs id r (subst (λ o. or_else o (scan d p v t xs) ≡ none) l e)
          (subst (λ (b : Bool). (if b then some x else row_in d p v xs id) ≡ some r) m h)
  ]
]

pub list_current_missing :
    (d p v : String) (t : List VoteRow) (id : String) (r : VoteRow)
    → scan d p v t t ≡ none
    → row_in d p v t id ≡ some r
    → r.superseded ≡ true
list_current_missing d p v t id r e h =
    let l = subst (λ o. live o ≡ none) h (scan_missing d p v t t id r e h) in
    elim (Bool-cases r.superseded) [
      | inl s ↦ s
      | inr s ↦
          Option-clash
            (sym (subst (λ (b : Bool). (if b then none else some (current_of r)) ≡ none) s l))
    ]

pub list_insert :
    (d p v : String) (r : VoteRow) (t : List VoteRow) (id : String)
    → About d p v r
    → row_in d p v (r ∷ t) id ≡ (if str_eq r.vote_id id then some r else row_in d p v t id)
unfolding row_in
list_insert d p v r t id (a, b, c) =
    rw ((eq_iff r.dao_id d).1 a, (eq_iff r.proposal_id p).1 b, (eq_iff r.voter_address v).1 c) refl

pub list_empty : (d p v id : String) → row_in d p v [] id ≡ none
unfolding row_in
list_empty d p v id = refl

abbrev pub vote_list : Table
vote_list = record {
  State = List VoteRow;
  row_of = row_in;
  insert_row = λ r t. r ∷ t;
  find_current_vote = λ d p v t. scan d p v t t;
  empty = [];
  row_of-empty = list_empty;
  row_of-insert_row = list_insert;
  current_found = list_current_found;
  current_missing = list_current_missing;
}
