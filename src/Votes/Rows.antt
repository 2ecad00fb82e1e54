-- ===== src/Votes/Rows.antt =====
-- What inserting rows does to the rows of one voter that are not superseded.
use kvorum.Base.{
  if◌then◌else◌, Bool-cases, get_or_default, clash, String, ◌≡◌, refl, sym, ap, ◌∙◌, subst, ◌⊎◌,
  inl, inr, Bool, true, false, Option, some, str_eq, eq_iff,
}
use kvorum.Votes.{VoteRow}

abbrev pub put : VoteRow → (String → Option VoteRow) → String → Option VoteRow
put r rows id = if str_eq r.vote_id id then some r else rows id

-- A row that is not superseded is the one of this vote.
abbrev pub Unique : (String → Option VoteRow) → String → Type 0
Unique rows v = (id : String) (r : VoteRow) → rows id ≡ some r → r.superseded ≡ false → id ≡ v

abbrev pub AllSuperseded : (String → Option VoteRow) → Type 0
AllSuperseded rows = (id : String) (r : VoteRow) → rows id ≡ some r → r.superseded ≡ true

pub str_eq_refl : (s : String) → str_eq s s ≡ true
str_eq_refl s = (eq_iff s s).1 refl

pub put-same : (r : VoteRow) (rows : String → Option VoteRow) → put r rows r.vote_id ≡ some r
put-same r rows = rw (str_eq_refl r.vote_id) refl

pub put-other :
    (r : VoteRow) (rows : String → Option VoteRow) (id : String)
    → str_eq r.vote_id id ≡ false
    → put r rows id ≡ rows id
put-other r rows id h = rw h refl

pub str_eq-swap_false : (s u : String) → str_eq s u ≡ false → str_eq u s ≡ false
str_eq-swap_false s u h = elim (Bool-cases (str_eq u s)) [
  | inl e ↦ clash ((eq_iff s u).1 (sym ((eq_iff u s).0 e))) h
  | inr e ↦ e
]

pub some_inj : {A : Type 0} {x y : A} → some x ≡ some y → x ≡ y
some_inj {x} h = ap (λ o. get_or_default o x) h

pub put_hit :
    (r : VoteRow) (rows : String → Option VoteRow) (id : String) {x : VoteRow}
    → str_eq r.vote_id id ≡ true
    → put r rows id ≡ some x
    → some r ≡ some x
put_hit r rows id {x} e h = subst (λ (b : Bool). (if b then some r else rows id) ≡ some x) e h

-- A row that a put leaves is the one put, or an earlier one.
pub put-cases :
    (r : VoteRow) (rows : String → Option VoteRow) (id : String) (x : VoteRow)
    → put r rows id ≡ some x
    → ((r.vote_id ≡ id) × (r ≡ x)) ⊎ (rows id ≡ some x)
put-cases r rows id x h = elim (Bool-cases (str_eq r.vote_id id)) [
  | inl e ↦ inl ((eq_iff r.vote_id id).0 e, some_inj (put_hit r rows id e h))
  | inr e ↦ inr (sym (put-other r rows id e) ∙ h)
]

pub Unique-put_first :
    (r : VoteRow) (rows : String → Option VoteRow)
    → AllSuperseded rows
    → Unique (put r rows) r.vote_id
Unique-put_first r rows old id x h live = elim (put-cases r rows id x h) [
  | inl (e, _) ↦ sym e
  | inr e ↦ clash (old id x e) live
]

pub Unique-put_superseded :
    (r : VoteRow) (rows : String → Option VoteRow) (v : String)
    → r.superseded ≡ true
    → Unique rows v
    → Unique (put r rows) v
Unique-put_superseded r rows v dead only id x h live = elim (put-cases r rows id x h) [
  | inl (_, e) ↦ clash (ap (λ (y : VoteRow). y.superseded) (sym e) ∙ dead) live
  | inr e ↦ only id x e live
]

-- The incoming row, and then the row of the vote that it supersedes.
pub Unique-put_both :
    (incoming old : VoteRow) (rows : String → Option VoteRow)
    → old.superseded ≡ true
    → Unique rows old.vote_id
    → Unique (put old (put incoming rows)) incoming.vote_id
Unique-put_both incoming old rows dead only id x h live =
    elim (Bool-cases (str_eq old.vote_id id)) [
      | inl same ↦
          clash
            (ap (λ (y : VoteRow). y.superseded)
                (sym (some_inj (put_hit old (put incoming rows) id same h)))
              ∙ dead)
            live
      | inr other ↦
          elim (put-cases incoming rows id x
            (sym (put-other old (put incoming rows) id other) ∙ h)) [
              | inl (e, _) ↦ sym e
              | inr e ↦ clash ((eq_iff old.vote_id id).1 (sym (only id x e live))) other
            ]
    ]
