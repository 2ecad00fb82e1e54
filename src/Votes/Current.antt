-- ===== src/Votes/Current.antt =====
-- What a vote does to the current vote of its voter: the lemmas behind Latest.
use kvorum.Base.{
  Bool-cases, Option-cases, clash, All, All-map, ℕ, String, ◌≡◌, refl, sym, ap, ◌∙◌, subst, inl,
  inr, Bool, true, false, Option, none, some, List, [], ◌∷◌, Memᴰ, str_eq, eq_iff,
}
use kvorum.Votes.{
  is_newer_vote, incoming_row, superseded_row, build_vote_rows, CurrentVoteRow, VoteRow,
}
use kvorum.Votes.Applier.{incoming_of, insert_batch, Fetch}
use kvorum.Votes.Effect.{advance, Sound}
use kvorum.Votes.Positions.{
  After, NotAfter, position_of, position_of-NotAfter, NotAfter-After, Position,
}
use kvorum.Votes.Rows.{
  put, Unique, AllSuperseded, put-same, put-other, str_eq-swap_false, some_inj, Unique-put_first,
  Unique-put_superseded, Unique-put_both,
}
use kvorum.Votes.Table.{current_of, About, Table}

module _ (table : Table) (threshold : ℕ) (to_lower_case : String → String)
    (dao proposal voter : String) (position : String → Position) where
  open table use {State, row_of, insert_row, find_current_vote, empty}

  abbrev SoundVote : Fetch → Type 0
  SoundVote f = Sound table threshold to_lower_case dao proposal voter position f

  abbrev pub rows_of : State → String → Option VoteRow
  rows_of t = row_of dao proposal voter t

  abbrev pub current_in : State → Option CurrentVoteRow
  current_in t = find_current_vote dao proposal voter t

  -- The current vote is one of those done, none of them is after it, and its row is the only one
  -- that is not superseded.
  pub record IsLatest (done : List String) (t : State) (c : CurrentVoteRow) : Type 0 where
    pub found_current : current_in t ≡ some c
    pub positioned : position_of c ≡ position c.vote_id
    pub is_done : Memᴰ c.vote_id done
    pub newest : All (λ id. NotAfter (position id) c) done
    pub unique : Unique (rows_of t) c.vote_id

  -- A table with one row that is not superseded has it as the current one.
  settles :
      (t : State) (r : VoteRow)
      → rows_of t r.vote_id ≡ some r
      → r.superseded ≡ false
      → Unique (rows_of t) r.vote_id
      → current_in t ≡ some (current_of r)
  settles t r held live only = elim (Option-cases (current_in t)) [
    | inl e ↦ clash (table.current_missing dao proposal voter t r.vote_id r e held) live
    | inr (c, e) ↦
        let (x, at, x_live, is) = table.current_found dao proposal voter t c e in
        let same = only c.vote_id x at x_live in
        let held_x = some_inj (sym at ∙ ap (rows_of t) same ∙ held) in
        e ∙ ap some (is ∙ ap current_of held_x)
  ]

  inserted :
      (r : VoteRow) (t : State)
      → About dao proposal voter r
      → rows_of (insert_row r t) ≡ put r (rows_of t)
  inserted r t about = λ i id. table.row_of-insert_row dao proposal voter r t id about i

  pub first-IsLatest :
      (f : Fetch) (h : SoundVote f) (t : State)
      → current_in t ≡ none
      → AllSuperseded (rows_of t)
      → (c : CurrentVoteRow) × IsLatest
          (f.row.id ∷ [])
          (advance table threshold to_lower_case dao proposal voter position f h.at h.event none t)
          c
  unfolding advance insert_batch build_vote_rows incoming_row is_newer_vote
  first-IsLatest f h t e old =
      let r = incoming_row f.row dao proposal voter h.at (incoming_of h.event) none true in
      let is = inserted r t (refl, refl, refl) in
      let only =
        subst (λ (rows : String → Option VoteRow). Unique rows f.row.id) (sym is)
          (Unique-put_first r (rows_of t) old) in
      let held =
        ap (λ (rows : String → Option VoteRow). rows f.row.id) is ∙ put-same r (rows_of t) in
      (
        current_of r,
        record {
          found_current = settles (insert_row r t) r held refl only;
          positioned = sym h.position_is;
          is_done = Memᴰ.head refl;
          newest = (
            subst (λ p. NotAfter p (current_of r)) (sym h.position_is)
                (position_of-NotAfter (current_of r)),
            tt,
          );
          unique = only;
        },
      )

  module _ (f : Fetch) (h : SoundVote f) (done : List String) (t : State) (c : CurrentVoteRow)
      (latest : IsLatest done t c) where
    again-IsLatest : str_eq c.vote_id f.row.id ≡ true → IsLatest (f.row.id ∷ done) t c
    again-IsLatest same = record {
      found_current = latest.found_current;
      positioned = latest.positioned;
      is_done = Memᴰ.tail latest.is_done;
      newest = (
        subst (λ p. NotAfter p c)
            (latest.positioned ∙ ap position ((eq_iff c.vote_id f.row.id).0 same))
            (position_of-NotAfter c),
        latest.newest,
      );
      unique = latest.unique;
    }

    abbrev incoming : Bool → VoteRow
    incoming newer = incoming_row f.row dao proposal voter h.at (incoming_of h.event) (some c) newer

    abbrev old : VoteRow
    old = superseded_row f.row dao proposal voter h.at c

    older-IsLatest :
        str_eq c.vote_id f.row.id ≡ false
        → NotAfter (position f.row.id) c
        → IsLatest (f.row.id ∷ done) (insert_row (incoming false) t) c
    unfolding incoming_row
    older-IsLatest other not_after =
        let (x, at, live, is) = table.current_found dao proposal voter t c latest.found_current in
        let put_is = inserted (incoming false) t (refl, refl, refl) in
        let rows' = rows_of (insert_row (incoming false) t) in
        let only =
          subst (λ (rows : String → Option VoteRow). Unique rows c.vote_id) (sym put_is)
            (Unique-put_superseded (incoming false) (rows_of t) c.vote_id refl latest.unique) in
        let held =
          ap (λ (rows : String → Option VoteRow). rows c.vote_id) put_is
          ∙ put-other (incoming false) (rows_of t) c.vote_id
              (str_eq-swap_false c.vote_id f.row.id other)
          ∙ at in
        let id = ap (λ (d : CurrentVoteRow). d.vote_id) is in
        record {
          found_current =
              settles (insert_row (incoming false) t) x (ap rows' (sym id) ∙ held) live
                (subst (Unique rows') id only)
              ∙ ap some (sym is);
          positioned = latest.positioned;
          is_done = Memᴰ.tail latest.is_done;
          newest = (not_after, latest.newest);
          unique = only;
        }

    newer-IsLatest :
        str_eq c.vote_id f.row.id ≡ false
        → After (position f.row.id) c
        → IsLatest
            (f.row.id ∷ done)
            (insert_row old (insert_row (incoming true) t))
            (current_of (incoming true))
    unfolding incoming_row superseded_row
    newer-IsLatest other after =
        let t₁ = insert_row (incoming true) t in
        let put_is =
          inserted old t₁ (refl, refl, refl)
          ∙ ap (put old) (inserted (incoming true) t (refl, refl, refl)) in
        let only =
          subst (λ (rows : String → Option VoteRow). Unique rows f.row.id) (sym put_is)
            (Unique-put_both (incoming true) old (rows_of t) refl latest.unique) in
        let held =
          ap (λ (rows : String → Option VoteRow). rows f.row.id) put_is
          ∙ put-other old (put (incoming true) (rows_of t)) f.row.id other
          ∙ put-same (incoming true) (rows_of t) in
        let here = current_of (incoming true) in
        record {
          found_current = settles (insert_row old t₁) (incoming true) held refl only;
          positioned = sym h.position_is;
          is_done = Memᴰ.head refl;
          newest = (
            subst (λ p. NotAfter p here) (sym h.position_is) (position_of-NotAfter here),
            All-map
                (λ id n.
                  NotAfter-After (position id) (position f.row.id) c here n after
                    (sym h.position_is))
                done latest.newest,
          );
          unique = only;
        }

    at_position :
        (b : Bool)
        → is_newer_vote h.at f.row.block_number f.row.log_index (some c) ≡ b
        → is_newer_vote
            (position f.row.id).cast_at
            (position f.row.id).block_number
            (position f.row.id).log_index
            (some c)
          ≡ b
    at_position b e =
        subst (λ (p : Position). is_newer_vote p.cast_at p.block_number p.log_index (some c) ≡ b)
          (sym h.position_is) e

    pub next-IsLatest :
        (d : CurrentVoteRow) × IsLatest
          (f.row.id ∷ done)
          (advance table threshold to_lower_case dao proposal voter position f h.at h.event
            (some c)
            t)
          d
    unfolding advance insert_batch build_vote_rows
    next-IsLatest = elim (Bool-cases (str_eq c.vote_id f.row.id)) [
      | inl same ↦ (c, rw (same, advance) (again-IsLatest same))
      | inr other ↦
          elim (Bool-cases (is_newer_vote h.at f.row.block_number f.row.log_index (some c))) [
            | inl newer ↦ (
              current_of (incoming true),
              rw (other, newer, advance) (newer-IsLatest other (at_position true newer)),
            )
            | inr older ↦
                (c, rw (other, older, advance) (older-IsLatest other (at_position false older)))
          ]
    ]
