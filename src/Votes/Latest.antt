-- ===== src/Votes/Latest.antt =====
-- The current vote of a voter after any sequence of projected votes.
use kvorum.Base.{
  Option-cases, is_some, clash, All, ℕ, String, ◌≡◌, refl, sym, ap, ◌∙◌, subst, inl, inr, Option,
  none, some, List, [], ◌∷◌,
}
use kvorum.Votes.{CurrentVoteRow, VoteRow}
use kvorum.Votes.Applier.{apply_fetch, apply_all, Fetch, Ledger}
use kvorum.Votes.Effect.{advance, apply_fetch-advance, Sound}
use kvorum.Votes.Current.{first-IsLatest, next-IsLatest, IsLatest}
use kvorum.Votes.Failures.{ids_onto}
use kvorum.Votes.Positions.{Position}
use kvorum.Votes.Rows.{AllSuperseded}
use kvorum.Votes.Table.{Table}

module _ (table : Table) (threshold : ℕ) (to_lower_case : String → String)
    (dao proposal voter : String) (position : String → Position) where
  open table use {State, find_current_vote, row_of, empty}

  abbrev Good : Fetch → Type 0
  Good f = Sound table threshold to_lower_case dao proposal voter position f

  abbrev Latest : List String → State → CurrentVoteRow → Type 0
  Latest done t c = IsLatest table threshold to_lower_case dao proposal voter position done t c

  abbrev after_all : List Fetch → Ledger State → State
  after_all fs w = (apply_all table threshold to_lower_case fs w).projection

  -- The votes done stay done, whatever follows.
  rest_is_Latest :
      (fs : List Fetch) (w : Ledger State) (done : List String) (c : CurrentVoteRow)
      → All Good fs
      → Latest done w.projection c
      → (d : CurrentVoteRow) × Latest (ids_onto fs done) (after_all fs w) d
  rest_is_Latest [] w done c good latest = (c, latest)
  rest_is_Latest (f ∷ fs) w done c good latest =
      let w' = apply_fetch table threshold to_lower_case f w in
      let (d, next) =
        next-IsLatest table threshold to_lower_case dao proposal voter position f good.0 done
          w.projection c latest in
      let moved =
        apply_fetch-advance table threshold to_lower_case dao proposal voter position f good.0 w in
      rest_is_Latest fs w' (f.row.id ∷ done) d good.1 (
        subst (λ (s : State). Latest (f.row.id ∷ done) s d)
          (sym (
            moved
            ∙ ap
                (λ (o : Option CurrentVoteRow).
                  advance table threshold to_lower_case dao proposal voter position f good.0.at
                    good.0.event o w.projection)
                latest.found_current))
          next)

  no_row_in_empty :
      {A : Type 0} (id : String) (r : VoteRow) → row_of dao proposal voter empty id ≡ some r → A
  no_row_in_empty id r e =
      clash refl (ap is_some (sym e ∙ table.row_of-empty dao proposal voter id))

  empty_AllSuperseded : AllSuperseded (row_of dao proposal voter empty)
  empty_AllSuperseded id r e = no_row_in_empty id r e

  empty_has_no_current : find_current_vote dao proposal voter empty ≡ none
  empty_has_no_current = elim (Option-cases (find_current_vote dao proposal voter empty)) [
    | inl e ↦ e
    | inr (c, e) ↦
        let (r, at, _, _) = table.current_found dao proposal voter empty c e in
        no_row_in_empty c.vote_id r at
  ]

  -- Start from an empty projection table and project any non-empty sequence of votes of one voter on
  -- one proposal, in any order and with repetitions, where the vote with an id always has the same
  -- position and every service answers. Then `findCurrentVote` gives a vote, it is one of the
  -- projected ones, `isNewerVote` holds for no projected vote against it, and its row is the only
  -- one of the voter that is not superseded.
  pub projected_votes_current :
      (f : Fetch) (fs : List Fetch) (w : Ledger State)
      → w.projection ≡ empty
      → All Good (f ∷ fs)
      → (c : CurrentVoteRow) × Latest (ids_onto (f ∷ fs) []) (after_all (f ∷ fs) w) c
  projected_votes_current f fs w start good =
      let (c, first) =
        first-IsLatest table threshold to_lower_case dao proposal voter position f good.0 empty
          empty_has_no_current empty_AllSuperseded in
      let moved =
        apply_fetch-advance table threshold to_lower_case dao proposal voter position f good.0 w
        ∙ ap
            (λ (s : State).
              advance table threshold to_lower_case dao proposal voter position f good.0.at
                good.0.event (find_current_vote dao proposal voter s) s)
            start
        ∙ ap
            (λ (o : Option CurrentVoteRow).
              advance table threshold to_lower_case dao proposal voter position f good.0.at
                good.0.event o empty)
            empty_has_no_current in
      rest_is_Latest fs (apply_fetch table threshold to_lower_case f w) (f.row.id ∷ []) c good.1
        (subst (λ (s : State). Latest (f.row.id ∷ []) s c) (sym moved) first)
