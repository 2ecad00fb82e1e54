-- ===== src/Votes/Effect.antt =====
-- What the projection of a sound vote does to the table.
use kvorum.Base.{
  if◌then◌else◌, Bool-cases, ℕ, String, ◌≡◌, refl, ap, ◌∙◌, inl, inr, true, Option, some,
}
use kvorum.Votes.{is_newer_vote, build_vote_rows, CurrentVoteRow}
use kvorum.Votes.Applier.{
  incoming_of, is_current, insert_batch, project, supersede, apply, apply_fetch, VoteCast, Fetch,
  Ledger, found,
}
use kvorum.Votes.Positions.{Position}
use kvorum.Votes.Table.{Table}

module _ (table : Table) (threshold : ℕ) (to_lower_case : String → String)
    (dao proposal voter : String) (position : String → Position) where
  open table use {State, find_current_vote}

  -- A fetched vote of this voter on this proposal, at its position, for which the services answer.
  pub record Sound (f : Fetch) : Type 0 where
    pub text : String
    pub at : ℕ
    pub event : VoteCast
    pub payload_is : f.payload ≡ some text
    pub cast_at_is : f.cast_at ≡ some at
    pub parsed : f.services.parse text ≡ some event
    pub dao_is : f.services.find_dao_id_for_source f.row.dao_source_id ≡ found dao
    pub proposal_is :
        f.services.find_by_source dao f.row.source_type event.proposal_id ≡ found proposal
    pub voter_is : to_lower_case event.voter ≡ voter
    pub reads : f.services.read_ok ≡ true
    pub inserts : f.services.insert_ok ≡ true
    pub marks : f.services.mark_ok ≡ true
    pub position_is :
        position f.row.id
        ≡ record { cast_at = at; block_number = f.row.block_number; log_index = f.row.log_index }

  -- The table after a vote, by what was current.
  unfoldable pub advance : Fetch → ℕ → VoteCast → Option CurrentVoteRow → State → State
  advance f at event current t =
      if is_current f.row current
      then t
      else insert_batch table
          (build_vote_rows f.row dao proposal voter at (incoming_of event) current
            (is_newer_vote at f.row.block_number f.row.log_index current))
          t

  apply-supersede :
      (f : Fetch) (h : Sound f) (w : Ledger State)
      → apply table threshold to_lower_case f.row h.text h.at f.services w
        ≡ supersede table threshold to_lower_case f.row h.at f.services h.event dao proposal w
  unfolding apply
  apply-supersede f h w = rw (h.parsed, h.dao_is, h.proposal_is, apply) refl

  supersede-advance :
      (f : Fetch) (h : Sound f) (w : Ledger State)
      → (supersede table threshold to_lower_case f.row h.at f.services h.event dao proposal
          w).projection
        ≡ advance f h.at h.event (find_current_vote dao proposal voter w.projection) w.projection
  unfolding supersede project advance
  supersede-advance f h w =
      elim (Bool-cases (is_current f.row (find_current_vote dao proposal voter w.projection))) [
        | inl c ↦ rw (h.voter_is, h.reads, h.marks, c, advance) refl
        | inr c ↦ rw (h.voter_is, h.reads, h.inserts, h.marks, c, advance) refl
      ]

  apply_fetch-apply :
      (f : Fetch) (h : Sound f) (w : Ledger State)
      → apply_fetch table threshold to_lower_case f w
        ≡ apply table threshold to_lower_case f.row h.text h.at f.services w
  unfolding apply_fetch
  apply_fetch-apply f h w = rw (h.payload_is, h.cast_at_is, apply_fetch) refl

  pub apply_fetch-advance :
      (f : Fetch) (h : Sound f) (w : Ledger State)
      → (apply_fetch table threshold to_lower_case f w).projection
        ≡ advance f h.at h.event (find_current_vote dao proposal voter w.projection) w.projection
  apply_fetch-advance f h w =
      ap (λ (x : Ledger State). x.projection) (apply_fetch-apply f h w ∙ apply-supersede f h w)
      ∙ supersede-advance f h w
