-- ===== src/Sources/Backfill/Resume.antt =====
-- Where a backfill that stopped is resumed.
use kvorum.Base.{
  Bool-cases, Option-cases, get_or_default, is_some, clash, Option-clash, ℕ, ◌≡◌, refl, sym, ap,
  ◌∙◌, subst, ◌≢◌, inl, inr, true, not, ◌&&◌, Option, none, some,
}
use kvorum.Chain.RangeFetcher.{run, FetcherResult, completed, cancelled, thrown, no_fuel}
use kvorum.Chain.RangeFetcher.Hooks.{Reports, run_keeps, Keeps}
use kvorum.Sources.Backfill.{
  status_completed, status_cancelled, status_error, returned, rejected, out_of_fuel,
  write_poll_cursor, capture_backfill_start, update_backfill_head, clear_backfill_state, after_head,
  set_row, at_start, outcome_of, on_chunk_complete, fetcher_options, fetch_range, fresh_from,
  run_fresh, resume_from, run_resume, run_mode, run_backfill, BackfillMode, BackfillRunInput,
  DriverResult, World, Backend, fresh, resume, catch_up,
}
use kvorum.Sources.Backfill.Cursor.{outcome_of_world}

-- `outcome.resumeFromBlock`, of a run that was cancelled or failed.
abbrev pub resume_from_block : DriverResult → Option ℕ
resume_from_block (returned (status_completed start to)) = none
resume_from_block (returned (status_cancelled n)) = some n
resume_from_block (returned (status_error e n)) = some n
resume_from_block (rejected e) = none
resume_from_block out_of_fuel = none

-- The writes of the checkpoints succeed.
pub record Writes {V Log Event : Type 0} (b : Backend V Log Event) : Type 0 where
  pub heads : (n : ℕ) → b.head_write_ok n ≡ true
  pub cursors : (n : ℕ) → b.cursor_write_ok n ≡ true

module _ {V Log Event : Type 0} (b : Backend V Log Event) (input : BackfillRunInput) where
  -- The row's resume point is the one of the run, and the row says that a backfill has started.
  abbrev Point : ℕ → Option ℕ → World V → Type 0
  Point start last w =
      (w.last_checkpointed_block ≡ last)
      × (after_head w.row.backfill_head_block input.from_block ≡ after_head last start)
      × (is_some w.row.backfill_started_at_block ≡ true)

  on_chunk_complete-Writes :
      (writes : Writes b) (end : ℕ) (w : World V) → (on_chunk_complete b end w).1 ≡ true
  unfolding on_chunk_complete
  on_chunk_complete-Writes writes end w =
      rw (writes.heads end, writes.cursors end, on_chunk_complete) refl

  on_chunk_complete-Point :
      (writes : Writes b) (end start : ℕ) (w : World V)
      → is_some w.row.backfill_started_at_block ≡ true
      → Point start (some end) (on_chunk_complete b end w).0
  unfolding on_chunk_complete update_backfill_head write_poll_cursor
  on_chunk_complete-Point writes end start w h =
      rw (writes.heads end, writes.cursors end, on_chunk_complete) (refl, refl, h)

  hooks-Point :
      (writes : Writes b) (start to : ℕ) → Keeps (fetcher_options b input start to) (Point start)
  hooks-Point writes start to = record {
    listens = λ last es w h. h;
    checkpoints = λ last end w h e. on_chunk_complete-Point writes end start w h.2;
    fails = λ last end w h e. clash (on_chunk_complete-Writes writes end w) e;
  }

  outcome_of-Point :
      (start to : ℕ) (w : World V) (r : FetcherResult) (last : Option ℕ) (n : ℕ)
      → w.last_checkpointed_block ≡ last
      → Reports (fetcher_options b input start to) (Point start) r last
      → resume_from_block (outcome_of start to (w, r)).1 ≡ some n
      → after_head last start ≡ n
  unfolding outcome_of
  outcome_of-Point start to w completed last n l h e = Option-clash e
  outcome_of-Point start to w (cancelled x) last n l h e =
      ap (λ o. after_head o start) (sym h) ∙ ap (λ o. get_or_default o 0) e
  outcome_of-Point start to w (thrown x) last n l h e =
      ap (λ o. after_head o start) (sym l) ∙ ap (λ o. get_or_default o 0) e
  outcome_of-Point start to w no_fuel last n l h e = Option-clash e

  -- The row of a world resumes at a block.
  abbrev ResumePoint : ℕ → World V → Type 0
  ResumePoint n w =
      (after_head w.row.backfill_head_block input.from_block ≡ n)
      × (is_some w.row.backfill_started_at_block ≡ true)

  fetch_range-Point :
      (writes : Writes b) (start to : ℕ) (w : World V) (n : ℕ)
      → Point start none (at_start w)
      → resume_from_block (fetch_range b input start to w).1 ≡ some n
      → ResumePoint n (fetch_range b input start to w).0
  unfolding fetch_range
  fetch_range-Point writes start to w n h e =
      let o = fetcher_options b input start to in
      let q = run o (at_start w) in
      let (last, (cp, at, started), says) =
        run_keeps o (Point start) (hooks-Point writes start to) (at_start w) h in
      subst (ResumePoint n) (sym (outcome_of_world b input start to q))
        (at ∙ outcome_of-Point start to q.0 q.1 last n cp says e, started)

  fresh_from_point :
      (writes : Writes b) (head : Option ℕ) (w : World V) (n : ℕ)
      → w.row.backfill_head_block ≡ none
      → resume_from_block (fresh_from b input head w).1 ≡ some n
      → ResumePoint n (fresh_from b input head w).0
  unfolding fresh_from capture_backfill_start
  fresh_from_point writes none w n h e = Option-clash e
  fresh_from_point writes (some head) w n h e =
      fetch_range-Point writes input.from_block (get_or_default input.to_block head)
        (set_row (capture_backfill_start head w.row) w) n
        (refl, ap (λ o. after_head o input.from_block) h, refl) e

  run_fresh_point :
      (writes : Writes b) (w : World V) (n : ℕ)
      → resume_from_block (run_fresh b input w).1 ≡ some n
      → ResumePoint n (run_fresh b input w).0
  unfolding run_fresh clear_backfill_state
  run_fresh_point writes w n =
      elim (Bool-cases (is_some w.row.backfill_started_at_block && not input.force)) [
        | inl c ↦ rw (c, run_fresh) (λ e. Option-clash e)
        | inr c ↦
            rw (c, run_fresh)
              (λ e.
                fresh_from_point writes b.block_number (set_row (clear_backfill_state w.row) w) n
                  refl e)
      ]

  resume_from_point :
      (writes : Writes b) (head : Option ℕ) (w : World V) (n : ℕ)
      → w.row.backfill_started_at_block ≡ head
      → resume_from_block (resume_from b input head w).1 ≡ some n
      → ResumePoint n (resume_from b input head w).0
  unfolding resume_from
  resume_from_point writes none w n h e = Option-clash e
  resume_from_point writes (some head) w n h e =
      fetch_range-Point writes (after_head w.row.backfill_head_block input.from_block) _ w n
        (refl, refl, ap is_some h) e

  run_mode_point :
      (writes : Writes b) (mode : BackfillMode) (w : World V) (n : ℕ)
      → mode ≢ catch_up
      → resume_from_block (run_mode b input mode w).1 ≡ some n
      → ResumePoint n (run_mode b input mode w).0
  unfolding run_mode run_resume
  run_mode_point writes fresh w n m e = run_fresh_point writes w n e
  run_mode_point writes resume w n m e =
      resume_from_point writes w.row.backfill_started_at_block w n refl e
  run_mode_point writes catch_up w n m e = elim (m refl) [ ]

module _ {V Log Event : Type 0} where
  resume_starts_at :
      (c : Backend V Log Event) (input : BackfillRunInput) (w : World V) (n : ℕ)
      → after_head w.row.backfill_head_block input.from_block ≡ n
      → is_some w.row.backfill_started_at_block ≡ true
      → (head : ℕ) × (w.row.backfill_started_at_block ≡ some head)
        × (run_resume c input w ≡ fetch_range c input n (get_or_default input.to_block head) w)
  unfolding run_resume resume_from
  resume_starts_at c input w n at started = elim (Option-cases w.row.backfill_started_at_block) [
    | inl e ↦ clash started (ap is_some e)
    | inr (head, e) ↦ (
      head,
      e,
      ap (λ (o : Option ℕ). resume_from c input o w) e
          ∙ ap (λ x. fetch_range c input x (get_or_default input.to_block head) w) at,
    )
  ]

  -- If the writes of the checkpoints succeed and a fresh or a resuming backfill is cancelled or
  -- fails, the block that it reports as `resumeFromBlock` is the one at which a later resume of the
  -- source starts to fetch, whatever the provider and the listener do then, if its input has the
  -- same `fromBlock`; and the resume goes to its `toBlock`, or to the head that the row has kept.
  pub resume_from_block-resumes :
      (b c : Backend V Log Event) (input again : BackfillRunInput) (w : World V) (n : ℕ)
      → Writes b
      → input.mode ≢ catch_up
      → again.from_block ≡ input.from_block
      → resume_from_block (run_backfill b input true w).1 ≡ some n
      → (head : ℕ) × ((run_backfill b input true w).0.row.backfill_started_at_block ≡ some head)
        × (run_resume c again (run_backfill b input true w).0
            ≡ fetch_range c again n
                (get_or_default again.to_block head)
                (run_backfill b input true w).0)
  unfolding run_backfill
  resume_from_block-resumes b c input again w n writes m same e =
      let w' = (run_mode b input input.mode w).0 in
      let (at, started) = run_mode_point b input writes input.mode w n m e in
      resume_starts_at c again w' n (ap (after_head w'.row.backfill_head_block) same ∙ at) started
