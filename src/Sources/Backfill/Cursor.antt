-- ===== src/Sources/Backfill/Cursor.antt =====
-- The poll cursor of a source under a backfill.
use kvorum.Base.{
  ltb, Bool-cases, get_or_default, is_some, ℕ, ◌≤◌, ◌≡◌, refl, sym, subst, inl, inr, Bool, true,
  false, not, ◌&&◌, Option, none, some, arith,
}
use kvorum.Chain.RangeFetcher.Hooks.{run_keeps, Keeps}
use kvorum.Chain.RangeFetcher.{run, FetcherResult, completed, cancelled, thrown, no_fuel}
use kvorum.Sources.Backfill.{
  write_poll_cursor, capture_backfill_start, update_backfill_head, clear_backfill_state, set_row,
  at_start, outcome_of, on_chunk_complete, fetcher_options, fetch_range, fresh_from, run_fresh,
  resume_from, run_resume, catch_up_end, catch_up_to, catch_up_from, run_catch_up, run_mode,
  run_backfill, BackfillMode, BackfillRunInput, World, Backend, fresh, resume, catch_up,
}

module _ {V Log Event : Type 0} (b : Backend V Log Event) (input : BackfillRunInput) where
  -- The cursor is the first one's, or past it.
  abbrev pub NotBack : Option ℕ → Option ℕ → Type 0
  NotBack c c' = get_or_default c 0 ≤ get_or_default c' 0

  on_chunk_complete_cursor :
      (end : ℕ) (w : World V)
      → NotBack w.row.poll_cursor_block (on_chunk_complete b end w).0.row.poll_cursor_block
  unfolding on_chunk_complete update_backfill_head write_poll_cursor
  on_chunk_complete_cursor end w = ground arith

  pub outcome_of_world :
      (start to : ℕ) (q : World V × FetcherResult) → (outcome_of start to q).0 ≡ q.0
  unfolding outcome_of
  outcome_of_world start to (w, completed) = refl
  outcome_of_world start to (w, cancelled last) = refl
  outcome_of_world start to (w, thrown e) = refl
  outcome_of_world start to (w, no_fuel) = refl

  abbrev Past : Option ℕ → Option ℕ → World V → Type 0
  Past c last w = NotBack c w.row.poll_cursor_block

  hooks_cursor : (start to : ℕ) (c : Option ℕ) → Keeps (fetcher_options b input start to) (Past c)
  hooks_cursor start to c = record {
    listens = λ last es w h. h;
    checkpoints = λ last end w h e. omega (arith, h, on_chunk_complete_cursor end w);
    fails = λ last end w h e. omega (arith, h, on_chunk_complete_cursor end w);
  }

  fetch_range_cursor :
      (start to : ℕ) (w : World V)
      → NotBack w.row.poll_cursor_block (fetch_range b input start to w).0.row.poll_cursor_block
  unfolding fetch_range
  fetch_range_cursor start to w =
      let o = fetcher_options b input start to in
      let c = w.row.poll_cursor_block in
      let (_, past, _) =
        run_keeps o (Past c) (hooks_cursor start to c) (at_start w) (omega arith) in
      subst (λ (x : World V). NotBack c x.row.poll_cursor_block)
        (sym (outcome_of_world start to (run o (at_start w)))) past

  fresh_from_cursor :
      (head : Option ℕ) (w : World V)
      → NotBack w.row.poll_cursor_block (fresh_from b input head w).0.row.poll_cursor_block
  unfolding fresh_from capture_backfill_start
  fresh_from_cursor none w = omega arith
  fresh_from_cursor (some head) w =
      fetch_range_cursor input.from_block (get_or_default input.to_block head)
        (set_row (capture_backfill_start head w.row) w)

  run_fresh_cursor :
      (w : World V) → NotBack w.row.poll_cursor_block (run_fresh b input w).0.row.poll_cursor_block
  unfolding run_fresh clear_backfill_state
  run_fresh_cursor w =
      elim (Bool-cases (is_some w.row.backfill_started_at_block && not input.force)) [
        | inl e ↦ rw (e, run_fresh) (omega arith)
        | inr e ↦
            rw (e, run_fresh)
              (fresh_from_cursor b.block_number (set_row (clear_backfill_state w.row) w))
      ]

  resume_from_cursor :
      (head : Option ℕ) (w : World V)
      → NotBack w.row.poll_cursor_block (resume_from b input head w).0.row.poll_cursor_block
  unfolding resume_from
  resume_from_cursor none w = omega arith
  resume_from_cursor (some head) w = fetch_range_cursor _ _ w

  catch_up_to_cursor :
      (start : ℕ) (to : Option ℕ) (w : World V)
      → NotBack w.row.poll_cursor_block (catch_up_to b input start to w).0.row.poll_cursor_block
  unfolding catch_up_to capture_backfill_start
  catch_up_to_cursor start none w = omega arith
  catch_up_to_cursor start (some to) w = elim (Bool-cases (ltb to start)) [
    | inl e ↦ rw (e, catch_up_to) (omega arith)
    | inr e ↦
        rw (e, catch_up_to)
          (fetch_range_cursor start to (set_row (capture_backfill_start start w.row) w))
  ]

  catch_up_from_cursor :
      (start : Option ℕ) (w : World V)
      → NotBack w.row.poll_cursor_block (catch_up_from b input start w).0.row.poll_cursor_block
  unfolding catch_up_from
  catch_up_from_cursor none w = omega arith
  catch_up_from_cursor (some start) w = catch_up_to_cursor start (catch_up_end b input.to_block) w

  run_mode_cursor :
      (mode : BackfillMode) (w : World V)
      → NotBack w.row.poll_cursor_block (run_mode b input mode w).0.row.poll_cursor_block
  unfolding run_mode run_resume run_catch_up
  run_mode_cursor fresh w = run_fresh_cursor w
  run_mode_cursor resume w = resume_from_cursor w.row.backfill_started_at_block w
  run_mode_cursor catch_up w = catch_up_from_cursor _ w

  -- Whatever the mode, the provider, the listener and the writes of the checkpoints do, a backfill
  -- does not move the poll cursor of its source back, also when it throws, is refused or cancelled.
  pub run_backfill-NotBack :
      (exists : Bool) (w : World V)
      → NotBack w.row.poll_cursor_block (run_backfill b input exists w).0.row.poll_cursor_block
  unfolding run_backfill
  run_backfill-NotBack false w = omega arith
  run_backfill-NotBack true w = run_mode_cursor input.mode w
