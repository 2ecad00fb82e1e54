-- ===== src/Sources/Backfill.antt =====
-- BackfillDriver, of libs/sources/core/src/backfill/backfill-driver.ts, and the columns of
-- `dao_source` that it writes, of libs/db/src/dao-source-repository.ts. The provider's answers, the
-- listener, the decoder, the signal and whether the two writes of a checkpoint succeed are
-- parameters (Backend); the writes before the range is fetched are taken to succeed. The world V
-- stands for what the listener writes. Log lines and metrics are left out.
pub mod Cursor
pub mod Resume
use kvorum.Base.{
  ltb, if◌then◌else◌, get_or_default, is_some, ℕ, ◌+◌, max, Bool, true, false, not, ◌&&◌, Option,
  none, some, List,
}
use kvorum.Chain.Logs.{Fetched}
use kvorum.Chain.Poller.{confirmed_head}
use kvorum.Chain.RangeFetcher.{
  run, Options, RunError, FetcherResult, completed, cancelled, thrown, no_fuel,
}

pub data BackfillMode : Type 0 where
  fresh resume catch_up : BackfillMode

pub record BackfillRunInput : Type 0 where
  pub from_block : ℕ
  pub to_block : Option ℕ
  pub mode : BackfillMode
  pub force : Bool
  pub chunk_size : Option ℕ

pub data BackfillOutcome : Type 0 where
  status_completed : ℕ → ℕ → BackfillOutcome
  status_cancelled : ℕ → BackfillOutcome
  status_error : RunError → ℕ → BackfillOutcome

pub data DriverError : Type 0 where
  source_not_found backfill_already_started backfill_not_resumable no_floor rpc_error : DriverError

-- `out_of_fuel` stands for a range fetcher that does not end.
pub data DriverResult : Type 0 where
  returned : BackfillOutcome → DriverResult
  rejected : DriverError → DriverResult
  out_of_fuel : DriverResult

-- The row of `dao_source`.
pub record SourceRow : Type 0 where
  pub backfill_started_at_block : Option ℕ
  pub backfill_head_block : Option ℕ
  pub poll_cursor_block : Option ℕ
  pub active_from_block : Option ℕ

unfoldable pub write_poll_cursor : ℕ → SourceRow → SourceRow
write_poll_cursor block r = record {
  backfill_started_at_block = r.backfill_started_at_block;
  backfill_head_block = r.backfill_head_block;
  poll_cursor_block = some (max (get_or_default r.poll_cursor_block 0) block);
  active_from_block = r.active_from_block;
}

unfoldable pub capture_backfill_start : ℕ → SourceRow → SourceRow
capture_backfill_start head r = record {
  backfill_started_at_block = some (get_or_default r.backfill_started_at_block head);
  backfill_head_block = r.backfill_head_block;
  poll_cursor_block = r.poll_cursor_block;
  active_from_block = r.active_from_block;
}

unfoldable pub update_backfill_head : ℕ → SourceRow → SourceRow
update_backfill_head block r = record {
  backfill_started_at_block = r.backfill_started_at_block;
  backfill_head_block = some block;
  poll_cursor_block = r.poll_cursor_block;
  active_from_block = r.active_from_block;
}

unfoldable pub clear_backfill_state : SourceRow → SourceRow
clear_backfill_state r = record {
  backfill_started_at_block = none;
  backfill_head_block = none;
  poll_cursor_block = r.poll_cursor_block;
  active_from_block = r.active_from_block;
}

-- The row, the listener's world and the driver's `lastCheckpointedBlock`.
pub record World (V : Type 0) : Type 0 where
  pub row : SourceRow
  pub seen : V
  pub last_checkpointed_block : Option ℕ

pub record Backend (V Log Event : Type 0) : Type 0 where
  pub block_number : Option ℕ  -- `eth_blockNumber`, none where it throws
  pub confirmed_block_number : Option ℕ  -- the call of `readConfirmedHead`
  pub head_lag : ℕ
  pub fetch : ℕ → ℕ → ℕ → Fetched Log
  pub aborted : ℕ → Bool
  pub decode : Log → Option Event
  pub listener : List Event → V → V × Bool
  pub head_write_ok : ℕ → Bool
  pub cursor_write_ok : ℕ → Bool

-- `row.backfill_head_block !== null ? … + 1n : fallback`
abbrev pub after_head : Option ℕ → ℕ → ℕ
after_head none fallback = fallback
after_head (some b) fallback = b + 1

-- `floor + 1n` of a catch-up, where `active_from_block - 1n` is the second floor.
abbrev pub catch_up_start : Option ℕ → Option ℕ → Option ℕ
catch_up_start (some b) active = some (b + 1)
catch_up_start none active = active

module _ {V : Type 0} where
  abbrev pub set_row : SourceRow → World V → World V
  set_row r w = record {
    row = r;
    seen = w.seen;
    last_checkpointed_block = w.last_checkpointed_block;
  }

  abbrev pub heard : V × Bool → World V → World V × Bool
  heard (v, ok) w =
      (record { row = w.row; seen = v; last_checkpointed_block = w.last_checkpointed_block }, ok)

  abbrev pub at_start : World V → World V
  at_start w = record { row = w.row; seen = w.seen; last_checkpointed_block = none }

  unfoldable pub outcome_of : ℕ → ℕ → World V × FetcherResult → World V × DriverResult
  outcome_of start to (w, completed) = (w, returned (status_completed start to))
  outcome_of start to (w, cancelled last) = (w, returned (status_cancelled (after_head last start)))
  outcome_of start to (w, thrown e) =
      (w, returned (status_error e (after_head w.last_checkpointed_block start)))
  outcome_of start to (w, no_fuel) = (w, out_of_fuel)

module _ {V Log Event : Type 0} where
  unfoldable pub on_chunk_complete : Backend V Log Event → ℕ → World V → World V × Bool
  on_chunk_complete b end w =
      let headed = update_backfill_head end w.row in
      if not (b.head_write_ok end)
      then (w, false)
      else if not (b.cursor_write_ok end)
      then (set_row headed w, false)
      else (
        record {
          row = write_poll_cursor end headed;
          seen = w.seen;
          last_checkpointed_block = some end;
        },
        true,
      )

  abbrev pub fetcher_options :
      Backend V Log Event → BackfillRunInput → ℕ → ℕ → Options (World V) Log Event
  fetcher_options b input start to = record {
    from_block = start;
    to_block = to;
    chunk_size = input.chunk_size;
    fetch = b.fetch;
    aborted = b.aborted;
    decode = b.decode;
    listener = λ es w. heard (b.listener es w.seen) w;
    on_chunk_complete = on_chunk_complete b;
  }

  -- From step 3 on, with `lastCheckpointedBlock = null`.
  unfoldable pub fetch_range :
      Backend V Log Event → BackfillRunInput → ℕ → ℕ → World V → World V × DriverResult
  unfolding outcome_of
  fetch_range b input start to w =
      outcome_of start to (run (fetcher_options b input start to) (at_start w))

  fresh_from : Backend V Log Event → BackfillRunInput → Option ℕ → World V → World V × DriverResult
  fresh_from b input none w = (w, rejected rpc_error)
  fresh_from b input (some head) w =
      fetch_range b input input.from_block (get_or_default input.to_block head)
        (set_row (capture_backfill_start head w.row) w)

  unfoldable pub run_fresh :
      Backend V Log Event → BackfillRunInput → World V → World V × DriverResult
  unfolding fresh_from
  run_fresh b input w =
      if is_some w.row.backfill_started_at_block && not input.force
      then (w, rejected backfill_already_started)
      else fresh_from b input b.block_number (set_row (clear_backfill_state w.row) w)

  resume_from : Backend V Log Event → BackfillRunInput → Option ℕ → World V → World V × DriverResult
  resume_from b input none w = (w, rejected backfill_not_resumable)
  resume_from b input (some head) w =
      fetch_range b input (after_head w.row.backfill_head_block input.from_block)
        (get_or_default input.to_block head) w

  unfoldable pub run_resume :
      Backend V Log Event → BackfillRunInput → World V → World V × DriverResult
  unfolding resume_from
  run_resume b input w = resume_from b input w.row.backfill_started_at_block w

  -- `toBlock` of a catch-up: two calls of `eth_blockNumber`, unless the input has it.
  abbrev pub catch_up_end : Backend V Log Event → Option ℕ → Option ℕ
  catch_up_end b (some to) = some to
  catch_up_end b none = elim b.block_number [
    | none ↦ none
    | some head ↦ elim b.confirmed_block_number [
      | none ↦ none
      | some tip ↦ some (confirmed_head tip b.head_lag)
    ]
  ]

  catch_up_to :
      Backend V Log Event → BackfillRunInput → ℕ → Option ℕ → World V → World V × DriverResult
  catch_up_to b input start none w = (w, rejected rpc_error)
  catch_up_to b input start (some to) w =
      let captured = set_row (capture_backfill_start start w.row) w in
      if ltb to start
      then (captured, returned (status_completed start to))
      else fetch_range b input start to captured

  catch_up_from :
      Backend V Log Event → BackfillRunInput → Option ℕ → World V → World V × DriverResult
  unfolding catch_up_to
  catch_up_from b input none w = (w, rejected no_floor)
  catch_up_from b input (some start) w = catch_up_to b input start (catch_up_end b input.to_block) w

  unfoldable pub run_catch_up :
      Backend V Log Event → BackfillRunInput → World V → World V × DriverResult
  unfolding catch_up_from
  run_catch_up b input w =
      catch_up_from b input (catch_up_start w.row.backfill_head_block w.row.active_from_block) w

  unfoldable pub run_mode :
      Backend V Log Event → BackfillRunInput → BackfillMode → World V → World V × DriverResult
  run_mode b input fresh w = run_fresh b input w
  run_mode b input resume w = run_resume b input w
  run_mode b input catch_up w = run_catch_up b input w

  -- The Boolean says whether the source's row exists.
  unfoldable pub run_backfill :
      Backend V Log Event → BackfillRunInput → Bool → World V → World V × DriverResult
  run_backfill b input false w = (w, rejected source_not_found)
  run_backfill b input true w = run_mode b input input.mode w
