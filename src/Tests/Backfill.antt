-- ===== src/Tests/Backfill.antt =====
-- The backfill driver's theorems on a run that is cancelled behind its first chunk.
use kvorum.Base.{leb, get_or_default, ℕ, ◌≡◌, refl, ◌≢◌, true, false, none, some, List, []}
use kvorum.Sources.Backfill.{
  write_poll_cursor, capture_backfill_start, update_backfill_head, clear_backfill_state, outcome_of,
  on_chunk_complete, fetch_range, run_fresh, run_resume, run_mode, run_backfill, BackfillRunInput,
  World, Backend, fresh, resume, catch_up,
}
use kvorum.Sources.Backfill.Cursor.{NotBack, run_backfill-NotBack}
use kvorum.Sources.Backfill.Resume.{resume_from_block, resume_from_block-resumes, Writes}
use kvorum.Chain.Logs.{decode_all}
use kvorum.Chain.RangeFetcher.{chunk_end, fetch_chunk, dispatch, round, loop, run}
use kvorum.Tests.Ranges.{all_ranges, recording}

abbrev backend : Backend (List ℕ) ℕ ℕ
backend = record {
  block_number = some 9;
  confirmed_block_number = some 9;
  head_lag = 2;
  fetch = all_ranges;
  aborted = λ n. leb 1 n;
  decode = some;
  listener = recording;
  head_write_ok = λ n. true;
  cursor_write_ok = λ n. true;
}

abbrev fresh_input : BackfillRunInput
fresh_input = record {
  from_block = 3;
  to_block = none;
  mode = fresh;
  force = false;
  chunk_size = some 2;
}

abbrev resume_input : BackfillRunInput
resume_input = record {
  from_block = 3;
  to_block = none;
  mode = resume;
  force = false;
  chunk_size = some 4;
}

abbrev untouched : World (List ℕ)
untouched = record {
  row = record {
    backfill_started_at_block = none;
    backfill_head_block = none;
    poll_cursor_block = some 7;
    active_from_block = some 1;
  };
  seen = [];
  last_checkpointed_block = none;
}

backend-Writes : Writes backend
backend-Writes = record { heads = λ n. refl; cursors = λ n. refl }

-- One chunk of two blocks is done.
stopped_at_five : resume_from_block (run_backfill backend fresh_input true untouched).1 ≡ some 5
unfolding run_backfill run_mode run_fresh fetch_range outcome_of run loop round fetch_chunk
    chunk_end dispatch decode_all clear_backfill_state capture_backfill_start on_chunk_complete
    update_backfill_head write_poll_cursor
stopped_at_five = refl

fresh_is_no_catch_up : fresh ≢ catch_up
fresh_is_no_catch_up h = cc

resume_from_block-resumes_example :
    (head : ℕ) × ((run_backfill backend fresh_input true untouched).0.row.backfill_started_at_block
      ≡ some head)
    × (run_resume backend resume_input (run_backfill backend fresh_input true untouched).0
        ≡ fetch_range backend resume_input 5
            (get_or_default resume_input.to_block head)
            (run_backfill backend fresh_input true untouched).0)
resume_from_block-resumes_example =
    resume_from_block-resumes backend backend fresh_input resume_input untouched 5 backend-Writes
      fresh_is_no_catch_up refl stopped_at_five

run_backfill-NotBack_example :
    NotBack backend fresh_input untouched.row.poll_cursor_block
      (run_backfill backend fresh_input true untouched).0.row.poll_cursor_block
run_backfill-NotBack_example = run_backfill-NotBack backend fresh_input true untouched
