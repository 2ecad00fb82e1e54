-- ===== src/Tests/Ranges.antt =====
-- The theorems on the range fetcher and the poller on a chain that logs the number of each block.
use kvorum.Base.{
  ltb, leb, if◌then◌else◌, clash, ℕ, suc, ◌+◌, ◌-◌, ◌*◌, ◌≤◌, ◌≡◌, refl, sym, ap, ◌≢◌, ◌⊎◌, inl,
  inr, Bool, true, false, none, some, List, [], ◌∷◌, ◌++◌, Memᴰ, arith,
}
use kvorum.Chain.Logs.{
  decode_all, logs_from, Mem-append, Mem-left, Mem-right, Fetched, logs, too_many_results,
  send_failed,
}
use kvorum.Chain.RangeFetcher.{
  chunk_end, fetch_chunk, dispatch, round, loop, run, Options, completed, cancelled, no_fuel,
}
use kvorum.Chain.RangeFetcher.Rounds.{run_ends}
use kvorum.Chain.RangeFetcher.Coverage.{Covered, run_covers, Truthful}
use kvorum.Chain.RangeFetcher.Resumed.{resumed, events_in, resumed-run_covers}
use kvorum.Chain.Poller.{max_chunks_per_tick, confirmed_head, run_tick, PollerOptions, polled_to}
use kvorum.Chain.Poller.Polls.{Reliable}
use kvorum.Chain.Poller.Range.{span}
use kvorum.Chain.Poller.Progress.{Reaches, run_tick-Reaches, Undisturbed}
use kvorum.Chain.Poller.Ticks.{Ticked, run_tick-Ticked}

abbrev pub numbered : ℕ → List ℕ
numbered b = b ∷ []

-- A provider that refuses ranges of more than four blocks.
abbrev pub small_ranges : ℕ → ℕ → ℕ → Fetched ℕ
small_ranges k from to =
    if ltb 4 (to + 1 - from)
    then too_many_results
    else logs (logs_from numbered from (to + 1 - from))

abbrev pub all_ranges : ℕ → ℕ → ℕ → Fetched ℕ
all_ranges k from to = logs (logs_from numbered from (to + 1 - from))

abbrev pub recording : List ℕ → List ℕ → List ℕ × Bool
recording es w = (w ++ es, true)

small_ranges_answers :
    (k from to : ℕ) (raw : List ℕ)
    → small_ranges k from to ≡ logs raw
    → raw ≡ logs_from numbered from (to + 1 - from)
small_ranges_answers k from to raw h = ground arith

fetched_logs : Fetched ℕ → List ℕ
fetched_logs (logs raw) = raw
fetched_logs too_many_results = []
fetched_logs send_failed = []

all_ranges_answers :
    (k from to : ℕ) (raw : List ℕ)
    → all_ranges k from to ≡ logs raw
    → raw ≡ logs_from numbered from (to + 1 - from)
unfolding fetched_logs
all_ranges_answers k from to raw h = sym (ap fetched_logs h)

abbrev blocks_three_to_eleven : Options (List ℕ) ℕ ℕ
blocks_three_to_eleven = record {
  from_block = 3;
  to_block = 11;
  chunk_size = some 3;
  fetch = all_ranges;
  aborted = λ n. leb 2 n;
  decode = some;
  listener = recording;
  on_chunk_complete = λ end w. (w, true);
}

honest : Truthful blocks_three_to_eleven numbered (λ w. w)
honest = record {
  answers = all_ranges_answers;
  records = λ es w h. refl;
  checkpoint_keeps = λ end w. refl;
}

run_covers_example :
    Covered blocks_three_to_eleven numbered
      (λ w. w)
      honest
      []
      (run blocks_three_to_eleven []).0
      (run blocks_three_to_eleven []).1
run_covers_example = run_covers blocks_three_to_eleven numbered (λ w. w) honest [] (omega arith)

first_is_cancelled : (run blocks_three_to_eleven []).1 ≡ cancelled (some 8)
unfolding run loop round fetch_chunk chunk_end dispatch decode_all
first_is_cancelled = refl

never : ℕ → Bool
never n = false

abbrev going_on : Options (List ℕ) ℕ ℕ
going_on = resumed blocks_three_to_eleven numbered (λ w. w) (some 8) (some 2) all_ranges never

going_on_honest : Truthful going_on numbered (λ w. w)
going_on_honest = record {
  answers = all_ranges_answers;
  records = λ es w h. refl;
  checkpoint_keeps = λ end w. refl;
}

second_completes : (run going_on (run blocks_three_to_eleven []).0).1 ≡ completed
unfolding run loop round fetch_chunk chunk_end dispatch decode_all never
second_completes = refl

resumed-run_covers_example :
    (run going_on (run blocks_three_to_eleven []).0).0
    ≡ [] ++ events_in blocks_three_to_eleven numbered (λ w. w) 3 11
resumed-run_covers_example =
    resumed-run_covers blocks_three_to_eleven numbered (λ w. w) (some 8) (some 2) all_ranges never
      [] honest going_on_honest (omega arith) (omega arith) first_is_cancelled second_completes

run_ends_example : (run blocks_three_to_eleven []).1 ≢ no_fuel
run_ends_example = run_ends blocks_three_to_eleven [] (omega arith)

-- What is recorded, and how often the cursor was to be written.
abbrev Archive : Type 0
Archive = List ℕ × ℕ

-- An archive that commits the first event of a batch and rejects the rest while it is empty.
abbrev archiving : List ℕ → Archive → Archive × Bool
archiving [] w = (w, true)
archiving (e ∷ es) ([], n) = ((e ∷ [], n), false)
archiving (e ∷ es) (x ∷ xs, n) = (((x ∷ xs) ++ (e ∷ es), n), true)

-- The first write of the cursor fails.
abbrev writing : ℕ → Archive → Archive × Bool
writing to (l, n) = ((l, suc n), leb 1 n)

abbrev polling : PollerOptions Archive ℕ ℕ
polling = record {
  head_lag = 2;
  has_cursor = true;
  max_blocks_per_tick = some 4;
  fetch = small_ranges;
  decode = some;
  listeners = archiving;
  cursor_read = λ w. some none;
  cursor_write = writing;
  halted = λ n. false;
}

abbrev Archived : Archive → ℕ → Type 0
Archived w e = Memᴰ e w.0

archiving_records :
    (es : List ℕ) (w : Archive)
    → (archiving es w).1 ≡ true
    → (e : ℕ) → Memᴰ e es
    → Archived (archiving es w).0 e
archiving_records [] w h e m = elim m [ ]
archiving_records (x ∷ es) ([], n) h e m = clash h refl
archiving_records (x ∷ es) (y ∷ ys, n) h e m = Mem-right (y ∷ ys) (x ∷ es) {a = e} m

archiving_keeps : (es : List ℕ) (w : Archive) (e : ℕ) → Archived w e → Archived (archiving es w).0 e
archiving_keeps [] w e m = m
archiving_keeps (x ∷ es) ([], n) e m = elim m [ ]
archiving_keeps (x ∷ es) (y ∷ ys, n) e m = Mem-left (y ∷ ys) (x ∷ es) {a = e} m

only_first : (x e : ℕ) (es : List ℕ) → Memᴰ e (x ∷ []) → Memᴰ e (x ∷ es)
only_first x e es (Memᴰ.head h) = Memᴰ.head h
only_first x e es (Memᴰ.tail m) = elim m [ ]

archiving_only :
    (es : List ℕ) (w : Archive) (e : ℕ) → Archived (archiving es w).0 e → Archived w e ⊎ Memᴰ e es
archiving_only [] w e m = inl m
archiving_only (x ∷ es) ([], n) e m = inr (only_first x e es m)
archiving_only (x ∷ es) (y ∷ ys, n) e m = Mem-append (y ∷ ys) (x ∷ es) {a = e} m

sure : Reliable polling numbered Archived
sure = record {
  answers = small_ranges_answers;
  records = archiving_records;
  keeps = archiving_keeps;
  records_only = archiving_only;
  cursor_keeps = λ to w e m. m;
  cursor_adds_none = λ to w e m. m;
  with_cursor = refl;
  with_span = omega arith;
}

run_tick-Ticked_example :
    Ticked polling numbered Archived sure
      (confirmed_head 20 polling.head_lag)
      7
      (3 ∷ [], 0)
      (run_tick polling (some 20) (polled_to 7) (3 ∷ [], 0))
run_tick-Ticked_example = run_tick-Ticked polling numbered Archived sure 20 7 (3 ∷ [], 0)

abbrev calm : PollerOptions (List ℕ) ℕ ℕ
calm = record {
  head_lag = 2;
  has_cursor = true;
  max_blocks_per_tick = some 4;
  fetch = small_ranges;
  decode = some;
  listeners = recording;
  cursor_read = λ w. some none;
  cursor_write = λ to w. (w, true);
  halted = λ n. false;
}

small_ranges_fetches :
    (k from to : ℕ) → to + 1 ≤ from + 4 → (raw : List ℕ) × (small_ranges k from to ≡ logs raw)
small_ranges_fetches k from to h = (logs_from numbered from (to + 1 - from), ground arith)

calm-Undisturbed : Undisturbed calm
calm-Undisturbed = record {
  fetches = small_ranges_fetches;
  accepts = λ es w. refl;
  writes = λ to w. refl;
  goes_on = λ k. refl;
  with_cursor = refl;
  with_span = omega arith;
}

run_tick-Reaches_example :
    Reaches 7
      (confirmed_head 20 calm.head_lag)
      (span calm * max_chunks_per_tick)
      (run_tick calm (some 20) (polled_to 7) []).0
run_tick-Reaches_example = run_tick-Reaches calm calm-Undisturbed 20 7 []
