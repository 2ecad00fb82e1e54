-- ===== src/Chain/Poller.antt =====
-- libs/chain/src/poller/event-poller.ts and confirmed-head.ts: one tick of the log poller with its
-- watermark. The world `W` stands for what the listeners and the cursor store write; `listeners` is
-- the outcome of `Promise.allSettled` over all of them. The provider's answers, the clock against the
-- tick's deadline and the `stopped` flag are read once for each chunk, whose number is an argument.
-- Log lines, metrics and the `onFirstHeadComplete` callback are left out.
pub mod Range
pub mod Polls
pub mod Ticks
pub mod Progress
use kvorum.Base.{
  ltb, leb, if◌then◌else◌, get_or_default, ℕ, zero, suc, ◌+◌, ◌-◌, ◌*◌, Bool, true, false, not,
  ◌||◌, Option, none, some, List, [], ◌∷◌,
}
use kvorum.Chain.Logs.{decode_all, Fetched, logs, too_many_results, send_failed}

abbrev pub default_max_blocks_per_chunk : ℕ
default_max_blocks_per_chunk = 10000

abbrev pub max_chunks_per_tick : ℕ
max_chunks_per_tick = 20

-- `lastPolled`: `undefined`, `null` or a block.
pub data LastPolled : Type 0 where
  not_loaded never_polled : LastPolled
  polled_to : ℕ → LastPolled

pub record PollerOptions (W Log Event : Type 0) : Type 0 where
  pub head_lag : ℕ
  pub has_cursor : Bool
  pub max_blocks_per_tick : Option ℕ
  pub fetch : ℕ → ℕ → ℕ → Fetched Log  -- the chunk's number, `fromBlock` and `toBlock`
  pub decode : Log → Option Event
  pub listeners : List Event → W → W × Bool
  pub cursor_read : W → Option (Option ℕ)  -- `none` where the read throws
  pub cursor_write : ℕ → W → W × Bool
  pub halted : ℕ → Bool  -- `this.stopped || Date.now() >= deadline` behind each chunk

-- `readConfirmedHead`, from the chain's tip.
unfoldable pub confirmed_head : ℕ → ℕ → ℕ
confirmed_head tip lag = if ltb lag tip then tip - lag else 0

unfoldable pub head_window_from : ℕ → ℕ → ℕ
head_window_from head lag = let window = lag * 2 in if ltb window head then head - window else 0

-- A range of blocks, its first and its last.
pub record BlockRange : Type 0 where
  pub from_bn : ℕ
  pub to_bn : ℕ

module _ {W Log Event : Type 0} (o : PollerOptions W Log Event) where
  -- The range behind a watermark, capped at the chunk size.
  range_from : LastPolled → ℕ → Option BlockRange
  range_from (polled_to b) head =
      let from = b + 1 in
      let span = get_or_default o.max_blocks_per_tick default_max_blocks_per_chunk in
      if ltb head from
      then none
      else some (record {
        from_bn = from;
        to_bn = if ltb span (head - from + 1) then from + span - 1 else head;
      })
  range_from never_polled head =
      some (record { from_bn = head_window_from head o.head_lag; to_bn = head })
  range_from not_loaded head = none

  loaded : Option (Option ℕ) → LastPolled
  loaded none = not_loaded
  loaded (some none) = never_polled
  loaded (some (some b)) = polled_to b

  load_cursor : LastPolled → W → LastPolled
  unfolding loaded
  load_cursor not_loaded w = loaded (o.cursor_read w)
  load_cursor never_polled w = never_polled
  load_cursor (polled_to b) w = polled_to b

  -- The watermark after `resolveRange`, and its result.
  unfoldable pub resolve_range : LastPolled → ℕ → W → LastPolled × Option BlockRange
  unfolding load_cursor range_from
  resolve_range last head w =
      if o.has_cursor
      then (let last' = load_cursor last w in (last', range_from last' head))
      else (last, some (record { from_bn = head_window_from head o.head_lag; to_bn = head }))

  written : ℕ → LastPolled → W × Bool → LastPolled × W
  written to last (w, true) = (polled_to to, w)
  written to last (w, false) = (last, w)

  -- A failed write leaves the watermark in memory untouched.
  unfoldable pub advance_cursor : ℕ → LastPolled → W → LastPolled × W
  unfolding written
  advance_cursor to last w =
      if o.has_cursor then written to last (o.cursor_write to w) else (last, w)

  notify : List Event → W → W × Bool
  notify [] w = (w, true)
  notify (e ∷ es) w = o.listeners (e ∷ es) w

  accepted : ℕ → LastPolled → W × Bool → LastPolled × W × Bool
  unfolding advance_cursor
  accepted to last (w, true) = let (last', w') = advance_cursor to last w in (last', w', true)
  accepted to last (w, false) = (last, w, false)

  fetched : Fetched Log → ℕ → LastPolled → W → LastPolled × W × Bool
  unfolding accepted notify
  fetched (logs raw) to last w = accepted to last (notify (decode_all o.decode raw) w)
  fetched too_many_results to last w = (last, w, false)
  fetched send_failed to last w = (last, w, false)

  -- The watermark and the world after `pollRange`, and whether the range was accepted.
  unfoldable pub poll_range : ℕ → BlockRange → LastPolled → W → LastPolled × W × Bool
  unfolding fetched
  poll_range chunk r last w = fetched (o.fetch chunk r.from_bn r.to_bn) r.to_bn last w

  -- The loop of `runTick`, from the chunk `max_chunks_per_tick - rounds` on.
  unfoldable pub poll_chunks : ℕ → ℕ → ℕ → LastPolled → W → LastPolled × W
  poll_chunks zero chunk head last w = (last, w)
  poll_chunks (suc rounds) chunk head last w =
      let (last1, range) = resolve_range last head w in
      elim range [
        | none ↦ (last1, w)
        | some r ↦
            let (last2, w2, ok) = poll_range chunk r last1 w in
            let rest = poll_chunks rounds (suc chunk) head last2 w2 in
            if not ok || leb head r.to_bn || o.halted chunk then (last2, w2) else rest
      ]

  -- A tick, from the answer to `eth_blockNumber`: `none` where it throws.
  unfoldable pub run_tick : Option ℕ → LastPolled → W → LastPolled × W
  run_tick none last w = (last, w)
  run_tick (some tip) last w =
      poll_chunks max_chunks_per_tick 0 (confirmed_head tip o.head_lag) last w
