-- ===== src/Chain/RangeFetcher.antt =====
-- libs/chain/src/backfill/range-fetcher.ts. The world `W` stands for what the listener and the
-- checkpoint hook write. The provider's answers, the abort signal, the log decoder and both hooks are
-- the fetcher's options; a hook gives the new world and whether it resolved. Block numbers are
-- natural numbers. `run` takes fuel: Progress shows how much is enough.
pub mod Progress
pub mod Rounds
pub mod Coverage
pub mod Hooks
pub mod Resumed
use kvorum.Chain.Logs.{decode_all, Fetched, logs, too_many_results, send_failed}
use kvorum.Base.{
  ltb, leb, if◌then◌else◌, get_or_default, ℕ, zero, suc, ◌+◌, ◌-◌, ◌/◌, max, Bool, true, false,
  Option, none, some, List, [], ◌∷◌,
}

abbrev pub chunk_floor : ℕ
chunk_floor = 1000

abbrev pub default_chunk_size : ℕ
default_chunk_size = 10000

pub record Options (W Log Event : Type 0) : Type 0 where
  pub from_block : ℕ
  pub to_block : ℕ
  pub chunk_size : Option ℕ
  pub fetch : ℕ → ℕ → ℕ → Fetched Log  -- the number of the call, `fromBlock` and `toBlock`
  pub aborted : ℕ → Bool  -- `signal?.aborted` at each chunk boundary
  pub decode : Log → Option Event  -- `none` where `decodeLogEvent` throws
  pub listener : List Event → W → W × Bool
  pub on_chunk_complete : ℕ → W → W × Bool

pub data RunError : Type 0 where
  chunk_too_small : ℕ → ℕ → RunError
  send_error listener_error checkpoint_error : RunError

pub data FetcherResult : Type 0 where
  completed : FetcherResult
  cancelled : Option ℕ → FetcherResult
  thrown : RunError → FetcherResult
  no_fuel : FetcherResult

pub record Cursor : Type 0 where
  pub chunk_sz : ℕ
  pub current : ℕ
  pub last_completed_block : Option ℕ
  pub calls : ℕ
  pub rounds : ℕ

unfoldable pub chunk_end : ℕ → ℕ → ℕ → ℕ
chunk_end from size max = let end = from + size - 1 in if ltb end max then end else max

abbrev pub shrunk : ℕ → ℕ
shrunk size = max chunk_floor (size / 2)

-- How the inner loop ends: with the logs of a chunk, its last block and its size, or by a throw.
pub data ChunkFetch (Log : Type 0) : Type 0 where
  chunk : List Log → ℕ → ℕ → ℕ → ChunkFetch Log
  chunk_failed : RunError → ChunkFetch Log
  chunk_no_fuel : ChunkFetch Log

-- How a round of the outer loop ends: it goes on, or returns or throws.
pub data Round (W : Type 0) : Type 0 where
  advanced : Cursor → W → Round W
  stops : W → FetcherResult → Round W

checkpoint : {W : Type 0} → W × Bool → Cursor → ℕ → ℕ → ℕ → Round W
checkpoint (w, true) s end size calls =
    advanced
      (record {
        chunk_sz = size;
        current = end + 1;
        last_completed_block = some end;
        calls = calls;
        rounds = suc s.rounds;
      })
      w
checkpoint (w, false) s end size calls = stops w (thrown checkpoint_error)

module _ {W Log Event : Type 0} where
  unfoldable pub fetch_chunk : Options W Log Event → ℕ → ℕ → ℕ → ℕ → ChunkFetch Log
  fetch_chunk o zero current size calls = chunk_no_fuel
  fetch_chunk o (suc fuel) current size calls =
      let end = chunk_end current size o.to_block in
      elim (o.fetch calls current end) [
        | logs raw ↦ chunk raw end size (suc calls)
        | send_failed ↦ chunk_failed send_error
        | too_many_results ↦ elim (leb size chunk_floor) [
          | true ↦ chunk_failed (chunk_too_small current end)
          | false ↦ fetch_chunk o fuel current (shrunk size) (suc calls)
        ]
      ]

  after_listener : Options W Log Event → W × Bool → Cursor → ℕ → ℕ → ℕ → Round W
  unfolding checkpoint
  after_listener o (w, true) s end size calls =
      checkpoint (o.on_chunk_complete end w) s end size calls
  after_listener o (w, false) s end size calls = stops w (thrown listener_error)

  -- `if (events.length > 0) await listener(events)`
  unfoldable pub dispatch : Options W Log Event → List Event → W → W × Bool
  dispatch o [] w = (w, true)
  dispatch o (e ∷ es) w = o.listener (e ∷ es) w

  deliver : Options W Log Event → ChunkFetch Log → Cursor → W → Round W
  unfolding after_listener dispatch
  deliver o (chunk raw end size calls) s w =
      after_listener o (dispatch o (decode_all o.decode raw) w) s end size calls
  deliver o (chunk_failed err) s w = stops w (thrown err)
  deliver o chunk_no_fuel s w = stops w no_fuel

  unfoldable pub round : Options W Log Event → Cursor → W → Round W
  unfolding deliver
  round o s w =
      if leb s.current o.to_block
      then (if o.aborted s.rounds
          then stops w (cancelled s.last_completed_block)
          else deliver o (fetch_chunk o (suc s.chunk_sz) s.current s.chunk_sz s.calls) s w)
      else stops w completed

  unfoldable pub loop : Options W Log Event → ℕ → Cursor → W → W × FetcherResult
  loop o zero s w = (w, no_fuel)
  loop o (suc fuel) s w = elim (round o s w) [
    | advanced s' w' ↦ loop o fuel s' w'
    | stops w' r ↦ (w', r)
  ]

  abbrev pub initial : Options W Log Event → Cursor
  initial o = record {
    chunk_sz = get_or_default o.chunk_size default_chunk_size;
    current = o.from_block;
    last_completed_block = none;
    calls = 0;
    rounds = 0;
  }

  -- One round for each block of the range, and one to find that it is done.
  unfoldable pub run : Options W Log Event → W → W × FetcherResult
  run o w = loop o (suc (o.to_block + 1 - o.from_block)) (initial o) w
