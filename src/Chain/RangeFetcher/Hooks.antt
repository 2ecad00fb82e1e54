-- ===== src/Chain/RangeFetcher/Hooks.antt =====
-- Predicates that the listener and the checkpoint hook keep true.
use kvorum.Base.{
  leb, Bool-cases, ℕ, zero, suc, ◌+◌, ◌-◌, ◌≡◌, refl, subst, inl, inr, Bool, true, false, Option,
  none, some, List, [], ◌∷◌,
}
use kvorum.Chain.RangeFetcher.{
  completed, cancelled, thrown, no_fuel, chunk, chunk_failed, chunk_no_fuel, advanced, stops,
  checkpoint, after_listener, dispatch, deliver, round, loop, initial, run, Options, FetcherResult,
  Cursor, ChunkFetch, Round,
}
use kvorum.Chain.Logs.{decode_all}
use kvorum.Chain.RangeFetcher.Rounds.{Round-cases, loop_advanced, loop_stops}

module _ {W Log Event : Type 0} (o : Options W Log Event) (P : Option ℕ → W → Type 0) where
  -- The hooks keep a predicate on the last block that was checkpointed and the world.
  pub record Keeps : Type 0 where
    pub listens :
        (last : Option ℕ) (es : List Event) (w : W) → P last w → P last (o.listener es w).0
    pub checkpoints :
        (last : Option ℕ) (end : ℕ) (w : W)
        → P last w
        → (o.on_chunk_complete end w).1 ≡ true
        → P (some end) (o.on_chunk_complete end w).0
    pub fails :
        (last : Option ℕ) (end : ℕ) (w : W)
        → P last w
        → (o.on_chunk_complete end w).1 ≡ false
        → P last (o.on_chunk_complete end w).0

  -- A cancelled run reports the last block that was checkpointed.
  abbrev pub Reports : FetcherResult → Option ℕ → Type 0
  Reports completed last = Unit
  Reports (cancelled l) last = l ≡ last
  Reports (thrown e) last = Unit
  Reports no_fuel last = Unit

  abbrev RoundOk : Round W → Type 0
  RoundOk (advanced s w) = P s.last_completed_block w
  RoundOk (stops w r) = (last : Option ℕ) × P last w × Reports r last

  checkpoint-RoundOk :
      (q : W × Bool) (s : Cursor) (end size calls : ℕ)
      → (q.1 ≡ true → P (some end) q.0)
      → (q.1 ≡ false → P s.last_completed_block q.0)
      → RoundOk (checkpoint q s end size calls)
  unfolding checkpoint
  checkpoint-RoundOk (w, true) s end size calls ok ko = ok refl
  checkpoint-RoundOk (w, false) s end size calls ok ko = (s.last_completed_block, ko refl, tt)

  module _ (keeps : Keeps) where
    dispatch_keeps :
        (last : Option ℕ) (es : List Event) (w : W) → P last w → P last (dispatch o es w).0
    unfolding dispatch
    dispatch_keeps last [] w h = h
    dispatch_keeps last (e ∷ es) w h = keeps.listens last (e ∷ es) w h

    after_listener-RoundOk :
        (q : W × Bool) (s : Cursor) (end size calls : ℕ)
        → P s.last_completed_block q.0
        → RoundOk (after_listener o q s end size calls)
    unfolding after_listener
    after_listener-RoundOk (w, true) s end size calls h =
        checkpoint-RoundOk (o.on_chunk_complete end w) s end size calls
          (keeps.checkpoints s.last_completed_block end w h)
          (keeps.fails s.last_completed_block end w h)
    after_listener-RoundOk (w, false) s end size calls h = (s.last_completed_block, h, tt)

    deliver-RoundOk :
        (c : ChunkFetch Log) (s : Cursor) (w : W)
        → P s.last_completed_block w
        → RoundOk (deliver o c s w)
    unfolding deliver
    deliver-RoundOk (chunk raw end size calls) s w h =
        after_listener-RoundOk (dispatch o (decode_all o.decode raw) w) s end size calls
          (dispatch_keeps s.last_completed_block (decode_all o.decode raw) w h)
    deliver-RoundOk (chunk_failed err) s w h = (s.last_completed_block, h, tt)
    deliver-RoundOk chunk_no_fuel s w h = (s.last_completed_block, h, tt)

    round-RoundOk : (s : Cursor) (w : W) → P s.last_completed_block w → RoundOk (round o s w)
    unfolding round
    round-RoundOk s w h = elim (Bool-cases (leb s.current o.to_block)) [
      | inr e ↦ rw (e, round) (s.last_completed_block, h, tt)
      | inl e ↦ elim (Bool-cases (o.aborted s.rounds)) [
        | inl a ↦ rw (e, a, round) (s.last_completed_block, h, refl)
        | inr a ↦ rw (e, a, round) (deliver-RoundOk _ s w h)
      ]
    ]

    loop_keeps :
        (fuel : ℕ) (s : Cursor) (w : W)
        → P s.last_completed_block w
        → (last : Option ℕ) × P last (loop o fuel s w).0 × Reports (loop o fuel s w).1 last
    loop_keeps zero s w h = unfold loop in (s.last_completed_block, h, tt)
    loop_keeps (suc fuel) s w h = elim (Round-cases o (round o s w)) [
      | inl (s', w', e) ↦
          rw (loop_advanced o fuel s s' w w' e)
            (loop_keeps fuel s' w' (subst RoundOk e (round-RoundOk s w h)))
      | inr (w', r, e) ↦ rw (loop_stops o fuel s w w' r e) (subst RoundOk e (round-RoundOk s w h))
    ]

    -- A run ends in a world where the predicate holds of a last checkpointed block, the one that it
    -- reports if it is cancelled.
    pub run_keeps :
        (w : W) → P none w → (last : Option ℕ) × P last (run o w).0 × Reports (run o w).1 last
    unfolding run
    run_keeps w h = loop_keeps (suc (o.to_block + 1 - o.from_block)) (initial o) w h
