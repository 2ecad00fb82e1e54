-- ===== src/Chain/RangeFetcher/Coverage.antt =====
-- What a run delivers to its listener.
use kvorum.Base.{
  get_or_default, ℕ, zero, suc, ◌+◌, ◌-◌, ◌≤◌, ◌<◌, max, ◌≡◌, refl, sym, ap, ◌∙◌, inl, inr, true,
  Option, none, some, List, [], ◌∷◌, ◌++◌, append-nil, append_assoc, arith,
}
use native.Mathlib.Nat.{le_refl}
use kvorum.Chain.Logs.{decode_all, logs_from, logs_from-split, decode_all-append, logs}
use kvorum.Chain.RangeFetcher.Rounds.{
  round-Advance, Round-cases, loop_advanced, loop_stops, Advance,
}
use kvorum.Chain.RangeFetcher.{
  default_chunk_size, completed, cancelled, thrown, no_fuel, stops, dispatch, round, loop, initial,
  run, Options, FetcherResult, Cursor,
}

-- Where a run that began at `from` is to be resumed, after its last completed block.
abbrev pub resume_at : ℕ → Option ℕ → ℕ
resume_at from none = from
resume_at from (some b) = b + 1

-- What the run relies on: an `eth_getLogs` that succeeds gives the logs of the blocks of its range,
-- and a listener that resolves has recorded the events that it was given. `seen` is that record.
pub record Truthful {W Log Event : Type 0} (o : Options W Log Event) (blocks : ℕ → List Log)
    (seen : W → List Event) : Type 0 where
  pub answers :
      (k from to : ℕ) (raw : List Log)
      → o.fetch k from to ≡ logs raw
      → raw ≡ logs_from blocks from (to + 1 - from)
  pub records :
      (es : List Event) (w : W)
      → (o.listener es w).1 ≡ true
      → seen (o.listener es w).0 ≡ seen w ++ es
  pub checkpoint_keeps : (end : ℕ) (w : W) → seen (o.on_chunk_complete end w).0 ≡ seen w

module _ {W Log Event : Type 0} (o : Options W Log Event) (blocks : ℕ → List Log)
    (seen : W → List Event) (honest : Truthful o blocks seen) where
  -- The events of `n` blocks from the run's first on.
  abbrev pub events_of : ℕ → List Event
  events_of n = decode_all o.decode (logs_from blocks o.from_block n)

  dispatch_seen :
      (es : List Event) (w : W)
      → (dispatch o es w).1 ≡ true
      → seen (dispatch o es w).0 ≡ seen w ++ es
  unfolding dispatch
  dispatch_seen [] w h = sym (append-nil (seen w))
  dispatch_seen (e ∷ es) w h = honest.records (e ∷ es) w h

  -- The invariant of the outer loop: everything below `current` has been seen.
  record Seen (w0 : W) (s : Cursor) (w : W) : Type 0 where
    past : o.from_block ≤ s.current
    bounded : s.current ≤ max o.from_block (o.to_block + 1)
    seen_past : seen w ≡ seen w0 ++ events_of (s.current - o.from_block)
    last : resume_at o.from_block s.last_completed_block ≡ s.current

  Advance-Seen :
      (w0 w w' : W) (s s' : Cursor) (raw : List Log)
      → Seen w0 s w
      → Advance o s s' w w' raw
      → Seen w0 s' w'
  Advance-Seen w0 w w' s s' raw v a = record {
    past = omega (arith, v.past, a.moved);
    bounded = omega (arith, a.inside);
    seen_past =
        ap seen a.world
        ∙ honest.checkpoint_keeps (s'.current - 1) _
        ∙ dispatch_seen (decode_all o.decode raw) w a.accepted
        ∙ ap (λ l. l ++ decode_all o.decode raw) v.seen_past
        ∙ append_assoc (seen w0) _ _
        ∙ ap (λ l. seen w0 ++ l) (more a.answer.0 a.answer.1);
    last = rw a.checkpointed (omega (arith, a.moved));
  }
    where
      more :
          (k : ℕ)
          → o.fetch k s.current (s'.current - 1) ≡ logs raw
          → events_of (s.current - o.from_block) ++ decode_all o.decode raw
            ≡ events_of (s'.current - o.from_block)
      more k e =
          let n : ℕ = s.current - o.from_block in
          let m : ℕ = s'.current - s.current in
          ap (λ l. events_of n ++ decode_all o.decode l)
            (honest.answers k s.current (s'.current - 1) raw e)
          ∙ sym (decode_all-append o.decode (logs_from blocks o.from_block n) _)
          ∙ ap (λ l. decode_all o.decode (logs_from blocks o.from_block n ++ l))
              (ap (λ (i : ℕ). logs_from blocks i (s'.current - 1 + 1 - s.current)) {x = s.current}
                  {y = o.from_block + n} (omega (arith, v.past))
                ∙ ap (logs_from blocks (o.from_block + n)) {x = s'.current - 1 + 1 - s.current}
                    {y = m} (omega (arith, a.moved)))
          ∙ ap (decode_all o.decode) (sym (logs_from-split blocks o.from_block n m))
          ∙ ap events_of {x = n + m} {y = s'.current - o.from_block}
              (omega (arith, a.moved, v.past))

  -- What a run that ended so has seen.
  abbrev pub Covered : W → W → FetcherResult → Type 0
  Covered w0 w completed = seen w ≡ seen w0 ++ events_of (o.to_block + 1 - o.from_block)
  Covered w0 w (cancelled last) =
      (o.from_block ≤ resume_at o.from_block last)
      × (resume_at o.from_block last ≤ o.to_block)
      × (seen w ≡ seen w0 ++ events_of (resume_at o.from_block last - o.from_block))
  Covered w0 w (thrown err) = Unit {0}
  Covered w0 w no_fuel = Unit {0}

  stop_completed :
      (s : Cursor) (w w' : W)
      → round o s w ≡ stops w' completed
      → (w ≡ w') × (o.to_block < s.current)
  unfolding round
  stop_completed s w w' h = ground arith

  stop_cancelled :
      (s : Cursor) (w w' : W) (last : Option ℕ)
      → round o s w ≡ stops w' (cancelled last)
      → (w ≡ w') × (s.last_completed_block ≡ last) × (s.current ≤ o.to_block)
  unfolding round
  stop_cancelled s w w' last h = ground arith

  stop-Covered :
      (w0 : W) (s : Cursor) (w w' : W) (r : FetcherResult)
      → Seen w0 s w
      → round o s w ≡ stops w' r
      → Covered w0 w' r
  stop-Covered w0 s w w' completed v h =
      let (e, past) = stop_completed s w w' h in
      ap seen (sym e)
      ∙ v.seen_past
      ∙ ap (λ n. seen w0 ++ events_of n) {x = s.current - o.from_block}
          {y = o.to_block + 1 - o.from_block} (omega (arith, v.bounded))
  stop-Covered w0 s w w' (cancelled last) v h =
      let (e, l, within) = stop_cancelled s w w' last h in
      let at = sym v.last ∙ ap (resume_at o.from_block) l in
      (
        omega (arith, at, v.past),
        omega (arith, at, within),
        ap seen (sym e) ∙ v.seen_past ∙ ap (λ n. seen w0 ++ events_of (n - o.from_block)) at,
      )
  stop-Covered w0 s w w' (thrown err) v h = tt
  stop-Covered w0 s w w' no_fuel v h = tt

  loop-Covered :
      (fuel : ℕ) (w0 : W) (s : Cursor) (w : W)
      → 1 ≤ s.chunk_sz
      → Seen w0 s w
      → Covered w0 (loop o fuel s w).0 (loop o fuel s w).1
  loop-Covered zero w0 s w z v = unfold loop in tt
  loop-Covered (suc fuel) w0 s w z v = elim (Round-cases o (round o s w)) [
    | inl (s', w', e) ↦
        let (raw, a) = round-Advance o s s' w w' z e in
        rw (loop_advanced o fuel s s' w w' e)
          (loop-Covered fuel w0 s' w' a.positive (Advance-Seen w0 w w' s s' raw v a))
    | inr (w', r, e) ↦ rw (loop_stops o fuel s w w' r e) (stop-Covered w0 s w w' r v e)
  ]

  -- Where `eth_getLogs` gives the logs of its range, a listener that resolves has recorded the events
  -- that it was given and the checkpoint hook leaves that record alone, a run with a positive chunk
  -- size that completes has recorded the decodable events of every block of its range, once each and
  -- in order, however the chunks were shrunk; and a run that is cancelled has recorded those of
  -- exactly the blocks before the one at which it is to be resumed, which is in the range.
  pub run_covers :
      (w : W)
      → 1 ≤ get_or_default o.chunk_size default_chunk_size
      → Covered w (run o w).0 (run o w).1
  unfolding run
  run_covers w z = loop-Covered (suc (o.to_block + 1 - o.from_block)) w (initial o) w z (record {
    past = le_refl o.from_block;
    bounded = omega arith;
    seen_past = start;
    last = refl;
  })
    where
      start : seen w ≡ seen w ++ events_of (o.from_block - o.from_block)
      start = sym (
          ap (λ n. seen w ++ events_of n) {x = o.from_block - o.from_block} {y = 0} (omega arith)
          ∙ unfold decode_all in append-nil (seen w))
