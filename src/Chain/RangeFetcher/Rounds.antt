-- ===== src/Chain/RangeFetcher/Rounds.antt =====
-- What one round of the fetcher's outer loop does, and the fuel of the loop.
use kvorum.Base.{
  get_or_default, ℕ, zero, suc, ◌+◌, ◌-◌, ◌≤◌, ◌<◌, ◌≡◌, refl, sym, ap, ◌∙◌, ◌≢◌, ◌⊎◌, inl, inr,
  Bool, true, some, List, arith,
}
use kvorum.Chain.Logs.{decode_all, logs}
use kvorum.Chain.RangeFetcher.{
  default_chunk_size, no_fuel, chunk, chunk_failed, chunk_no_fuel, advanced, stops, fetch_chunk,
  after_listener, dispatch, deliver, round, loop, initial, run, Options, FetcherResult, Cursor,
  ChunkFetch, Round,
}
use kvorum.Chain.RangeFetcher.Progress.{ChunkFits, fetch_chunk_fits}

module _ {W Log Event : Type 0} (o : Options W Log Event) where
  -- What a round that goes on has done.
  pub record Advance (s s' : Cursor) (w w' : W) (raw : List Log) : Type 0 where
    pub was_within : s.current ≤ o.to_block
    pub answer : (k : ℕ) × (o.fetch k s.current (s'.current - 1) ≡ logs raw)
    pub moved : s.current < s'.current
    pub inside : s'.current ≤ o.to_block + 1
    pub spanned : s'.current ≤ s.current + s'.chunk_sz
    pub positive : 1 ≤ s'.chunk_sz
    pub no_growth : s'.chunk_sz ≤ s.chunk_sz
    pub checkpointed : s'.last_completed_block ≡ some (s'.current - 1)
    pub accepted : (dispatch o (decode_all o.decode raw) w).1 ≡ true
    pub world :
        w' ≡ (o.on_chunk_complete (s'.current - 1) (dispatch o (decode_all o.decode raw) w).0).0

  after_listener_advance :
      (d : W × Bool) (s s' : Cursor) (end size calls : ℕ) (w' : W)
      → after_listener o d s end size calls ≡ advanced s' w'
      → (d.1 ≡ true)
        × (s'.current - 1 ≡ end)
        × (s'.current ≡ end + 1)
        × (s'.chunk_sz ≡ size)
        × (s'.last_completed_block ≡ some end)
        × (w' ≡ (o.on_chunk_complete end d.0).0)
  unfolding after_listener
  after_listener_advance d s s' end size calls w' h = ground arith

  deliver-Advance :
      (c : ChunkFetch Log) (s s' : Cursor) (w w' : W)
      → s.current ≤ o.to_block
      → ChunkFits o.fetch s.current s.chunk_sz o.to_block c
      → deliver o c s w ≡ advanced s' w'
      → (raw : List Log) × Advance s s' w w' raw
  unfolding deliver
  deliver-Advance (chunk raw end size calls) s s' w w' i f h =
      let (a, b, c, d, l, e) =
        after_listener_advance (dispatch o (decode_all o.decode raw) w) s s' end size calls w' h in
      (
        raw,
        record {
          was_within = i;
          answer = (f.0.0, rw b f.0.1);
          moved = omega (arith, f);
          inside = omega (arith, f);
          spanned = omega (arith, f);
          positive = omega (arith, f);
          no_growth = omega (arith, f);
          checkpointed = rw b l;
          accepted = a;
          world = rw b e;
        },
      )
  deliver-Advance (chunk_failed err) s s' w w' i f h = absurd (ground arith)
  deliver-Advance chunk_no_fuel s s' w w' i f h = absurd f

  round_delivers :
      (s s' : Cursor) (w w' : W)
      → round o s w ≡ advanced s' w'
      → (s.current ≤ o.to_block)
        × (deliver o (fetch_chunk o (suc s.chunk_sz) s.current s.chunk_sz s.calls) s w
            ≡ advanced s' w')
  unfolding round
  round_delivers s s' w w' h = ground arith

  pub round-Advance :
      (s s' : Cursor) (w w' : W)
      → 1 ≤ s.chunk_sz
      → round o s w ≡ advanced s' w'
      → (raw : List Log) × Advance s s' w w' raw
  round-Advance s s' w w' z h =
      let (i, d) = round_delivers s s' w w' h in
      deliver-Advance _ s s' w w' i
        (fetch_chunk_fits o (suc s.chunk_sz) s.current s.chunk_sz s.calls (omega arith) z i) d

  deliver_has_fuel :
      (c : ChunkFetch Log) (s : Cursor) (w w' : W)
      → ChunkFits o.fetch s.current s.chunk_sz o.to_block c
      → deliver o c s w ≢ stops w' no_fuel
  unfolding deliver
  deliver_has_fuel (chunk raw end size calls) s w w' f h = ground arith
  deliver_has_fuel (chunk_failed err) s w w' f h = cc
  deliver_has_fuel chunk_no_fuel s w w' f h = f

  round_stops_delivers :
      (s : Cursor) (w w' : W)
      → round o s w ≡ stops w' no_fuel
      → (s.current ≤ o.to_block)
        × (deliver o (fetch_chunk o (suc s.chunk_sz) s.current s.chunk_sz s.calls) s w
            ≡ stops w' no_fuel)
  unfolding round
  round_stops_delivers s w w' h = ground arith

  round_has_fuel : (s : Cursor) (w w' : W) → 1 ≤ s.chunk_sz → round o s w ≢ stops w' no_fuel
  round_has_fuel s w w' z h =
      let (i, d) = round_stops_delivers s w w' h in
      deliver_has_fuel _ s w w'
        (fetch_chunk_fits o (suc s.chunk_sz) s.current s.chunk_sz s.calls (omega arith) z i) d

  pub Round-cases :
      (r : Round W)
      → ((s : Cursor) × (w : W) × (r ≡ advanced s w))
        ⊎ ((w : W) × (f : FetcherResult) × (r ≡ stops w f))
  Round-cases (advanced s w) = inl (s, w, refl)
  Round-cases (stops w f) = inr (w, f, refl)

  pub loop_advanced :
      (fuel : ℕ) (s s' : Cursor) (w w' : W)
      → round o s w ≡ advanced s' w'
      → loop o (suc fuel) s w ≡ loop o fuel s' w'
  unfolding loop
  loop_advanced fuel s s' w w' h = rw (h, loop)

  pub loop_stops :
      (fuel : ℕ) (s : Cursor) (w w' : W) (r : FetcherResult)
      → round o s w ≡ stops w' r
      → loop o (suc fuel) s w ≡ (w', r)
  unfolding loop
  loop_stops fuel s w w' r h = rw (h, loop)

  loop_has_fuel :
      (fuel : ℕ) (s : Cursor) (w : W)
      → o.to_block + 1 - s.current < fuel
      → 1 ≤ s.chunk_sz
      → (loop o fuel s w).1 ≢ no_fuel
  loop_has_fuel zero s w f z h = absurd (omega arith)
  loop_has_fuel (suc fuel) s w f z h = elim (Round-cases (round o s w)) [
    | inl (s', w', e) ↦
        let (raw, a) = round-Advance s s' w w' z e in
        loop_has_fuel fuel s' w' (omega (arith, a.was_within, a.moved, a.inside)) a.positive
          (sym (ap (λ (x : W × FetcherResult). x.1) (loop_advanced fuel s s' w w' e)) ∙ h)
    | inr (w', r, e) ↦ round_has_fuel s w w' z (
        e
        ∙ ap (stops w')
            (sym (ap (λ (x : W × FetcherResult). x.1) (loop_stops fuel s w w' r e)) ∙ h))
  ]

  -- With a positive chunk size a run ends by itself, whatever the provider, the signal and the hooks
  -- do: it completes, is cancelled or throws, within one round for each block and one more.
  pub run_ends :
      (w : W) → 1 ≤ get_or_default o.chunk_size default_chunk_size → (run o w).1 ≢ no_fuel
  unfolding run
  run_ends w z = loop_has_fuel (suc (o.to_block + 1 - o.from_block)) (initial o) w (omega arith) z
