-- ===== src/Chain/Poller/Ticks.antt =====
-- What is recorded of the blocks between the old watermark of a tick and the new one.
use kvorum.Base.{
  leb, if◌then◌else◌, Bool-cases, ℕ, zero, suc, ◌≤◌, max, ◌≡◌, refl, ap, inl, inr, Bool, not, ◌||◌,
  Option, none, some, List, arith,
}
use kvorum.Chain.Poller.{
  max_chunks_per_tick, polled_to, confirmed_head, resolve_range, poll_range, poll_chunks, run_tick,
  LastPolled, PollerOptions, BlockRange,
}
use kvorum.Chain.Poller.Polls.{Moved-nowhere, Moved-then, poll_range-Polled, Reliable, Moved}
use kvorum.Chain.Poller.Range.{resolve-Follows}

module _ {W Log Event : Type 0} (o : PollerOptions W Log Event) where
  -- Whether the loop returns behind a polled range.
  abbrev pub returns : ℕ → ℕ → BlockRange → LastPolled × W × Bool → Bool
  returns head chunk r p = not p.2 || leb head r.to_bn || o.halted chunk

  pub poll_chunks_step :
      (rounds chunk head b : ℕ) (w : W) (r : BlockRange)
      → resolve_range o (polled_to b) head w ≡ (polled_to b, some r)
      → let p = poll_range o chunk r (polled_to b) w in
        poll_chunks o (suc rounds) chunk head (polled_to b) w ≡ (
          if returns head chunk r p
          then (p.0, p.1)
          else poll_chunks o rounds (suc chunk) head p.0 p.1)
  unfolding poll_chunks
  poll_chunks_step rounds chunk head b w r e =
      rw (ap (λ (x : LastPolled × Option BlockRange). x.1) e, poll_chunks)
        (rw (ap (λ (x : LastPolled × Option BlockRange). x.0) e))

  pub poll_chunks_done :
      (rounds chunk head b : ℕ) (w : W)
      → resolve_range o (polled_to b) head w ≡ (polled_to b, none)
      → poll_chunks o (suc rounds) chunk head (polled_to b) w ≡ (polled_to b, w)
  unfolding poll_chunks
  poll_chunks_done rounds chunk head b w e =
      rw (ap (λ (x : LastPolled × Option BlockRange). x.1) e, poll_chunks)
        (rw (ap (λ (x : LastPolled × Option BlockRange). x.0) e))

module _ {W Log Event : Type 0} (o : PollerOptions W Log Event) (blocks : ℕ → List Log)
    (Recorded : W → Event → Type 0) (sure : Reliable o blocks Recorded) where
  -- From the watermark `b` the poller has moved to one not above the head (or `b`, if that is higher).
  abbrev pub Ticked : ℕ → ℕ → W → LastPolled × W → Type 0
  Ticked head b w p =
      (b' : ℕ) × (p.0 ≡ polled_to b') × Moved o blocks Recorded b b' (max b head) w p.1

  poll_chunks-Ticked :
      (rounds chunk head b : ℕ) (w : W) (top : ℕ)
      → b ≤ top
      → head ≤ top
      → let p = poll_chunks o rounds chunk head (polled_to b) w in
        (b' : ℕ) × (p.0 ≡ polled_to b') × Moved o blocks Recorded b b' top w p.1
  poll_chunks-Ticked zero chunk head b w top l m =
      unfold poll_chunks in (b, refl, Moved-nowhere o blocks Recorded b top w l)
  poll_chunks-Ticked (suc rounds) chunk head b w top l m =
      elim (resolve-Follows o b head w sure.with_cursor sure.with_span) [
        | inl (e, past) ↦
            rw (poll_chunks_done o rounds chunk head b w e)
              (b, refl, Moved-nowhere o blocks Recorded b top w l)
        | inr (r, e, f) ↦
            let p = poll_range o chunk r (polled_to b) w in
            let (b1, at, moved) =
              poll_range-Polled o blocks Recorded sure chunk b r w f.begins
                (omega (arith, f.begins, f.some_block)) in
            let to_top : r.to_bn ≤ top = omega (arith, f.below) in
            let b1_top : b1 ≤ top = omega (arith, moved.bounded) in
            rw (poll_chunks_step o rounds chunk head b w r e)
              (elim (Bool-cases (returns o head chunk r p)) [
                | inl h ↦ rw h (
                  b1,
                  at,
                  Moved-then o blocks Recorded to_top moved
                      (Moved-nowhere o blocks Recorded b1 top p.1 b1_top),
                )
                | inr h ↦
                    let (b2, at2, moved2) =
                      poll_chunks-Ticked rounds (suc chunk) head b1 p.1 top b1_top m in
                    rw (h, at) (b2, at2, Moved-then o blocks Recorded to_top moved moved2)
              ])
      ]

  -- With truthful logs, listeners that have recorded every event of a batch that they accept and any
  -- of one that they reject, and a chunk size of at least one block, a tick from a loaded watermark
  -- moves the watermark forward or leaves it, never beyond the confirmed head, and every event of the
  -- blocks that it has passed is then recorded; nothing is taken back, and nothing is recorded but
  -- events of blocks behind the old watermark and up to the head. This is whatever fetches fail,
  -- whichever listener rejects behind a part of a batch, whichever write of the cursor fails and
  -- wherever the tick is cut off.
  pub run_tick-Ticked :
      (tip b : ℕ) (w : W)
      → Ticked (confirmed_head tip o.head_lag) b w (run_tick o (some tip) (polled_to b) w)
  unfolding run_tick
  run_tick-Ticked tip b w =
      let head = confirmed_head tip o.head_lag in
      poll_chunks-Ticked max_chunks_per_tick 0 head b w (max b head) (omega arith) (omega arith)
