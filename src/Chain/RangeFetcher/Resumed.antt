-- ===== src/Chain/RangeFetcher/Resumed.antt =====
-- A run that is cancelled and then resumed.
use kvorum.Base.{
  get_or_default, ℕ, ◌+◌, ◌-◌, ◌≤◌, ◌≡◌, sym, ap, ◌∙◌, subst, Bool, Option, List, ◌++◌,
  append_assoc, arith,
}
use kvorum.Chain.Logs.{decode_all, logs_from, logs_from-split, decode_all-append, Fetched}
use kvorum.Chain.RangeFetcher.{default_chunk_size, completed, cancelled, run, Options}
use kvorum.Chain.RangeFetcher.Coverage.{resume_at, Covered, run_covers, Truthful}

module _ {W Log Event : Type 0} (o : Options W Log Event) (blocks : ℕ → List Log)
    (seen : W → List Event) where
  -- The options of a run that goes on behind a last completed block, with its own chunk size,
  -- provider and signal.
  abbrev pub resumed :
      Option ℕ → Option ℕ → (ℕ → ℕ → ℕ → Fetched Log) → (ℕ → Bool) → Options W Log Event
  resumed last size fetch aborted = record {
    from_block = resume_at o.from_block last;
    to_block = o.to_block;
    chunk_size = size;
    fetch = fetch;
    aborted = aborted;
    decode = o.decode;
    listener = o.listener;
    on_chunk_complete = o.on_chunk_complete;
  }

  abbrev pub events_in : ℕ → ℕ → List Event
  events_in from to = decode_all o.decode (logs_from blocks from (to + 1 - from))

  events_joined :
      (from at to : ℕ)
      → from ≤ at
      → at ≤ to
      → decode_all o.decode (logs_from blocks from (at - from)) ++ events_in at to
        ≡ events_in from to
  events_joined from at to l m =
      sym (decode_all-append o.decode (logs_from blocks from (at - from)) _)
      ∙ ap
          (λ (b : ℕ).
            decode_all o.decode
              (logs_from blocks from (at - from) ++ logs_from blocks b (to + 1 - at)))
          {x = at} {y = from + (at - from)} (omega (arith, l))
      ∙ ap (decode_all o.decode) (sym (logs_from-split blocks from (at - from) (to + 1 - at)))
      ∙ ap (λ (n : ℕ). decode_all o.decode (logs_from blocks from n))
          {x = (at - from) + (to + 1 - at)} {y = to + 1 - from} (omega (arith, l, m))

  -- If a run with a positive chunk size is cancelled, and a second one from its resume point to the
  -- same block completes, also with another chunk size and another provider, then the two together
  -- have recorded the decodable events of every block of the whole range, once each and in order.
  -- Both providers give the logs of their ranges, a listener that resolves has recorded its events,
  -- and the checkpoint hook leaves that record alone.
  pub resumed-run_covers :
      (last size : Option ℕ) (fetch : ℕ → ℕ → ℕ → Fetched Log) (aborted : ℕ → Bool) (w : W)
      → Truthful o blocks seen
      → Truthful (resumed last size fetch aborted) blocks seen
      → 1 ≤ get_or_default o.chunk_size default_chunk_size
      → 1 ≤ get_or_default size default_chunk_size
      → (run o w).1 ≡ cancelled last
      → (run (resumed last size fetch aborted) (run o w).0).1 ≡ completed
      → seen (run (resumed last size fetch aborted) (run o w).0).0
        ≡ seen w ++ events_in o.from_block o.to_block
  resumed-run_covers last size fetch aborted w honest again z z' c d =
      let o' = resumed last size fetch aborted in
      let w' = (run o w).0 in
      let at = resume_at o.from_block last in
      let (l, m, first) =
        subst (Covered o blocks seen honest w w') c (run_covers o blocks seen honest w z) in
      let second =
        subst (Covered o' blocks seen again w' (run o' w').0) d
          (run_covers o' blocks seen again w' z') in
      second
      ∙ ap (λ (es : List Event). es ++ events_in at o.to_block) first
      ∙ append_assoc (seen w) _ (events_in at o.to_block)
      ∙ ap (λ (es : List Event). seen w ++ es) (events_joined o.from_block at o.to_block l m)
