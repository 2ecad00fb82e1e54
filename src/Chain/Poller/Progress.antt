-- ===== src/Chain/Poller/Progress.antt =====
-- How far a tick gets where nothing fails.
use native.Mathlib.Nat.{mul-suc}
use kvorum.Base.{
  leb, leb→le, Bool-cases, clash, ℕ, zero, suc, ◌+◌, ◌*◌, ◌≤◌, ◌<◌, max, ◌≡◌, refl, ◌⊎◌, inl, inr,
  Bool, true, false, some, List, [], ◌∷◌, arith,
}
use kvorum.Chain.Logs.{decode_all, Fetched, logs}
use kvorum.Chain.Poller.{
  max_chunks_per_tick, polled_to, confirmed_head, advance_cursor, notify, accepted, fetched,
  poll_range, poll_chunks, run_tick, LastPolled, PollerOptions, BlockRange,
}
use kvorum.Chain.Poller.Range.{span, resolve-Follows, Follows}
use kvorum.Chain.Poller.Ticks.{poll_chunks_step, poll_chunks_done}

-- Each fetch of a range of at most the chunk size succeeds, the listeners accept each batch, each write
-- of the cursor succeeds, and the tick is neither stopped nor out of time.
pub record Undisturbed {W Log Event : Type 0} (o : PollerOptions W Log Event) : Type 0 where
  pub fetches :
      (k from to : ℕ) → to + 1 ≤ from + span o → (raw : List Log) × (o.fetch k from to ≡ logs raw)
  pub accepts : (es : List Event) (w : W) → (o.listeners es w).1 ≡ true
  pub writes : (to : ℕ) (w : W) → (o.cursor_write to w).1 ≡ true
  pub goes_on : (k : ℕ) → o.halted k ≡ false
  pub with_cursor : o.has_cursor ≡ true
  pub with_span : 1 ≤ span o

-- A watermark at the head or, if that is further, at `m` blocks behind `b`.
abbrev pub Reaches : ℕ → ℕ → ℕ → LastPolled → Type 0
Reaches b head m last =
    (b' : ℕ) × (last ≡ polled_to b')
    × (((b' ≡ max b head) × (head ≤ b + m)) ⊎ ((b' ≡ b + m) × (b + m ≤ head)))

module _ {W Log Event : Type 0} (o : PollerOptions W Log Event) (u : Undisturbed o) where
  notify_ok : (es : List Event) (w : W) → (notify o es w).1 ≡ true
  unfolding notify
  notify_ok [] w = refl
  notify_ok (e ∷ es) w = u.accepts (e ∷ es) w

  advance_cursor-moves : (to b : ℕ) (w : W) → (advance_cursor o to (polled_to b) w).0 ≡ polled_to to
  unfolding advance_cursor
  advance_cursor-moves to b w = ground (arith, u.with_cursor, u.writes to w)

  -- A poll accepts its range.
  Accepts : ℕ → LastPolled × W × Bool → Type 0
  Accepts to p = (p.0 ≡ polled_to to) × (p.2 ≡ true)

  accepted-Accepts :
      (to b : ℕ) (n : W × Bool) → n.1 ≡ true → Accepts to (accepted o to (polled_to b) n)
  unfolding accepted Accepts
  accepted-Accepts to b (w, true) h = (advance_cursor-moves to b w, refl)
  accepted-Accepts to b (w, false) h = clash h refl

  fetched-Accepts :
      (to b : ℕ) (w : W) (f : Fetched Log) (raw : List Log)
      → f ≡ logs raw
      → Accepts to (fetched o f to (polled_to b) w)
  unfolding fetched
  fetched-Accepts to b w f raw e =
      rw (e, fetched) (accepted-Accepts to b _ (notify_ok (decode_all o.decode raw) w))

  poll_range-Accepts :
      (chunk b : ℕ) (r : BlockRange) (w : W)
      → r.to_bn + 1 ≤ r.from_bn + span o
      → Accepts r.to_bn (poll_range o chunk r (polled_to b) w)
  unfolding poll_range
  poll_range-Accepts chunk b r w small =
      let (raw, e) = u.fetches chunk r.from_bn r.to_bn small in
      fetched-Accepts r.to_bn b w (o.fetch chunk r.from_bn r.to_bn) raw e

  behind : (a b : ℕ) → leb a b ≡ false → b < a
  behind a b h = ground arith

  small_range :
      (b head : ℕ) (r : BlockRange) → Follows o b head r → r.to_bn + 1 ≤ r.from_bn + span o
  small_range b head r f = elim f.full [
    | inl (a, k) ↦ omega (arith, f.begins, a, k)
    | inr a ↦ omega (arith, f.begins, a)
  ]

  -- One chunk more.
  chunk_more : (rounds : ℕ) → span o * suc rounds ≡ span o * rounds + span o
  chunk_more rounds = mul-suc (span o) rounds

  at_head :
      (rounds b head : ℕ) (r : BlockRange)
      → Follows o b head r
      → head ≤ r.to_bn
      → ((r.to_bn ≡ max b head) × (head ≤ b + span o * suc rounds))
        ⊎ ((r.to_bn ≡ b + span o * suc rounds) × (b + span o * suc rounds ≤ head))
  at_head rounds b head r f h =
      let more = chunk_more rounds in
      let le : r.to_bn ≤ b + span o = elim f.full [
        | inl (a, k) ↦ omega (arith, a, k)
        | inr a ↦ omega (arith, a)
      ] in
      inl (omega (arith, h, f.below, f.begins, f.some_block), omega (arith, h, le, more))

  further :
      (rounds b head : ℕ) (r : BlockRange)
      → Follows o b head r
      → r.to_bn < head
      → (last : LastPolled) → Reaches r.to_bn head (span o * rounds) last
      → Reaches b head (span o * suc rounds) last
  further rounds b head r f h last (b', at, where_to) =
      let more = chunk_more rounds in
      let to_is : r.to_bn ≡ b + span o = elim f.full [
        | inl (a, k) ↦ absurd (omega (arith, a, h))
        | inr a ↦ a
      ] in
      (
        b',
        at,
        elim where_to [
          | inl (x, y) ↦ inl (omega (arith, x, h, to_is), omega (arith, y, to_is, more))
          | inr (x, y) ↦ inr (omega (arith, x, to_is, more), omega (arith, y, to_is, more))
        ],
      )

  poll_chunks-Reaches :
      (rounds chunk head b : ℕ) (w : W)
      → Reaches b head (span o * rounds) (poll_chunks o rounds chunk head (polled_to b) w).0
  unfolding Accepts
  poll_chunks-Reaches zero chunk head b w =
      unfold poll_chunks in
      (
        b,
        refl,
        elim (Bool-cases (leb head b)) [
          | inl h ↦ inl (omega (arith, leb→le head b h), omega (arith, leb→le head b h))
          | inr h ↦ inr (omega arith, ground arith)
        ],
      )
  poll_chunks-Reaches (suc rounds) chunk head b w =
      elim (resolve-Follows o b head w u.with_cursor u.with_span) [
        | inl (e, past) ↦
            rw (poll_chunks_done o rounds chunk head b w e)
              (b, refl, inl (omega (arith, past), omega (arith, past)))
        | inr (r, e, f) ↦
            let p = poll_range o chunk r (polled_to b) w in
            let small = small_range b head r f in
            let (at, ok) = poll_range-Accepts chunk b r w small in
            rw (poll_chunks_step o rounds chunk head b w r e, ok, u.goes_on chunk)
              (elim (Bool-cases (leb head r.to_bn)) [
                | inl h ↦
                    rw (h, at) (r.to_bn, refl, at_head rounds b head r f (leb→le head r.to_bn h))
                | inr h ↦
                    rw (h, at)
                      (further rounds b head r f (behind head r.to_bn h) _
                        (poll_chunks-Reaches rounds (suc chunk) head r.to_bn p.1))
              ])
      ]

  -- Where no fetch of a range of at most the chunk size fails, no listener rejects, each write of the
  -- cursor succeeds, and the tick is neither stopped nor out of time, a tick moves a loaded watermark
  -- to the confirmed head, or as far as 20 chunks if the head is further.
  pub run_tick-Reaches :
      (tip b : ℕ) (w : W)
      → Reaches b
          (confirmed_head tip o.head_lag)
          (span o * max_chunks_per_tick)
          (run_tick o (some tip) (polled_to b) w).0
  unfolding run_tick
  run_tick-Reaches tip b w =
      poll_chunks-Reaches max_chunks_per_tick 0 (confirmed_head tip o.head_lag) b w
