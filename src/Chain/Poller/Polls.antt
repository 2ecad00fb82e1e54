-- ===== src/Chain/Poller/Polls.antt =====
-- What one poll of a range leaves recorded, and how a watermark has moved.
use kvorum.Base.{
  leb, leb→le, Bool-cases, get_or_default, ℕ, ◌+◌, ◌-◌, ◌≤◌, ◌<◌, ◌≡◌, refl, sym, ap, ◌∙◌, subst,
  ◌⊎◌, inl, inr, Bool, true, false, List, [], ◌∷◌, Memᴰ, arith,
}
use kvorum.Chain.Logs.{
  decode_all, logs_from, logs_from_cong, logs_from-Within, Within-logs_from, Fetched, Within, logs,
  too_many_results, send_failed,
}
use kvorum.Chain.Poller.{
  default_max_blocks_per_chunk, polled_to, advance_cursor, notify, accepted, fetched, poll_range,
  LastPolled, PollerOptions, BlockRange,
}

-- What the poller relies on: an `eth_getLogs` that succeeds gives the logs of the blocks of its range;
-- the listeners have recorded every event of a batch that none of them rejects, and of one that is
-- rejected any of its events; neither they nor the cursor store take back what is recorded.
pub record Reliable {W Log Event : Type 0} (o : PollerOptions W Log Event) (blocks : ℕ → List Log)
    (Recorded : W → Event → Type 0) : Type 0 where
  pub answers :
      (k from to : ℕ) (raw : List Log)
      → o.fetch k from to ≡ logs raw
      → raw ≡ logs_from blocks from (to + 1 - from)
  pub records :
      (es : List Event) (w : W)
      → (o.listeners es w).1 ≡ true
      → (e : Event) → Memᴰ e es
      → Recorded (o.listeners es w).0 e
  pub keeps : (es : List Event) (w : W) (e : Event) → Recorded w e → Recorded (o.listeners es w).0 e
  pub records_only :
      (es : List Event) (w : W) (e : Event)
      → Recorded (o.listeners es w).0 e
      → Recorded w e ⊎ Memᴰ e es
  pub cursor_keeps :
      (to : ℕ) (w : W) (e : Event) → Recorded w e → Recorded (o.cursor_write to w).0 e
  pub cursor_adds_none :
      (to : ℕ) (w : W) (e : Event) → Recorded (o.cursor_write to w).0 e → Recorded w e
  pub with_cursor : o.has_cursor ≡ true
  pub with_span : 1 ≤ get_or_default o.max_blocks_per_tick default_max_blocks_per_chunk

module _ {W Log Event : Type 0} (o : PollerOptions W Log Event) (blocks : ℕ → List Log)
    (Recorded : W → Event → Type 0) where
  -- The watermark has moved from `b` to `b'`, not beyond `top`: every event of the blocks that it has
  -- passed is recorded, what was recorded still is, and what has been recorded since is an event of
  -- a block behind `b` and up to `top`.
  pub record Moved (b b' top : ℕ) (w w' : W) : Type 0 where
    pub forward : b ≤ b'
    pub bounded : b' ≤ top
    pub passed : (e : Event) → Within o.decode blocks b b' e → Recorded w' e
    pub kept : (e : Event) → Recorded w e → Recorded w' e
    pub only : (e : Event) → Recorded w' e → Recorded w e ⊎ Within o.decode blocks b top e

  behind_of : (a b : ℕ) → leb a b ≡ false → b < a
  behind_of a b h = ground arith

  Within-top :
      {b b' top top' : ℕ} {e : Event}
      → b' ≤ b
      → top ≤ top'
      → Within o.decode blocks b top e
      → Within o.decode blocks b' top' e
  Within-top l m i = record {
    block = i.block;
    behind = omega (arith, i.behind);
    up_to = omega (arith, i.up_to);
    of_block = i.of_block;
  }

  pub Moved-nowhere : (b top : ℕ) (w : W) → b ≤ top → Moved b b top w w
  Moved-nowhere b top w l = record {
    forward = omega arith;
    bounded = l;
    passed = λ e i. absurd (omega (arith, i.behind, i.up_to));
    kept = λ e h. h;
    only = λ e h. inl h;
  }

  pub Moved-then :
      {b b1 b2 top1 top : ℕ} {w w1 w2 : W}
      → top1 ≤ top
      → Moved b b1 top1 w w1
      → Moved b1 b2 top w1 w2
      → Moved b b2 top w w2
  Moved-then {b} {b1} {b2} {top1} {top} l f g = record {
    forward = omega (arith, f.forward, g.forward);
    bounded = g.bounded;
    passed = λ e i. elim (Bool-cases (leb i.block b1)) [
      | inl h ↦ g.kept e (
          f.passed e (record {
            block = i.block;
            behind = i.behind;
            up_to = leb→le i.block b1 h;
            of_block = i.of_block;
          }))
      | inr h ↦ g.passed e (record {
        block = i.block;
        behind = behind_of i.block b1 h;
        up_to = i.up_to;
        of_block = i.of_block;
      })
    ];
    kept = λ e h. g.kept e (f.kept e h);
    only = λ e h. elim (g.only e h) [
      | inl k ↦ elim (f.only e k) [
        | inl j ↦ inl j
        | inr i ↦
            inr (Within-top {b = b} {b' = b} {top = top1} {top' = top} {e = e} (omega arith) l i)
      ]
      | inr i ↦
          inr (
            Within-top {b = b1} {b' = b} {top = top} {top' = top} {e = e} f.forward (omega arith) i)
    ];
  }

module _ {W Log Event : Type 0} (o : PollerOptions W Log Event) (blocks : ℕ → List Log)
    (Recorded : W → Event → Type 0) (sure : Reliable o blocks Recorded) where
  -- What a poll of a range from a watermark leaves.
  abbrev pub Polled : BlockRange → ℕ → W → LastPolled × W × Bool → Type 0
  Polled r b w (last, w', ok) =
      (b' : ℕ) × (last ≡ polled_to b') × Moved o blocks Recorded b b' r.to_bn w w'

  -- The listeners are told, if there is anything to tell.
  notify_records :
      (es : List Event) (w : W)
      → (notify o es w).1 ≡ true
      → (e : Event) → Memᴰ e es
      → Recorded (notify o es w).0 e
  unfolding notify
  notify_records [] w h e m = elim m [ ]
  notify_records (x ∷ es) w h e m = sure.records (x ∷ es) w h e m

  notify_keeps : (es : List Event) (w : W) (e : Event) → Recorded w e → Recorded (notify o es w).0 e
  unfolding notify
  notify_keeps [] w e h = h
  notify_keeps (x ∷ es) w e h = sure.keeps (x ∷ es) w e h

  notify_only :
      (es : List Event) (w : W) (e : Event)
      → Recorded (notify o es w).0 e
      → Recorded w e ⊎ Memᴰ e es
  unfolding notify
  notify_only [] w e h = inl h
  notify_only (x ∷ es) w e h = sure.records_only (x ∷ es) w e h

  -- The batch of a range and the blocks of the range.
  module _ (r : BlockRange) (b : ℕ) (begins : r.from_bn ≡ b + 1) (below : b ≤ r.to_bn)
      (raw : List Log) (is : raw ≡ logs_from blocks r.from_bn (r.to_bn + 1 - r.from_bn)) where
    raw_is : raw ≡ logs_from blocks (b + 1) (r.to_bn - b)
    raw_is =
        is
        ∙ logs_from_cong blocks {a = r.from_bn} {b = b + 1} {m = r.to_bn + 1 - r.from_bn}
            {n = r.to_bn - b} begins (omega (arith, begins, below))

    batch-Within :
        (e : Event) → Memᴰ e (decode_all o.decode raw) → Within o.decode blocks b r.to_bn e
    batch-Within e m =
        subst (λ n. Within o.decode blocks b n e) {x = b + (r.to_bn - b)} {y = r.to_bn}
          (omega (arith, below))
          (logs_from-Within o.decode blocks b (r.to_bn - b) e
            (subst (λ l. Memᴰ e (decode_all o.decode l)) raw_is m))

    Within-batch :
        (e : Event) → Within o.decode blocks b r.to_bn e → Memᴰ e (decode_all o.decode raw)
    Within-batch e i =
        subst (λ l. Memᴰ e (decode_all o.decode l)) (sym raw_is)
          (Within-logs_from o.decode blocks b (r.to_bn - b) e (
            subst (λ n. Within o.decode blocks b n e) {x = r.to_bn} {y = b + (r.to_bn - b)}
              (omega (arith, below)) i))

    -- The listeners' writes alone move no watermark.
    told-Moved :
        (w : W) → Moved o blocks Recorded b b r.to_bn w (notify o (decode_all o.decode raw) w).0
    told-Moved w = record {
      forward = omega arith;
      bounded = below;
      passed = λ e i. absurd (omega (arith, i.behind, i.up_to));
      kept = notify_keeps (decode_all o.decode raw) w;
      only = λ e h. elim (notify_only (decode_all o.decode raw) w e h) [
        | inl k ↦ inl k
        | inr m ↦ inr (batch-Within e m)
      ];
    }

    -- Behind a batch that is accepted, the cursor is written or not.
    advance-Polled :
        (w w1 : W)
        → Moved o blocks Recorded b b r.to_bn w w1
        → ((e : Event) → Memᴰ e (decode_all o.decode raw) → Recorded w1 e)
        → (ok : Bool)
        → Polled r b w (
          (advance_cursor o r.to_bn (polled_to b) w1).0,
          (advance_cursor o r.to_bn (polled_to b) w1).1,
          ok,
        )
    unfolding advance_cursor
    advance-Polled w w1 f all ok =
        let w2 = (o.cursor_write r.to_bn w1).0 in
        let kept = λ (e : Event) (h : Recorded w e). sure.cursor_keeps r.to_bn w1 e (f.kept e h) in
        let only =
          λ (e : Event) (h : Recorded w2 e). f.only e (sure.cursor_adds_none r.to_bn w1 e h) in
        elim (Bool-cases (o.cursor_write r.to_bn w1).1) [
          | inl h ↦
              rw (sure.with_cursor, h)
                (
                  r.to_bn,
                  refl,
                  record {
                    forward = below;
                    bounded = omega arith;
                    passed = λ e i. sure.cursor_keeps r.to_bn w1 e (all e (Within-batch e i));
                    kept = kept;
                    only = only;
                  },
                )
          | inr h ↦
              rw (sure.with_cursor, h)
                (
                  b,
                  refl,
                  record {
                    forward = f.forward;
                    bounded = f.bounded;
                    passed = λ e i. sure.cursor_keeps r.to_bn w1 e (f.passed e i);
                    kept = kept;
                    only = only;
                  },
                )
        ]

    accepted-Polled :
        (w : W) (n : W × Bool)
        → n ≡ notify o (decode_all o.decode raw) w
        → Polled r b w (accepted o r.to_bn (polled_to b) n)
    unfolding accepted
    accepted-Polled w (w1, true) e =
        advance-Polled w w1
          (subst (Moved o blocks Recorded b b r.to_bn w) (ap (λ (x : W × Bool). x.0) (sym e))
            (told-Moved w))
          (λ x m.
            subst (λ v. Recorded v x) (ap (λ (x : W × Bool). x.0) (sym e))
              (notify_records (decode_all o.decode raw) w (ap (λ (x : W × Bool). x.1) (sym e)) x m))
          true
    accepted-Polled w (w1, false) e = (
      b,
      refl,
      subst (Moved o blocks Recorded b b r.to_bn w) (ap (λ (x : W × Bool). x.0) (sym e))
          (told-Moved w),
    )

  fetched-Polled :
      (chunk b : ℕ) (r : BlockRange) (w : W) (f : Fetched Log)
      → r.from_bn ≡ b + 1
      → b ≤ r.to_bn
      → o.fetch chunk r.from_bn r.to_bn ≡ f
      → Polled r b w (fetched o f r.to_bn (polled_to b) w)
  unfolding fetched
  fetched-Polled chunk b r w (logs raw) begins below e =
      accepted-Polled r b begins below raw (sure.answers chunk r.from_bn r.to_bn raw e) w _ refl
  fetched-Polled chunk b r w too_many_results begins below e =
      (b, refl, Moved-nowhere o blocks Recorded b r.to_bn w below)
  fetched-Polled chunk b r w send_failed begins below e =
      (b, refl, Moved-nowhere o blocks Recorded b r.to_bn w below)

  pub poll_range-Polled :
      (chunk b : ℕ) (r : BlockRange) (w : W)
      → r.from_bn ≡ b + 1
      → b ≤ r.to_bn
      → Polled r b w (poll_range o chunk r (polled_to b) w)
  unfolding poll_range
  poll_range-Polled chunk b r w begins below = fetched-Polled chunk b r w _ begins below refl
