-- ===== src/Chain/Poller/Range.antt =====
-- The block range of one poll.
use kvorum.Base.{
  ltb, if◌then◌else◌, ltb→lt, Bool-cases, get_or_default, ℕ, ◌+◌, ◌-◌, ◌≤◌, ◌≡◌, ◌⊎◌, inl, inr,
  true, false, none, some, arith,
}
use kvorum.Chain.Poller.{
  default_max_blocks_per_chunk, polled_to, resolve_range, PollerOptions, BlockRange,
}

module _ {W Log Event : Type 0} (o : PollerOptions W Log Event) where
  abbrev pub span : ℕ
  span = get_or_default o.max_blocks_per_tick default_max_blocks_per_chunk

  -- The range behind a watermark begins right behind it, is not empty, ends at the head at the
  -- latest, and reaches the head or is as large as the chunk size.
  pub record Follows (b head : ℕ) (r : BlockRange) : Type 0 where
    pub begins : r.from_bn ≡ b + 1
    pub some_block : r.from_bn ≤ r.to_bn
    pub below : r.to_bn ≤ head
    pub full : ((r.to_bn ≡ head) × (head ≤ b + span)) ⊎ (r.to_bn ≡ b + span)

  abbrev next_range : ℕ → ℕ → BlockRange
  next_range b head = record {
    from_bn = b + 1;
    to_bn = if ltb span (head - (b + 1) + 1) then b + 1 + span - 1 else head;
  }

  next_range-Follows :
      (b head : ℕ) → 1 ≤ span → ltb head (b + 1) ≡ false → Follows b head (next_range b head)
  next_range-Follows b head s h = ground arith

  pub resolve-Follows :
      (b head : ℕ) (w : W)
      → o.has_cursor ≡ true
      → 1 ≤ span
      → ((resolve_range o (polled_to b) head w ≡ (polled_to b, none)) × (head ≤ b))
        ⊎ ((r : BlockRange) × (resolve_range o (polled_to b) head w ≡ (polled_to b, some r))
            × Follows b head r)
  unfolding resolve_range
  resolve-Follows b head w c s = elim (Bool-cases (ltb head (b + 1))) [
    | inl h ↦ inl (ground arith, omega (arith, ltb→lt head (b + 1) h))
    | inr h ↦ inr (next_range b head, rw (c, h), next_range-Follows b head s h)
  ]
