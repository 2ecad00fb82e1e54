-- ===== src/Chain/RangeFetcher/Progress.antt =====
-- How far a round of the fetcher moves on, and how its chunks shrink.
use kvorum.Base.{
  leb, Bool-cases, ℕ, zero, suc, ◌+◌, ◌≤◌, ◌<◌, max, ◌≡◌, refl, ◌⊎◌, inl, inr, List, arith,
}
use native.Mathlib.Nat.{le_refl}
use kvorum.Chain.Logs.{Fetched, logs, too_many_results, send_failed}
use kvorum.Chain.RangeFetcher.{
  chunk_floor, chunk_end, shrunk, chunk, chunk_failed, chunk_no_fuel, fetch_chunk, Options,
  ChunkFetch,
}

pub shrunk_bounds : (size : ℕ) → chunk_floor < size → (shrunk size < size) × (1 ≤ shrunk size)
shrunk_bounds size h = omega arith

chunk_end_bounds :
    (from size max : ℕ)
    → 1 ≤ size
    → from ≤ max
    → (from ≤ chunk_end from size max)
      × (chunk_end from size max ≤ max)
      × (chunk_end from size max < from + size)
unfolding chunk_end
chunk_end_bounds from size max s h = ground arith

pub Fetched-cases :
    {Log : Type 0} (f : Fetched Log)
    → ((raw : List Log) × (f ≡ logs raw)) ⊎ (f ≡ too_many_results) ⊎ (f ≡ send_failed)
Fetched-cases (logs raw) = inl (raw, refl)
Fetched-cases too_many_results = inr (inl refl)
Fetched-cases send_failed = inr (inr refl)

-- What a fetched chunk looks like: it holds the answer to a call for its range, which begins at
-- `current` and ends inside the range of the run; it is not larger than the size that it was fetched
-- with, which is positive and not larger than the size before.
abbrev pub ChunkFits :
    {Log : Type 0} → (ℕ → ℕ → ℕ → Fetched Log) → ℕ → ℕ → ℕ → ChunkFetch Log → Type 0
ChunkFits fetch current size max (chunk raw end size' calls) =
    ((k : ℕ) × (fetch k current end ≡ logs raw))
    × (current ≤ end)
    × (end ≤ max)
    × (end < current + size')
    × (1 ≤ size')
    × (size' ≤ size)
ChunkFits fetch current size max (chunk_failed err) = Unit {0}
ChunkFits fetch current size max chunk_no_fuel = ⊥

ChunkFits-le :
    {Log : Type 0} (fetch : ℕ → ℕ → ℕ → Fetched Log) (current size size' max : ℕ)
    (c : ChunkFetch Log)
    → size ≤ size'
    → ChunkFits fetch current size max c
    → ChunkFits fetch current size' max c
ChunkFits-le fetch current size size' max (chunk raw end s calls) h f =
    (f.0, f.1, f.2, f.3, f.4, omega arith)
ChunkFits-le fetch current size size' max (chunk_failed err) h f = f
ChunkFits-le fetch current size size' max chunk_no_fuel h f = f

module _ {W Log Event : Type 0} (o : Options W Log Event) where
  -- The inner loop ends within its fuel.
  pub fetch_chunk_fits :
      (fuel current size calls : ℕ)
      → size < fuel
      → 1 ≤ size
      → current ≤ o.to_block
      → ChunkFits o.fetch current size o.to_block (fetch_chunk o fuel current size calls)
  unfolding fetch_chunk
  fetch_chunk_fits zero current size calls f s c = absurd (omega arith)
  fetch_chunk_fits (suc fuel) current size calls f s c =
      let end = chunk_end current size o.to_block in
      let (a, b, d) = chunk_end_bounds current size o.to_block s c in
      elim (Fetched-cases (o.fetch calls current end)) [
        | inl (raw, e) ↦ rw (e, fetch_chunk) ((calls, e), a, b, d, s, le_refl size)
        | inr (inr e) ↦ rw (e, fetch_chunk) tt
        | inr (inl e) ↦ elim (Bool-cases (leb size chunk_floor)) [
          | inl l ↦ rw (e, fetch_chunk, l) tt
          | inr l ↦
              let (small, one) = shrunk_bounds size (ground arith) in
              rw (e, fetch_chunk, l)
                (ChunkFits-le o.fetch current (shrunk size) size o.to_block _ (omega arith)
                  (fetch_chunk_fits fuel current (shrunk size) (suc calls) (omega arith) one c))
        ]
      ]
