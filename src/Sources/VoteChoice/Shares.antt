-- ===== src/Sources/VoteChoice/Shares.antt =====
-- The scaled weights of the entries: their sum and their order.
use kvorum.Base.{
  Bool-cases, All, ℕ, ◌+◌, ◌*◌, ◌/◌, ◌≤◌, ◌<◌, ◌≡◌, refl, inl, inr, true, false, List, [], ◌∷◌, map,
  arith,
}
use kvorum.Sources.VoteChoice.{
  scale, before, insert_entry, sort_entries, total_raw, sum, add_residue, Entry,
}
use native.Mathlib.Nat.{add-mul, div-mul-le_self, le_of_mul-le-mul_right}

abbrev pub share : ℕ → Entry → ℕ
share total e = e.raw * scale / total

-- The shares that are rounded down are together no more than the whole.
sum-share-le :
    (total : ℕ) (es : List Entry) → sum (map (share total) es) * total ≤ total_raw es * scale
unfolding sum total_raw
sum-share-le total [] = omega arith
sum-share-le total (e ∷ es) = omega (
  arith,
  add-mul (share total e) (sum (map (share total) es)) total,
  div-mul-le_self (e.raw * scale) total,
  sum-share-le total es,
)

total_raw-insert_entry :
    (e : Entry) (es : List Entry) → total_raw (insert_entry e es) ≡ e.raw + total_raw es
unfolding total_raw insert_entry
total_raw-insert_entry e [] = refl
total_raw-insert_entry e (x ∷ xs) = elim (Bool-cases (before e x)) [
  | inl h ↦ rw (h, insert_entry) refl
  | inr h ↦ rw (h, insert_entry) (omega (arith, total_raw-insert_entry e xs))
]

pub total_raw-sort_entries : (es : List Entry) → total_raw (sort_entries es) ≡ total_raw es
unfolding total_raw sort_entries
total_raw-sort_entries [] = refl
total_raw-sort_entries (e ∷ es) =
    omega (arith, total_raw-insert_entry e (sort_entries es), total_raw-sort_entries es)

pub sum-shares-le-scale :
    (es : List Entry) → 0 < total_raw es → sum (map (share (total_raw es)) es) ≤ scale
sum-shares-le-scale es h =
    le_of_mul-le-mul_right {k = total_raw es} (omega (arith, sum-share-le (total_raw es) es)) h

pub sum-add_residue :
    (s : ℕ) (ss : List ℕ) → sum (s ∷ ss) ≤ scale → sum (add_residue (s ∷ ss)) ≡ scale
unfolding sum add_residue
sum-add_residue s ss h = omega arith

-- The entries stand with the largest weights first.
abbrev pub Falling : List Entry → Type 0
Falling [] = Unit {0}
Falling (e ∷ es) = All (λ x. x.raw ≤ e.raw) es × Falling es

insert_entry-All :
    (P : Entry → Type 0) (e : Entry) (es : List Entry) → P e → All P es → All P (insert_entry e es)
unfolding insert_entry
insert_entry-All P e [] h k = (h, tt)
insert_entry-All P e (x ∷ xs) h k = elim (Bool-cases (before e x)) [
  | inl b ↦ rw (b, insert_entry) (h, k)
  | inr b ↦ rw (b, insert_entry) (k.0, insert_entry-All P e xs h k.1)
]

pub sort_entries-All : (P : Entry → Type 0) (es : List Entry) → All P es → All P (sort_entries es)
unfolding sort_entries
sort_entries-All P [] h = tt
sort_entries-All P (e ∷ es) h =
    insert_entry-All P e (sort_entries es) h.0 (sort_entries-All P es h.1)

before-raw : (e x : Entry) → before e x ≡ true → x.raw ≤ e.raw
before-raw e x h = ground arith

not-before-raw : (e x : Entry) → before e x ≡ false → e.raw ≤ x.raw
not-before-raw e x h = ground arith

All-raw-le : (a b : ℕ) (es : List Entry) → a ≤ b → All (λ x. x.raw ≤ a) es → All (λ x. x.raw ≤ b) es
All-raw-le a b [] h k = tt
All-raw-le a b (x ∷ es) h k = (omega (arith, k.0), All-raw-le a b es h k.1)

insert_entry-Falling : (e : Entry) (es : List Entry) → Falling es → Falling (insert_entry e es)
unfolding insert_entry
insert_entry-Falling e [] f = (tt, tt)
insert_entry-Falling e (x ∷ xs) f = elim (Bool-cases (before e x)) [
  | inl b ↦
      let le = before-raw e x b in rw (b, insert_entry) ((le, All-raw-le x.raw e.raw xs le f.0), f)
  | inr b ↦
      rw (b, insert_entry)
        (
          insert_entry-All (λ y. y.raw ≤ x.raw) e xs (not-before-raw e x b) f.0,
          insert_entry-Falling e xs f.1,
        )
]

pub sort_entries-Falling : (es : List Entry) → Falling (sort_entries es)
unfolding sort_entries
sort_entries-Falling [] = tt
sort_entries-Falling (e ∷ es) = insert_entry-Falling e (sort_entries es) (sort_entries-Falling es)
