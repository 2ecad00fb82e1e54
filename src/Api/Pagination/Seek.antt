-- ===== src/Api/Pagination/Seek.antt =====
-- What sortAndSeek leaves behind a cursor.
use kvorum.Base.{
  Bool-cases, clash, keep, All, All-split, ◌≡◌, refl, ap, ◌∙◌, inl, inr, Bool, true, false, List,
  [], ◌∷◌, ◌++◌,
}
use kvorum.Api.Pagination.{opposite, is_more, insert_row, sort_rows, Sign, Codec, less, same, more}
use kvorum.Api.Pagination.Order.{
  is_same, IsOrder-refl, key_by, row_sign, row_sign-IsOrder, IsOrder, KeyParts,
}

module _ (C : Codec) (locale : IsOrder C.locale_compare) {Row : Type 0} (k : KeyParts Row) where
  abbrev IsBefore : Row → Row → Type 0
  IsBefore a b = row_sign C locale k a b ≡ less

  -- Each row stands strictly before the later ones.
  abbrev pub Sorted : List Row → Type 0
  Sorted [] = Unit {0}
  Sorted (r ∷ rs) = All (IsBefore r) rs × Sorted rs

  -- No two rows have the same place.
  abbrev pub Distinct : List Row → Type 0
  Distinct [] = Unit {0}
  Distinct (r ∷ rs) = All (λ x. is_same (row_sign C locale k r x) ≡ false) rs × Distinct rs

  insert_row-All :
      (P : Row → Type 0) (r : Row) (rs : List Row)
      → P r
      → All P rs
      → All P (insert_row C (key_by k) r rs)
  unfolding insert_row
  insert_row-All P r [] h a = (h, tt)
  insert_row-All P r (x ∷ xs) h a = elim (Bool-cases (is_more (row_sign C locale k r x))) [
    | inl e ↦ rw (e, insert_row) (a.0, insert_row-All P r xs h a.1)
    | inr e ↦ rw (e, insert_row) (h, a)
  ]

  is_more→eq : (s : Sign) → is_more s ≡ true → s ≡ more
  is_more→eq less h = clash h refl
  is_more→eq same h = clash h refl
  is_more→eq more h = refl

  not_more→less : (s : Sign) → is_more s ≡ false → is_same s ≡ false → s ≡ less
  not_more→less less h g = refl
  not_more→less same h g = clash refl g
  not_more→less more h g = clash refl h

  All-behind :
      (r x : Row) (xs : List Row) → IsBefore r x → All (IsBefore x) xs → All (IsBefore r) xs
  All-behind r x [] h a = tt
  All-behind r x (y ∷ xs) h a =
      ((row_sign-IsOrder C locale k).less_trans r x y h a.0, All-behind r x xs h a.1)

  insert_row-Sorted :
      (r : Row) (rs : List Row)
      → All (λ x. is_same (row_sign C locale k r x) ≡ false) rs
      → Sorted rs
      → Sorted (insert_row C (key_by k) r rs)
  unfolding insert_row
  insert_row-Sorted r [] d s = (tt, tt)
  insert_row-Sorted r (x ∷ xs) d s = elim (Bool-cases (is_more (row_sign C locale k r x))) [
    | inl e ↦
        let before : IsBefore x r =
          (row_sign-IsOrder C locale k).swap r x ∙ ap opposite (is_more→eq _ e) in
        rw (e, insert_row)
          (insert_row-All (IsBefore x) r xs before s.0, insert_row-Sorted r xs d.1 s.1)
    | inr e ↦
        let before = not_more→less (row_sign C locale k r x) e d.0 in
        rw (e, insert_row) ((before, All-behind r x xs before s.0), s)
  ]

  pub sort_rows-All :
      (P : Row → Type 0) (rs : List Row) → All P rs → All P (sort_rows C (key_by k) rs)
  unfolding sort_rows
  sort_rows-All P [] h = tt
  sort_rows-All P (r ∷ rs) h =
      insert_row-All P r (sort_rows C (key_by k) rs) h.0 (sort_rows-All P rs h.1)

  pub sort_rows-Sorted : (rs : List Row) → Distinct rs → Sorted (sort_rows C (key_by k) rs)
  unfolding sort_rows
  sort_rows-Sorted [] d = tt
  sort_rows-Sorted (r ∷ rs) d =
      insert_row-Sorted r (sort_rows C (key_by k) rs) (sort_rows-All _ rs d.0)
        (sort_rows-Sorted rs d.1)

  unfoldable pub after_row : Row → Row → Bool
  after_row r x = is_more (row_sign C locale k x r)

  keep_behind : (r : Row) (rs : List Row) → All (IsBefore r) rs → keep (after_row r) rs ≡ rs
  unfolding after_row
  keep_behind r [] h = refl
  keep_behind r (x ∷ xs) h =
      rw ((row_sign-IsOrder C locale k).swap r x, h.0, keep_behind r xs h.1) refl

  -- Of sorted rows, those behind one are the later ones.
  pub keep-after :
      (done : List Row) (r : Row) (rest : List Row)
      → Sorted (done ++ (r ∷ rest))
      → keep (after_row r) (done ++ (r ∷ rest)) ≡ rest
  unfolding after_row
  keep-after [] r rest s =
      rw (IsOrder-refl (row_sign C locale k) (row_sign-IsOrder C locale k) r)
        (keep_behind r rest s.0)
  keep-after (x ∷ done) r rest s =
      rw ((All-split (IsBefore x) done (r ∷ rest) s.0).1.0) (keep-after done r rest s.1)
