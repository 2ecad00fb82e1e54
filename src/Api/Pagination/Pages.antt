-- ===== src/Api/Pagination/Pages.antt =====
-- The pages of a list, fetched one after another by `next_cursor`.
use kvorum.Base.{
  leb, lt→ltb, le→not-ltb, Bool-cases, length, take, drop, keep, All, All-split, append-take-drop,
  length-drop, ℕ, zero, suc, ◌≤◌, ◌<◌, String, ◌≡◌, refl, sym, ap, ◌∙◌, subst, inl, inr, true,
  false, Option, none, some, List, [], ◌∷◌, ◌++◌, append_assoc, arith, eq_iff,
}
use kvorum.Sources.Calldata.Hex.{Text}
use kvorum.Api.Pagination.{
  is_more, last_row, compare_sort_keys, encode_cursor, insert_row, sort_rows, sort_and_seek,
  cursor_behind, build_pagination, page_of, list_page, SortKey, CursorPayload, Codec, Page,
}
use kvorum.Api.Pagination.Order.{key_by, IsOrder, KeyParts}
use kvorum.Api.Pagination.Cursor.{decode_cursor-encode_cursor, TagLaws, IsReadable}
use kvorum.Api.Pagination.Seek.{
  Sorted, Distinct, sort_rows-All, sort_rows-Sorted, after_row, keep-after,
}

last-take :
    {A : Type 0} (xs : List A) (n : ℕ)
    → 1 ≤ n
    → n ≤ length xs
    → (front : List A) × (l : A) × (take n xs ≡ front ++ (l ∷ [])) × (last_row (take n xs) ≡ some l)
last-take [] n h k = ground arith
last-take (x ∷ xs) zero h k = ground arith
last-take (x ∷ xs) (suc zero) h k = ([], x, refl, refl)
last-take (x ∷ []) (suc (suc n)) h k = ground arith
last-take (x ∷ y ∷ xs) (suc (suc n)) h k =
    let (front, l, e, is) = last-take (y ∷ xs) (suc n) (omega arith) (omega arith) in
    (x ∷ front, l, ap (λ t. x ∷ t) e, is)

-- Some rows before those that are still to come, if they come.
abbrev pub onward : {A : Type 0} → List A → Option (List A) → Option (List A)
onward shown none = none
onward shown (some rest) = some (shown ++ rest)

abbrev pub then_next :
    {A : Type 0} → (Text → Option (List A)) → List A → Option Text → Option (List A)
then_next next shown none = some shown
then_next next shown (some c) = onward shown (next c)

abbrev pub then_pages :
    {Row : Type 0} → (Text → Option (List Row)) → Option (Page Row) → Option (List Row)
then_pages next none = none
then_pages next (some p) = then_next next p.data_rows p.next_cursor

module _ (C : Codec) {Row : Type 0} (k : KeyParts Row) (canonical : String) (rows : List Row)
    (limit : ℕ) where
  -- The rows of all pages from a cursor on, each page asked for by the cursor of the one before.
  unfoldable pub fetched : ℕ → Option Text → Option (List Row)
  fetched zero cursor = none
  fetched (suc fuel) cursor =
      then_pages (λ c. fetched fuel (some c)) (list_page C (key_by k) canonical rows limit cursor)

  abbrev row_payload : Row → CursorPayload
  row_payload r = record { key = key_by k r; q = canonical }

  abbrev page_of_rest : List Row → Page Row
  page_of_rest ys = build_pagination C ys limit row_payload

  first_page :
      list_page C (key_by k) canonical rows limit none
      ≡ some (page_of_rest (sort_rows C (key_by k) rows))
  unfolding list_page sort_and_seek
  first_page = refl

  last_page :
      (ys : List Row)
      → length ys ≤ limit
      → page_of_rest ys ≡ record { data_rows = ys; has_more = false; next_cursor = none }
  unfolding build_pagination
  last_page ys h = rw (le→not-ltb (length ys) limit h) refl

  full_page :
      (ys : List Row) (l : Row)
      → limit < length ys
      → last_row (take limit ys) ≡ some l
      → page_of_rest ys ≡ record {
        data_rows = take limit ys;
        has_more = true;
        next_cursor = some (encode_cursor C (row_payload l));
      }
  unfolding build_pagination cursor_behind
  full_page ys l h e = rw (lt→ltb limit (length ys) h, e) refl

  module _ (T : TagLaws C) (readable : All (λ r. IsReadable C (row_payload r)) rows)
      (locale : IsOrder C.locale_compare) (distinct : Distinct C locale k rows)
      (positive : 1 ≤ limit) where
    behind_cursor :
        (done : List Row) (r : Row) (rest : List Row)
        → sort_rows C (key_by k) rows ≡ done ++ (r ∷ rest)
        → list_page C (key_by k) canonical rows limit (some (encode_cursor C (row_payload r)))
          ≡ some (page_of_rest rest)
    unfolding list_page page_of sort_and_seek after_row
    behind_cursor done r rest e =
        let own =
          (All-split _ done (r ∷ rest) (
            subst (All (λ x. IsReadable C (row_payload x))) e
              (sort_rows-All C locale k _ rows readable))).1.0 in
        let sorted = subst (Sorted C locale k) e (sort_rows-Sorted C locale k rows distinct) in
        rw
          (decode_cursor-encode_cursor C (row_payload r) T own, (eq_iff canonical canonical).1 refl)
          (ap (λ ys. some (page_of_rest ys))
            (ap (keep (after_row C locale k r)) e ∙ keep-after C locale k done r rest sorted))

    split_page :
        (done ys front : List Row) (l : Row)
        → sort_rows C (key_by k) rows ≡ done ++ ys
        → take limit ys ≡ front ++ (l ∷ [])
        → (sort_rows C (key_by k) rows ≡ (done ++ front) ++ (l ∷ drop limit ys))
          × (sort_rows C (key_by k) rows ≡ (done ++ take limit ys) ++ drop limit ys)
    split_page done ys front l e te =
        let whole = e ∙ ap (λ t. done ++ t) (sym (append-take-drop limit ys)) in
        (
          whole
              ∙ ap (λ t. done ++ (t ++ drop limit ys)) te
              ∙ ap (λ t. done ++ t) (append_assoc front (l ∷ []) (drop limit ys))
              ∙ sym (append_assoc done front (l ∷ drop limit ys)),
          whole ∙ sym (append_assoc done (take limit ys) (drop limit ys)),
        )

    full_page_fetched :
        (fuel : ℕ) (ys : List Row) (l : Row) (cursor : Option Text)
        → list_page C (key_by k) canonical rows limit cursor ≡ some (page_of_rest ys)
        → limit < length ys
        → last_row (take limit ys) ≡ some l
        → fetched fuel (some (encode_cursor C (row_payload l))) ≡ some (drop limit ys)
        → fetched (suc fuel) cursor ≡ some ys
    unfolding fetched
    full_page_fetched fuel ys l cursor h more_rows is next =
        rw (h, full_page ys l more_rows is, next) (ap some (append-take-drop limit ys))

    rest_fetched :
        (fuel : ℕ) (done ys : List Row) (cursor : Option Text)
        → sort_rows C (key_by k) rows ≡ done ++ ys
        → list_page C (key_by k) canonical rows limit cursor ≡ some (page_of_rest ys)
        → length ys ≤ fuel
        → fetched (suc fuel) cursor ≡ some ys
    unfolding fetched
    rest_fetched zero done ys cursor e h l = rw (h, last_page ys (omega arith)) refl
    rest_fetched (suc fuel) done ys cursor e h bound = elim (Bool-cases (leb (length ys) limit)) [
      | inl g ↦ rw (h, last_page ys (ground arith)) refl
      | inr g ↦
          let more_rows : limit < length ys = ground arith in
          let (front, l, te, is) = last-take ys limit positive (omega arith) in
          let (at, e') = split_page done ys front l e te in
          full_page_fetched (suc fuel) ys l cursor h more_rows is (
            rest_fetched fuel (done ++ take limit ys) (drop limit ys)
              (some (encode_cursor C (row_payload l))) e'
              (behind_cursor (done ++ front) l (drop limit ys) at)
              (omega (arith, length-drop limit ys)))
    ]

length-insert_row :
    (C : Codec) {Row : Type 0} (key_of : Row → SortKey) (r : Row) (rs : List Row)
    → length (insert_row C key_of r rs) ≡ suc (length rs)
unfolding insert_row
length-insert_row C key_of r [] = refl
length-insert_row C key_of r (x ∷ xs) =
    elim (Bool-cases (is_more (compare_sort_keys C (key_of r) (key_of x)))) [
      | inl e ↦ rw (e, insert_row) (ap suc (length-insert_row C key_of r xs))
      | inr e ↦ rw (e, insert_row) refl
    ]

length-sort_rows :
    (C : Codec) {Row : Type 0} (key_of : Row → SortKey) (rs : List Row)
    → length (sort_rows C key_of rs) ≡ length rs
unfolding sort_rows
length-sort_rows C key_of [] = refl
length-sort_rows C key_of (r ∷ rs) =
    length-insert_row C key_of r (sort_rows C key_of rs) ∙ ap suc (length-sort_rows C key_of rs)

-- If no two rows of a list have the same sort key, `localeCompare` is an order, and the tags and the
-- rows' payloads can be read back, the pages of the list, each asked for by the cursor of the one
-- before, give all its rows once and in order, whatever the positive limit; there are no more pages
-- than rows and one.
pub fetched-sort_rows :
    (C : Codec) {Row : Type 0} (k : KeyParts Row) (canonical : String) (rows : List Row) (limit : ℕ)
    → TagLaws C
    → All (λ r. IsReadable C (row_payload C k canonical rows limit r)) rows
    → (locale : IsOrder C.locale_compare) → Distinct C locale k rows
    → 1 ≤ limit
    → fetched C k canonical rows limit (suc (length rows)) none ≡ some (sort_rows C (key_by k) rows)
fetched-sort_rows C k canonical rows limit T readable locale distinct positive =
    rest_fetched C k canonical rows limit T readable locale distinct positive (length rows) []
      (sort_rows C (key_by k) rows) none refl (first_page C k canonical rows limit)
      (omega (arith, length-sort_rows C (key_by k) rows))
