-- ===== src/Indexer/Derivation/Runs.antt =====
-- What `splitIntoDispatchRuns` gives.
use kvorum.Base.{
  Bool-cases, clash, length, concat, All, length-append, All-append, ◌≤◌, String, ◌≡◌, refl, sym,
  ap, ◌∙◌, subst, ◌≢◌, inl, inr, true, false, Option, some, List, [], ◌∷◌, ◌++◌, map, append-nil,
  append_assoc, arith, eq_iff,
}
use kvorum.Indexer.Derivation.{
  dispatch_key, same_key, flush, push_row, push_all, nothing_split, split_into_dispatch_runs,
  ArchiveRow, Splitting,
}

abbrev pub first_key : List ArchiveRow → String
first_key [] = ""
first_key (r ∷ rs) = dispatch_key r

-- A run holds a row, and all its rows have one key.
abbrev pub IsRun : List ArchiveRow → Type 0
IsRun rows = (1 ≤ length rows) × All (λ r. dispatch_key r ≡ first_key rows) rows

-- Neighbours have different keys.
abbrev pub Apart : List String → Type 0
Apart [] = Unit
Apart (k ∷ []) = Unit
Apart (k ∷ l ∷ ks) = (k ≢ l) × Apart (l ∷ ks)

Apart-snoc :
    (ks : List String) (a b : String) → Apart (ks ++ (a ∷ [])) → a ≢ b → Apart (ks ++ (a ∷ b ∷ []))
Apart-snoc [] a b h d = (d, tt)
Apart-snoc (k ∷ []) a b h d = (h.0, (d, tt))
Apart-snoc (k ∷ l ∷ ks) a b h d = (h.0, Apart-snoc (l ∷ ks) a b h.1 d)

-- The variables stand for the rows done: the runs so far and the current one.
pub record Split (done : List ArchiveRow) (s : Splitting) : Type 0 where
  pub rows_are : concat s.runs ++ s.current ≡ done
  pub runs_are : All IsRun s.runs
  pub current_is : IsRun s.current
  pub key_is : s.current_key ≡ some (first_key s.current)
  pub apart : Apart (map first_key s.runs ++ (first_key s.current ∷ []))

concat-snoc :
    (runs : List (List ArchiveRow)) (run : List ArchiveRow)
    → concat (runs ++ (run ∷ [])) ≡ concat runs ++ run
concat-snoc [] run = append-nil run
concat-snoc (r ∷ runs) run =
    ap (λ rest. r ++ rest) (concat-snoc runs run) ∙ sym (append_assoc r (concat runs) run)

map-snoc :
    (runs : List (List ArchiveRow)) (run : List ArchiveRow)
    → map first_key (runs ++ (run ∷ [])) ≡ map first_key runs ++ (first_key run ∷ [])
map-snoc [] run = refl
map-snoc (r ∷ runs) run = ap (λ rest. first_key r ∷ rest) (map-snoc runs run)

first_key-append : (xs ys : List ArchiveRow) → 1 ≤ length xs → first_key (xs ++ ys) ≡ first_key xs
first_key-append [] ys h = ground (arith, h)
first_key-append (x ∷ xs) ys h = refl

IsRun-snoc :
    (run : List ArchiveRow) (row : ArchiveRow)
    → IsRun run
    → dispatch_key row ≡ first_key run
    → IsRun (run ++ (row ∷ []))
IsRun-snoc run row h e = (
  omega (arith, h.0, length-append run (row ∷ [])),
  subst (λ (k : String). All (λ r. dispatch_key r ≡ k) (run ++ (row ∷ [])))
      (sym (first_key-append run (row ∷ []) h.0))
      (All-append (λ r. dispatch_key r ≡ first_key run) run (row ∷ []) h.1 (e, tt)),
)

singleton-IsRun : (row : ArchiveRow) → IsRun (row ∷ [])
singleton-IsRun row = (omega arith, (refl, tt))

same_key→eq :
    (k : String) (o : Option String) (c : String) → o ≡ some c → same_key k o ≡ true → k ≡ c
same_key→eq k o c e h = (eq_iff k c).0 (subst (λ (x : Option String). same_key k x ≡ true) e h)

other_key→ne :
    (k : String) (o : Option String) (c : String) → o ≡ some c → same_key k o ≡ false → c ≢ k
other_key→ne k o c e h same =
    clash ((eq_iff k c).1 (sym same)) (subst (λ (x : Option String). same_key k x ≡ false) e h)

-- A row of the current key joins the current run.
joins-Split :
    (done : List ArchiveRow) (row : ArchiveRow) (s : Splitting)
    → Split done s
    → same_key (dispatch_key row) s.current_key ≡ true
    → Split (done ++ (row ∷ [])) (push_row row s)
unfolding push_row
joins-Split done row s h e =
    let head = first_key-append s.current (row ∷ []) h.current_is.0 in
    rw (e, push_row)
      (record {
        rows_are =
            sym (append_assoc (concat s.runs) s.current (row ∷ []))
            ∙ ap (λ l. l ++ (row ∷ [])) h.rows_are;
        runs_are = h.runs_are;
        current_is =
            IsRun-snoc s.current row h.current_is
              (same_key→eq (dispatch_key row) s.current_key (first_key s.current) h.key_is e);
        key_is = h.key_is ∙ ap some (sym head);
        apart = subst (λ (k : String). Apart (map first_key s.runs ++ (k ∷ []))) (sym head) h.apart;
      })

flush_run :
    (runs : List (List ArchiveRow)) (run : List ArchiveRow)
    → 1 ≤ length run
    → flush runs run ≡ runs ++ (run ∷ [])
flush_run runs [] h = ground (arith, h)
flush_run runs (r ∷ rs) h = refl

-- A row of another key starts a run.
starts-Split :
    (done : List ArchiveRow) (row : ArchiveRow) (s : Splitting)
    → Split done s
    → same_key (dispatch_key row) s.current_key ≡ false
    → Split (done ++ (row ∷ [])) (push_row row s)
unfolding push_row
starts-Split done row s h e =
    let flushed = flush_run s.runs s.current h.current_is.0 in
    rw (e, flushed, push_row)
      (record {
        rows_are = ap (λ l. l ++ (row ∷ [])) (concat-snoc s.runs s.current ∙ h.rows_are);
        runs_are = All-append IsRun s.runs (s.current ∷ []) h.runs_are (h.current_is, tt);
        current_is = singleton-IsRun row;
        key_is = refl;
        apart =
            subst Apart
              (sym (
                ap (λ ks. ks ++ (dispatch_key row ∷ [])) (map-snoc s.runs s.current)
                ∙ append_assoc (map first_key s.runs) (first_key s.current ∷ [])
                    (dispatch_key row ∷ [])))
              (Apart-snoc (map first_key s.runs) (first_key s.current) (dispatch_key row) h.apart
                (other_key→ne (dispatch_key row) s.current_key (first_key s.current) h.key_is e));
      })

push_all-Split :
    (rows done : List ArchiveRow) (s : Splitting)
    → Split done s
    → Split (done ++ rows) (push_all rows s)
push_all-Split [] done s h = subst (λ l. Split l s) (sym (append-nil done)) h
push_all-Split (r ∷ rows) done s h =
    subst (λ l. Split l (push_all rows (push_row r s))) (append_assoc done (r ∷ []) rows)
      (push_all-Split rows (done ++ (r ∷ [])) (push_row r s)
        (elim (Bool-cases (same_key (dispatch_key r) s.current_key)) [
          | inl e ↦ joins-Split done r s h e
          | inr e ↦ starts-Split done r s h e
        ]))

start-Split : (r : ArchiveRow) → Split (r ∷ []) (push_row r nothing_split)
unfolding push_row
start-Split r = record {
  rows_are = refl;
  runs_are = tt;
  current_is = singleton-IsRun r;
  key_is = refl;
  apart = tt;
}

-- The runs in order are the rows in order, each run holds a row and only rows of one key, and
-- neighbouring runs have different keys.
unfoldable pub AreRuns : List ArchiveRow → List (List ArchiveRow) → Type 0
AreRuns rows runs = (concat runs ≡ rows) × All IsRun runs × Apart (map first_key runs)

-- For any rows, the runs that `splitIntoDispatchRuns` gives hold the rows in their order when put
-- end to end, each run is not empty and has rows of one dispatch key only, and two neighbouring
-- runs have different keys.
pub split_into_dispatch_runs-AreRuns :
    (rows : List ArchiveRow) → AreRuns rows (split_into_dispatch_runs rows)
unfolding split_into_dispatch_runs push_row AreRuns
split_into_dispatch_runs-AreRuns [] = (refl, tt, tt)
split_into_dispatch_runs-AreRuns (r ∷ rows) =
    let s = push_all rows (push_row r nothing_split) in
    let h = push_all-Split rows (r ∷ []) (push_row r nothing_split) (start-Split r) in
    rw (flush_run s.runs s.current h.current_is.0) (
      concat-snoc s.runs s.current ∙ h.rows_are,
      All-append IsRun s.runs (s.current ∷ []) h.runs_are (h.current_is, tt),
      subst Apart (sym (map-snoc s.runs s.current)) h.apart,
    )
