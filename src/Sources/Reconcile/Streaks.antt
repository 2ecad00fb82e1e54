-- ===== src/Sources/Reconcile/Streaks.antt =====
-- What the reconcile driver tells of a history of attempts, without its map of streaks.
use kvorum.Base.{
  leb, if◌then◌else◌, Bool-cases, get_or_default, clash, ℕ, suc, ◌+◌, String, ◌≡◌, refl, sym, ap,
  ◌∙◌, inl, inr, Bool, true, false, Option, none, some, List, [], ◌∷◌, arith, str_eq, eq_iff,
}
use kvorum.Sources.Reconcile.{
  corrected, outcome, transient_rpc_error, other_error, recorded, escalated, Streaks, streak_of,
  delete, set, bound_of, handle_rpc_failure, settle, visit, visit_rows, on_confirmed_heads,
  StaleRow, ReconcileBound, Attempt, Event, Driver,
}

-- The attempts of rows, the latest first.
abbrev pub History : Type 0
History = List (String × Attempt)

-- The transient failures of a row since it was last reconciled. Other errors neither count nor end them.
abbrev pub failures_since : String → History → ℕ
failures_since id [] = 0
failures_since id ((i, a) ∷ h) =
    let before = failures_since id h in if str_eq i id then counted a before else before
  where
    counted : Attempt → ℕ → ℕ
    counted (corrected from to) n = 0
    counted (outcome o) n = 0
    counted transient_rpc_error n = suc n
    counted other_error n = n

streak_of-delete :
    (m : Streaks) (id j : String)
    → streak_of (delete m id) j ≡ (if str_eq id j then none else streak_of m j)
unfolding streak_of delete
streak_of-delete [] id j = either (str_eq id j)
  where
    either : (b : Bool) → ◌≡◌ {A = Option ℕ} none (if b then none else none)
    either true = refl
    either false = refl
streak_of-delete ((i, n) ∷ m) id j = elim (Bool-cases (str_eq i id)) [
  | inl e ↦
      let is = (eq_iff i id).0 e in
      rw (e, streak_of-delete m id j)
        (dropped_twice id j (some n) (streak_of m j) (str_eq i j) (ap (λ x. str_eq x j) is))
  | inr e ↦ elim (Bool-cases (str_eq i j)) [
    | inl g ↦ rw (e, g, not_the_other i id j e g) refl
    | inr g ↦ rw (e, g) (streak_of-delete m id j)
  ]
]
  where
    dropped_twice :
        (id j : String) (x y : Option ℕ) (b : Bool)
        → b ≡ str_eq id j
        → (if str_eq id j then none else y) ≡ (if str_eq id j then none else (if b then x else y))
    dropped_twice id j x y b h = elim (Bool-cases (str_eq id j)) [
      | inl e ↦ rw e refl
      | inr e ↦ rw (e, h ∙ e) refl
    ]

    not_the_other :
        (i id j : String) → str_eq i id ≡ false → str_eq i j ≡ true → str_eq id j ≡ false
    not_the_other i id j e g = elim (Bool-cases (str_eq id j)) [
      | inr h ↦ h
      | inl h ↦ clash ((eq_iff i id).1 ((eq_iff i j).0 g ∙ sym ((eq_iff id j).0 h))) e
    ]

deleted_count :
    (m : Streaks) (id j : String) (h : History)
    → get_or_default (streak_of m j) 0 ≡ failures_since j h
    → get_or_default (streak_of (delete m id) j) 0 ≡ (if str_eq id j then 0 else failures_since j h)
deleted_count m id j h e = elim (Bool-cases (str_eq id j)) [
  | inl g ↦ rw (streak_of-delete m id j, g) refl
  | inr g ↦ rw (streak_of-delete m id j, g) e
]

set_count :
    (m : Streaks) (id j : String) (h : History)
    → ((i : String) → get_or_default (streak_of m i) 0 ≡ failures_since i h)
    → get_or_default (streak_of (set m id (get_or_default (streak_of m id) 0 + 1)) j) 0
      ≡ (if str_eq id j then suc (failures_since j h) else failures_since j h)
unfolding streak_of
set_count m id j h e = elim (Bool-cases (str_eq id j)) [
  | inl g ↦ rw g (omega (arith, e id, ap (λ i. failures_since i h) ((eq_iff id j).0 g)))
  | inr g ↦ rw (g, streak_of-delete m id j, g) (e j)
]

either_way : (b : Bool) (n : ℕ) → n ≡ (if b then n else n)
either_way true n = refl
either_way false n = refl

abbrev pub new_driver : Driver
new_driver = record { streaks = []; events = [] }

-- A tick: the bounds that it is called with, and the rows that the query gives.
abbrev pub Tick : Type 0
Tick = List ReconcileBound × Option (List StaleRow)

module _ (reconcile_row : StaleRow → ReconcileBound → Attempt) where
  abbrev pub attempt_at : Option ReconcileBound → StaleRow → History → History
  attempt_at none row h = h
  attempt_at (some b) row h = (row.id, reconcile_row row b) ∷ h

  abbrev pub attempts_of : List ReconcileBound → List StaleRow → History → History
  attempts_of bounds [] h = h
  attempts_of bounds (row ∷ rows) h =
      attempts_of bounds rows (attempt_at (bound_of bounds row.chain_id) row h)

  abbrev pub tick_attempts : List ReconcileBound → Option (List StaleRow) → History → History
  tick_attempts bounds none h = h
  tick_attempts [] (some rows) h = h
  tick_attempts (b ∷ bs) (some rows) h = attempts_of (b ∷ bs) rows h

  abbrev pub attempts : List Tick → History → History
  attempts [] h = h
  attempts ((bounds, rows) ∷ ticks) h = attempts ticks (tick_attempts bounds rows h)

module _ (after : ℕ) where
  -- What should be told of a history: each attempt, and behind a failure that makes a streak long
  -- enough, its length.
  abbrev pub told : History → List Event
  told [] = []
  told ((i, corrected from to) ∷ h) = recorded i (corrected from to) ∷ told h
  told ((i, outcome o) ∷ h) = recorded i (outcome o) ∷ told h
  told ((i, other_error) ∷ h) = recorded i other_error ∷ told h
  told ((i, transient_rpc_error) ∷ h) =
      let rest = recorded i transient_rpc_error ∷ told h in
      let streak = failures_since i h + 1 in
      if leb after streak then escalated i streak ∷ rest else rest

module _ (after : ℕ) (reconcile_row : StaleRow → ReconcileBound → Attempt) where
  record Follows (d : Driver) (h : History) : Type 0 where
    counts : (id : String) → get_or_default (streak_of d.streaks id) 0 ≡ failures_since id h
    tells : d.events ≡ told after h

  settle-Follows :
      (row : StaleRow) (a : Attempt) (d : Driver) (h : History)
      → Follows d h
      → Follows (settle after row a d) ((row.id, a) ∷ h)
  unfolding settle handle_rpc_failure
  settle-Follows row (corrected from to) d h f = record {
    counts = λ id. deleted_count d.streaks row.id id h (f.counts id);
    tells = ap (λ es. recorded row.id (corrected from to) ∷ es) f.tells;
  }
  settle-Follows row (outcome o) d h f = record {
    counts = λ id. deleted_count d.streaks row.id id h (f.counts id);
    tells = ap (λ es. recorded row.id (outcome o) ∷ es) f.tells;
  }
  settle-Follows row transient_rpc_error d h f = record {
    counts = λ id. set_count d.streaks row.id id h f.counts;
    tells = rw (f.counts row.id, f.tells) refl;
  }
  settle-Follows row other_error d h f = record {
    counts = λ id. f.counts id ∙ either_way (str_eq row.id id) (failures_since id h);
    tells = ap (λ es. recorded row.id other_error ∷ es) f.tells;
  }

  abbrev pub ticked : List Tick → Driver → Driver
  ticked [] d = d
  ticked ((bounds, rows) ∷ ticks) d =
      ticked ticks (on_confirmed_heads after reconcile_row bounds rows d)

  visit-Follows :
      (o : Option ReconcileBound) (row : StaleRow) (d : Driver) (h : History)
      → Follows d h
      → Follows (visit after reconcile_row o row d) (attempt_at reconcile_row o row h)
  unfolding visit
  visit-Follows none row d h f = f
  visit-Follows (some b) row d h f = settle-Follows row (reconcile_row row b) d h f

  visit_rows-Follows :
      (bounds : List ReconcileBound) (rows : List StaleRow) (d : Driver) (h : History)
      → Follows d h
      → Follows
          (visit_rows after reconcile_row bounds rows d)
          (attempts_of reconcile_row bounds rows h)
  unfolding visit_rows
  visit_rows-Follows bounds [] d h f = f
  visit_rows-Follows bounds (row ∷ rows) d h f =
      visit_rows-Follows bounds rows _ _ (visit-Follows (bound_of bounds row.chain_id) row d h f)

  tick-Follows :
      (bounds : List ReconcileBound) (rows : Option (List StaleRow)) (d : Driver) (h : History)
      → Follows d h
      → Follows
          (on_confirmed_heads after reconcile_row bounds rows d)
          (tick_attempts reconcile_row bounds rows h)
  unfolding on_confirmed_heads
  tick-Follows [] none d h f = f
  tick-Follows [] (some rows) d h f = f
  tick-Follows (b ∷ bs) none d h f = f
  tick-Follows (b ∷ bs) (some rows) d h f = visit_rows-Follows (b ∷ bs) rows d h f

  ticked-Follows :
      (ticks : List Tick) (d : Driver) (h : History)
      → Follows d h
      → Follows (ticked ticks d) (attempts reconcile_row ticks h)
  ticked-Follows [] d h f = f
  ticked-Follows ((bounds, rows) ∷ ticks) d h f =
      ticked-Follows ticks _ _ (tick-Follows bounds rows d h f)

  new_driver-Follows : Follows new_driver []
  unfolding streak_of
  new_driver-Follows = record { counts = λ id. refl; tells = refl }

  -- Over any ticks the driver tells of each attempt in order, and escalates just the transient failures
  -- of a row that are at least the threshold's since it was last reconciled, with their number. An
  -- error of another kind in between neither counts nor starts the count again, although the runbook
  -- says that the failures are consecutive.
  pub ticked-told :
      (ticks : List Tick)
      → (ticked ticks new_driver).events ≡ told after (attempts reconcile_row ticks [])
  ticked-told ticks = (ticked-Follows ticks new_driver [] new_driver-Follows).tells
