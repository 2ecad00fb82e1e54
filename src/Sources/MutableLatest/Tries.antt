-- ===== src/Sources/MutableLatest/Tries.antt =====
-- What the tries of one delivery write, and when the two stores agree.
use kvorum.Base.{
  leb, if◌then◌else◌, le→leb, Bool-cases, get_or_default, clash, Option-clash, and_true, ℕ, ◌+◌,
  ◌≤◌, String, ◌≡◌, refl, sym, ap, ◌∙◌, subst, inl, inr, Bool, true, false, ◌&&◌, Option, none,
  some, List, [], ◌∷◌, arith, str_eq, eq_iff,
}
use kvorum.Sources.MutableLatest.{
  find_by_external_id, version_below, updated, re_archive_offchain, has_hash, written_row,
  archive_version, apply_off_chain_mutable_latest, MutableLatestItem, ArchiveEvent, WrittenRow,
  Archive, MutableLatestOutcome, Cut, before_write, behind_write,
}

-- The row that ClickHouse keeps for an id: of the highest version the last one written.
abbrev pub newer_of : WrittenRow → Option WrittenRow → Option WrittenRow
newer_of r none = some r
newer_of r (some w) = if leb w.version r.version then some r else some w

abbrev pub latest : String → List WrittenRow → Option WrittenRow
latest id [] = none
latest id (r ∷ rs) =
    let before = latest id rs in if str_eq r.external_id id then newer_of r before else before

-- Both stores hold the same content and version of an item, or neither has it.
abbrev pub Agrees : Option ArchiveEvent → Option WrittenRow → Type 0
Agrees none none = Unit
Agrees none (some w) = ⊥
Agrees (some e) none = ⊥
Agrees (some e) (some w) = (e.content_hash ≡ some w.content_hash) × (e.version ≡ some w.version)

abbrev pub IsConsistent : Archive → Type 0
IsConsistent s = (id : String) → Agrees (find_by_external_id id s.events) (latest id s.written)

-- Tries that are cut short, then one that is not.
abbrev pub deliver : MutableLatestItem → List Cut → Archive → Archive
deliver item [] s = (apply_off_chain_mutable_latest item none s).0
deliver item (f ∷ cuts) s = deliver item cuts (apply_off_chain_mutable_latest item (some f) s).0

-- The version of an item after a delivery: one more if its content is new.
abbrev pub next_version : MutableLatestItem → Option ArchiveEvent → Option ℕ
next_version item none = some 1
next_version item (some e) =
    if has_hash e.content_hash item.content_hash
    then e.version
    else some (get_or_default e.version 0 + 1)

found_here :
    (b : Bool) {x e : ArchiveEvent} (o : Option ArchiveEvent)
    → b ≡ true
    → (if b then some x else o) ≡ some e
    → x ≡ e
found_here true {x} o h k = ap (λ p. get_or_default p x) k
found_here false o h k = clash h refl

found_behind :
    (b : Bool) (x : ArchiveEvent) {e : ArchiveEvent} (o : Option ArchiveEvent)
    → b ≡ false
    → (if b then some x else o) ≡ some e
    → o ≡ some e
found_behind true x o h k = clash refl h
found_behind false x o h k = k

module _ (item : MutableLatestItem) (version : ℕ) where
  -- No row of the item is above a version.
  abbrev pub Below : Option WrittenRow → Type 0
  Below none = Unit
  Below (some w) = w.version ≤ version

  newer-written :
      (o : Option WrittenRow)
      → Below o
      → newer_of (written_row item version) o ≡ some (written_row item version)
  newer-written none h = refl
  newer-written (some w) h = rw (le→leb w.version version h) refl

  latest-own :
      (rows : List WrittenRow)
      → Below (latest item.external_id rows)
      → latest item.external_id (written_row item version ∷ rows) ≡ some (written_row item version)
  latest-own rows h =
      rw ((eq_iff item.external_id item.external_id).1 refl)
        (newer-written (latest item.external_id rows) h)

  latest-other :
      (rows : List WrittenRow) (id : String)
      → str_eq item.external_id id ≡ false
      → latest id (written_row item version ∷ rows) ≡ latest id rows
  latest-other rows id h = rw h refl

  pub find-re_archive_other :
      (events : List ArchiveEvent) (id : String)
      → str_eq item.external_id id ≡ false
      → find_by_external_id id (re_archive_offchain item version events)
        ≡ find_by_external_id id events
  find-re_archive_other [] id h = refl
  find-re_archive_other (e ∷ es) id h =
      elim (Bool-cases (str_eq e.external_id item.external_id && version_below e.version version)) [
        | inl b ↦
            let is = (eq_iff e.external_id item.external_id).0 (and_true _ _ b).0 in
            rw (b, h, ap (λ x. str_eq x id) is ∙ h) (find-re_archive_other es id h)
        | inr b ↦ elim (Bool-cases (str_eq e.external_id id)) [
          | inl g ↦ rw (b, g) refl
          | inr g ↦ rw (b, g) (find-re_archive_other es id h)
        ]
      ]

  pub find-re_archive :
      (events : List ArchiveEvent) (e : ArchiveEvent)
      → find_by_external_id item.external_id events ≡ some e
      → version_below e.version version ≡ true
      → find_by_external_id item.external_id (re_archive_offchain item version events)
        ≡ some (updated item version)
  find-re_archive [] e h v = Option-clash h
  find-re_archive (x ∷ xs) e h v = elim (Bool-cases (str_eq x.external_id item.external_id)) [
    | inl g ↦
        let is : x ≡ e = found_here (str_eq x.external_id item.external_id) _ g h in
        rw
          (
            g,
            ap (λ (y : ArchiveEvent). version_below y.version version) is ∙ v,
            (eq_iff item.external_id item.external_id).1 refl,
          )
          refl
    | inr g ↦
        rw (g, g)
          (find-re_archive xs e (found_behind (str_eq x.external_id item.external_id) x _ g h) v)
  ]

  module _ (E E' : List ArchiveEvent) (done : MutableLatestOutcome)
      (steps : (f : Option Cut) (s : Archive)
        → s.events ≡ E
        → apply_off_chain_mutable_latest item f s ≡ archive_version item version E' done f s) where
    abbrev Written : Archive → Archive → Type 0
    Written s s' =
        (s'.events ≡ E')
        × (latest item.external_id s'.written ≡ some (written_row item version))
        × ((id : String)
            → str_eq item.external_id id ≡ false
            → latest id s'.written ≡ latest id s.written)

    pub deliver-Written :
        (cuts : List Cut) (s : Archive)
        → s.events ≡ E
        → Below (latest item.external_id s.written)
        → Written s (deliver item cuts s)
    unfolding archive_version
    deliver-Written [] s e h =
        subst (λ (p : Archive × MutableLatestOutcome). Written s p.0) (sym (steps none s e))
          (refl, latest-own s.written h, latest-other s.written)
    deliver-Written (before_write ∷ cuts) s e h =
        subst (λ (p : Archive × MutableLatestOutcome). Written s (deliver item cuts p.0))
          (sym (steps (some before_write) s e)) (deliver-Written cuts s e h)
    deliver-Written (behind_write ∷ cuts) s e h =
        let s' : Archive = record {
          events = s.events;
          written = written_row item version ∷ s.written;
        } in
        let own : Below (latest item.external_id s'.written) =
          subst Below (sym (latest-own s.written h)) (omega arith) in
        let (a, b, c) = deliver-Written cuts s' e own in
        subst (λ (p : Archive × MutableLatestOutcome). Written s (deliver item cuts p.0))
          (sym (steps (some behind_write) s e)) (a, b, λ id d. c id d ∙ latest-other s.written id d)

    -- The events after a delivery: the item's is new, and those of the others are as before.
    pub Written-IsConsistent :
        (s s' : Archive)
        → IsConsistent s
        → s.events ≡ E
        → Written s s'
        → find_by_external_id item.external_id E' ≡ some (updated item version)
        → ((id : String)
            → str_eq item.external_id id ≡ false
            → find_by_external_id id E' ≡ find_by_external_id id E)
        → IsConsistent s'
    Written-IsConsistent s s' c e (a, b, o) own other id =
        elim (Bool-cases (str_eq item.external_id id)) [
          | inl g ↦
              subst (λ i. Agrees (find_by_external_id i s'.events) (latest i s'.written))
                ((eq_iff item.external_id id).0 g)
                (subst (λ x. Agrees x (latest item.external_id s'.written))
                  (sym (ap (find_by_external_id item.external_id) a ∙ own))
                  (subst (Agrees (some (updated item version))) (sym b) (refl, refl)))
          | inr g ↦
              subst (λ x. Agrees x (latest id s'.written))
                (sym (
                  ap (find_by_external_id id) a ∙ other id g ∙ ap (find_by_external_id id) (sym e)))
                (subst (Agrees (find_by_external_id id s.events)) (sym (o id g)) (c id))
        ]
