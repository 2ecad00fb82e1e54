-- ===== src/Sources/MutableLatest/Deliveries.antt =====
-- A delivery that is tried again until it gets through.
use kvorum.Base.{
  lt→ltb, Bool-cases, Option-cases, get_or_default, ℕ, ◌+◌, ◌≤◌, ◌≡◌, refl, sym, ap, ◌∙◌, subst,
  inl, inr, true, false, Option, none, some, List, [], ◌∷◌, arith, eq_iff,
}
use kvorum.Sources.MutableLatest.{
  find_by_external_id, version_below, updated, re_archive_offchain, has_hash, archive_version,
  apply_to, apply_off_chain_mutable_latest, MutableLatestItem, ArchiveEvent, WrittenRow, Archive,
  Cut, inserted, re_archived,
}
use kvorum.Sources.MutableLatest.Tries.{
  latest, Agrees, IsConsistent, deliver, next_version, Below, find-re_archive_other,
  find-re_archive, deliver-Written, Written-IsConsistent,
}

-- A delivery leaves the stores consistent, with the item's content in a version that is one more if
-- the content is new.
abbrev pub IsDelivered : MutableLatestItem → Archive → Archive → Type 0
IsDelivered item s s' =
    IsConsistent s'
    × ((e : ArchiveEvent) × (find_by_external_id item.external_id s'.events ≡ some e)
        × (has_hash e.content_hash item.content_hash ≡ true)
        × (e.version ≡ next_version item (find_by_external_id item.external_id s.events)))

module _ (item : MutableLatestItem) (cuts : List Cut) (s : Archive) (c : IsConsistent s) where
  own_hash : has_hash (some item.content_hash) item.content_hash ≡ true
  own_hash = (eq_iff item.content_hash item.content_hash).1 refl

  new_steps :
      find_by_external_id item.external_id s.events ≡ none
      → (f : Option Cut) (t : Archive) → t.events ≡ s.events
      → apply_off_chain_mutable_latest item f t
        ≡ archive_version item 1 (updated item 1 ∷ s.events) inserted f t
  unfolding apply_off_chain_mutable_latest apply_to
  new_steps h f t e =
      ap (λ o. apply_to item o f t) (ap (find_by_external_id item.external_id) e ∙ h)
      ∙ ap (λ es. archive_version item 1 (updated item 1 ∷ es) inserted f t) e

  deliver_new :
      (w : Option WrittenRow)
      → find_by_external_id item.external_id s.events ≡ none
      → latest item.external_id s.written ≡ w
      → Agrees none w
      → IsDelivered item s (deliver item cuts s)
  deliver_new (some w) h l a = elim a [ ]
  deliver_new none h l a =
      let E' = updated item 1 ∷ s.events in
      let own : find_by_external_id item.external_id E' ≡ some (updated item 1) =
        rw ((eq_iff item.external_id item.external_id).1 refl) refl in
      let w =
        deliver-Written item 1 s.events E' inserted (new_steps h) cuts s refl
          (subst (Below item 1) (sym l) tt) in
      (
        Written-IsConsistent item 1 s.events E' inserted (new_steps h) s _ c refl w own
            (λ id g. rw g refl),
        (updated item 1, ap (find_by_external_id item.external_id) w.0 ∙ own, own_hash, rw h refl),
      )

  module _ (e : ArchiveEvent) (h : find_by_external_id item.external_id s.events ≡ some e) where
    changed_version : ℕ
    changed_version = get_or_default e.version 0 + 1

    changed_steps :
        has_hash e.content_hash item.content_hash ≡ false
        → (f : Option Cut) (t : Archive) → t.events ≡ s.events
        → apply_off_chain_mutable_latest item f t
          ≡ archive_version item changed_version
              (re_archive_offchain item changed_version s.events)
              re_archived
              f
              t
    unfolding apply_off_chain_mutable_latest apply_to changed_version
    changed_steps d f t is =
        ap (λ o. apply_to item o f t) (ap (find_by_external_id item.external_id) is ∙ h)
        ∙ rw (d, apply_to)
            (ap
              (λ es.
                archive_version item changed_version (re_archive_offchain item changed_version es)
                  re_archived f t)
              is)

    version_rises :
        (w : WrittenRow)
        → e.version ≡ some w.version
        → (version_below e.version changed_version ≡ true) × (w.version ≤ changed_version)
    unfolding changed_version
    version_rises w v = rw v (lt→ltb w.version (w.version + 1) (omega arith), omega arith)

    deliver_changed :
        (w : Option WrittenRow)
        → has_hash e.content_hash item.content_hash ≡ false
        → latest item.external_id s.written ≡ w
        → Agrees (some e) w
        → IsDelivered item s (deliver item cuts s)
    unfolding changed_version
    deliver_changed none d l a = elim a [ ]
    deliver_changed (some w) d l a =
        let n = changed_version in
        let E' = re_archive_offchain item n s.events in
        let (rises, bound) = version_rises w a.1 in
        let own = find-re_archive item n s.events e h rises in
        let done =
          deliver-Written item n s.events E' re_archived (changed_steps d) cuts s refl
            (subst (Below item n) (sym l) bound) in
        (
          Written-IsConsistent item n s.events E' re_archived (changed_steps d) s _ c refl done own
              (find-re_archive_other item n s.events),
          (
            updated item n,
            ap (find_by_external_id item.external_id) done.0 ∙ own,
            own_hash,
            rw (h, d) refl,
          ),
        )

    unchanged_step :
        has_hash e.content_hash item.content_hash ≡ true
        → (f : Option Cut) → (apply_off_chain_mutable_latest item f s).0 ≡ s
    unfolding apply_off_chain_mutable_latest apply_to
    unchanged_step d f = rw (h, d) refl

    deliver_unchanged :
        (tries : List Cut)
        → has_hash e.content_hash item.content_hash ≡ true
        → deliver item tries s ≡ s
    deliver_unchanged [] d = unchanged_step d none
    deliver_unchanged (f ∷ tries) d =
        ap (deliver item tries) (unchanged_step d (some f)) ∙ deliver_unchanged tries d

    deliver_known : IsDelivered item s (deliver item cuts s)
    deliver_known = elim (Bool-cases (has_hash e.content_hash item.content_hash)) [
      | inr d ↦
          deliver_changed (latest item.external_id s.written) d refl
            (subst (λ o. Agrees o (latest item.external_id s.written)) h (c item.external_id))
      | inl d ↦
          subst (IsDelivered item s) (sym (deliver_unchanged cuts d)) (c, (e, h, d, rw (h, d) refl))
    ]

  -- However often a delivery is cut short, before the write or behind it, once it gets through both
  -- stores have the item's content under one version, which is one more than before if the content is
  -- new and the same if it is not; and the other items are still consistent.
  pub deliver-IsDelivered : IsDelivered item s (deliver item cuts s)
  deliver-IsDelivered = elim (Option-cases (find_by_external_id item.external_id s.events)) [
    | inl h ↦
        deliver_new (latest item.external_id s.written) h refl
          (subst (λ o. Agrees o (latest item.external_id s.written)) h (c item.external_id))
    | inr (e, h) ↦ deliver_known e h
  ]
