-- ===== src/Auth/SessionStore/Steps.antt =====
-- Writing and removing sessions keeps a store standing for its map.
use kvorum.Base.{
  ltb, if◌then◌else◌, lt→ltb, Bool-cases, clash, and_true, ℕ, ◌+◌, ◌≤◌, ◌<◌, String, ◌≡◌, refl, sym,
  ap, ◌∙◌, ◌⊎◌, inl, inr, true, false, ◌&&◌, ◌||◌, none, some, List, arith, str_eq, eq_iff,
}
use kvorum.Auth.SessionStore.{session_ttl_ms, SessionRecord, Redis, RedisLaws}
use kvorum.Auth.SessionStore.Sessions.{Sessions, session_at, put}
use kvorum.Auth.SessionStore.Invariant.{
  is_used, str_eq→eq, unexpired-some, unexpired_before, put-cases, Refines,
}

module _ (R : Redis) (L : RedisLaws R) (now : ℕ) (s s' : R.Store) (m : Sessions)
    (used : List String) (f : Refines R now s m used) where
  -- A write of a record, with its id put into the index of its user.
  pub record Writes (id : String) (r : SessionRecord) : Type 0 where
    pub gets_own :
        (later : ℕ)
        → now ≤ later
        → R.get later id s' ≡ (if ltb later (now + session_ttl_ms) then some r else none)
    pub gets_other :
        (later : ℕ) (j : String)
        → now ≤ later
        → str_eq id j ≡ false
        → R.get later j s' ≡ R.get later j s
    pub members_own :
        (later : ℕ) (j : String)
        → now ≤ later
        → R.is_member later r.user_id j s'
          ≡ ltb later (now + session_ttl_ms) && (str_eq id j || R.is_member now r.user_id j s)
    pub members_other :
        (later : ℕ) (v j : String)
        → now ≤ later
        → str_eq r.user_id v ≡ false
        → R.is_member later v j s' ≡ R.is_member later v j s
    pub own :
        (later : ℕ) (u : String) → now ≤ later → R.is_member later u id s ≡ true → r.user_id ≡ u

  module _ (id : String) (r : SessionRecord) (w : Writes id r) where
    abbrev written : Sessions
    written = put id (some (r, now + session_ttl_ms)) m

    -- A member of an index after the write is the written id or was a member.
    member-cases :
        (later : ℕ) (v j : String)
        → now ≤ later
        → R.is_member later v j s' ≡ true
        → ((id ≡ j) × (r.user_id ≡ v))
          ⊎ ((n : ℕ) × (now ≤ n) × (n ≤ later) × (R.is_member n v j s ≡ true))
    member-cases later v j l h = elim (Bool-cases (str_eq r.user_id v)) [
      | inr e ↦ inr (later, l, omega arith, sym (w.members_other later v j l e) ∙ h)
      | inl e ↦
          let is = str_eq→eq r.user_id v e in
          let (x, y) =
            and_true (ltb later (now + session_ttl_ms))
              (str_eq id j || R.is_member now r.user_id j s)
              (sym (w.members_own later j l) ∙ ap (λ u. R.is_member later u j s') is ∙ h) in
          elim (Bool-cases (str_eq id j)) [
            | inl g ↦ inl (str_eq→eq id j g, is)
            | inr g ↦ inr (
              now,
              omega arith,
              l,
              ap (λ u. R.is_member now u j s) (sym is)
                  ∙ ap (λ b. b || R.is_member now r.user_id j s) (sym g)
                  ∙ y,
            )
          ]
    ]

    write-shows :
        (later : ℕ) (j : String) → now ≤ later → R.get later j s' ≡ session_at later j written
    write-shows later j l = elim (Bool-cases (str_eq id j)) [
      | inl e ↦ rw e (ap (λ i. R.get later i s') (sym (str_eq→eq id j e)) ∙ w.gets_own later l)
      | inr e ↦ rw e (w.gets_other later j l e ∙ f.shows later j l)
    ]

    write-listed :
        (later : ℕ) (j : String) (q : SessionRecord)
        → now ≤ later
        → session_at later j written ≡ some q
        → R.is_member later q.user_id j s' ≡ true
    write-listed later j q l h = elim (put-cases later id j _ m q h) [
      | inl (e, g) ↦
          let (x, y) = unexpired-some later (now + session_ttl_ms) r q g in
          ap (λ (a : SessionRecord). R.is_member later a.user_id j s') (sym y)
          ∙ w.members_own later j l
          ∙ rw (lt→ltb later (now + session_ttl_ms) x, (eq_iff id j).1 e) refl
      | inr (e, g) ↦
          let old = f.listed later j q l g in
          elim (Bool-cases (str_eq r.user_id q.user_id)) [
            | inr d ↦ w.members_other later q.user_id j l d ∙ old
            | inl d ↦
                let is = str_eq→eq r.user_id q.user_id d in
                let before = L.member_before now later q.user_id j s l old in
                ap (λ u. R.is_member later u j s') (sym is)
                ∙ w.members_own later j l
                ∙ rw (lt→ltb later (now + session_ttl_ms) (f.soon later j q l g), e, is) before
          ]
    ]

    write-owned :
        (later : ℕ) (u j : String) (q : SessionRecord)
        → now ≤ later
        → R.is_member later u j s' ≡ true
        → session_at later j written ≡ some q
        → q.user_id ≡ u
    write-owned later u j q l h g = elim (put-cases later id j _ m q g) [
      | inl (e, k) ↦
          let is : r ≡ q = (unexpired-some later (now + session_ttl_ms) r q k).1 in
          ap (λ (a : SessionRecord). a.user_id) (sym is) ∙ elim (member-cases later u j l h) [
            | inl (i, v) ↦ v
            | inr (n, a, b, c) ↦ w.own n u a (ap (λ x. R.is_member n u x s) e ∙ c)
          ]
      | inr (e, k) ↦ elim (member-cases later u j l h) [
        | inl (i, v) ↦ clash ((eq_iff id j).1 i) e
        | inr (n, a, b, c) ↦ f.owned n u j q a c (unexpired_before n later (m j) q b k)
      ]
    ]

    write-soon :
        (later : ℕ) (j : String) (q : SessionRecord)
        → now ≤ later
        → session_at later j written ≡ some q
        → later < now + session_ttl_ms
    write-soon later j q l h = elim (put-cases later id j _ m q h) [
      | inl (e, g) ↦ (unexpired-some later (now + session_ttl_ms) r q g).0
      | inr (e, g) ↦ f.soon later j q l g
    ]

    pub write-Refines :
        (used' : List String)
        → is_used used' id ≡ true
        → ((j : String) → is_used used j ≡ true → is_used used' j ≡ true)
        → Refines R now s' written used'
    write-Refines used' h k = record {
      shows = write-shows;
      listed = write-listed;
      owned = write-owned;
      soon = write-soon;
      known = λ later u j l n. elim (member-cases later u j l n) [
        | inl (i, v) ↦ ap (is_used used') (sym i) ∙ h
        | inr (t, a, b, c) ↦ k j (f.known t u j a c)
      ];
    }

  -- A removal of sessions: what is left was there, and is listed still.
  pub record Removes (m' : Sessions) : Type 0 where
    pub shows : (later : ℕ) (j : String) → now ≤ later → R.get later j s' ≡ session_at later j m'
    pub left :
        (later : ℕ) (j : String) (q : SessionRecord)
        → session_at later j m' ≡ some q
        → session_at later j m ≡ some q
    pub stays :
        (later : ℕ) (j : String) (q : SessionRecord)
        → now ≤ later
        → session_at later j m' ≡ some q
        → R.is_member later q.user_id j s ≡ true
        → R.is_member later q.user_id j s' ≡ true
    pub members :
        (later : ℕ) (v j : String)
        → now ≤ later
        → R.is_member later v j s' ≡ true
        → R.is_member later v j s ≡ true

  pub remove-Refines : (m' : Sessions) → Removes m' → Refines R now s' m' used
  remove-Refines m' d = record {
    shows = d.shows;
    listed = λ later j q l h. d.stays later j q l h (f.listed later j q l (d.left later j q h));
    owned =
        λ later u j q l n h. f.owned later u j q l (d.members later u j l n) (d.left later j q h);
    soon = λ later j q l h. f.soon later j q l (d.left later j q h);
    known = λ later u j l n. f.known later u j l (d.members later u j l n);
  }
