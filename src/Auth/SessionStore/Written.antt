-- ===== src/Auth/SessionStore/Written.antt =====
-- `create` and `touch` write to the map of sessions that a store stands for.
use kvorum.Base.{
  ltb, Bool-cases, clash, ℕ, ◌+◌, String, ◌≡◌, refl, sym, ap, ◌∙◌, inl, inr, true, false, ◌&&◌,
  ◌||◌, some, List, arith, str_eq,
}
use kvorum.Auth.SessionStore.{
  session_ttl_ms, touch_throttle_ms, seen_at, new_record, create, touch, SessionRecord, Redis,
  RedisLaws,
}
use kvorum.Auth.SessionStore.Sessions.{Sessions, session_at, touched}
use kvorum.Auth.SessionStore.Invariant.{is_used, str_eq_refl, str_eq→eq, Refines}
use kvorum.Auth.SessionStore.Steps.{write-Refines, Writes}

module _ (R : Redis) (L : RedisLaws R) where
  module _ (now : ℕ) (s : R.Store) (m : Sessions) (used : List String)
      (f : Refines R now s m used) where
    pub create-Writes :
        (user id csrf : String)
        → is_used used id ≡ false
        → Writes R L now s (create R now user id csrf s) m used f id (new_record now user csrf)
    unfolding create
    create-Writes user id csrf fresh = record {
      gets_own = λ later l.
          L.get-expire now later _ user id _
          ∙ L.get-sadd now later user id id _
          ∙ L.get-set_ex now later _ id id _ s l
          ∙ rw (str_eq_refl id) refl;
      gets_other = λ later j l e.
          L.get-expire now later _ user j _
          ∙ L.get-sadd now later user id j _
          ∙ L.get-set_ex now later _ id j _ s l
          ∙ rw e refl;
      members_own = λ later j l.
          L.member-expire now later _ user user j _ l
          ∙ rw (str_eq_refl user) (
              ap (λ b. ltb later (now + session_ttl_ms) && b)
                (L.member-sadd now user id j _
                  ∙ ap (λ b. str_eq id j || b) (L.member-set_ex now now _ id user j _ s)));
      members_other = λ later v j l e.
          L.member-expire now later _ user v j _ l
          ∙ rw e (
              L.member-sadd_other now later user v id j _ e
              ∙ L.member-set_ex now later _ id v j _ s);
      own = λ later u l h. clash (f.known later u id l h) fresh;
    }

    -- A session that is held is in the index of its user.
    held_member :
        (id : String) (r q : SessionRecord)
        → session_at now id m ≡ some q
        → q.user_id ≡ r.user_id
        → R.is_member now r.user_id id s ≡ true
    held_member id r q is same_user =
        ap (λ u. R.is_member now u id s) (sym same_user) ∙ f.listed now id q (omega arith) is

    touch-Writes :
        (id : String) (r q : SessionRecord)
        → session_at now id m ≡ some q
        → q.user_id ≡ r.user_id
        → Writes R L now s
            (R.expire now r.user_id session_ttl_ms
              (R.set_ex now id (seen_at now r) session_ttl_ms s))
            m
            used
            f
            id
            (seen_at now r)
    touch-Writes id r q is same_user = record {
      gets_own = λ later l.
          L.get-expire now later _ r.user_id id _
          ∙ L.get-set_ex now later _ id id _ s l
          ∙ rw (str_eq_refl id) refl;
      gets_other = λ later j l e.
          L.get-expire now later _ r.user_id j _ ∙ L.get-set_ex now later _ id j _ s l ∙ rw e refl;
      members_own = λ later j l.
          L.member-expire now later _ r.user_id r.user_id j _ l
          ∙ rw (str_eq_refl r.user_id) (
              ap (λ b. ltb later (now + session_ttl_ms) && b)
                (L.member-set_ex now now _ id r.user_id j _ s
                  ∙ is_listed j (held_member id r q is same_user)));
      members_other = λ later v j l e.
          L.member-expire now later _ r.user_id v j _ l
          ∙ rw e (L.member-set_ex now later _ id v j _ s);
      own = λ later u l h.
          sym same_user
          ∙ f.owned now u id q (omega arith) (L.member_before now later u id s l h) is;
    }
      where
        is_listed :
            (j : String)
            → R.is_member now r.user_id id s ≡ true
            → R.is_member now r.user_id j s ≡ str_eq id j || R.is_member now r.user_id j s
        is_listed j member = elim (Bool-cases (str_eq id j)) [
          | inr e ↦ rw e refl
          | inl e ↦ rw e (ap (λ i. R.is_member now r.user_id i s) (sym (str_eq→eq id j e)) ∙ member)
        ]

    pub touch-Refines :
        (id : String) (r q : SessionRecord)
        → session_at now id m ≡ some q
        → q.user_id ≡ r.user_id
        → Refines R now (touch R now id r s) (touched now id r m) used
    unfolding touch
    touch-Refines id r q e same_user =
        elim (Bool-cases (ltb now (r.last_seen_at + touch_throttle_ms))) [
          | inl d ↦ rw d f
          | inr d ↦ rw d (
              write-Refines R L now s _ m used f id (seen_at now r)
                (touch-Writes id r q e same_user) used
                (f.known now r.user_id id (omega arith) (held_member id r q e same_user))
                (λ j h. h))
        ]
