-- ===== src/Auth/SessionStore/Removed.antt =====
-- `destroy` and `destroyAllForUser` remove from the map of sessions that a store stands for.
use kvorum.Base.{
  if◌then◌else◌, Bool-cases, Option-cases, clash, Option-clash, and_true, any, ℕ, ◌≤◌, String, ◌≡◌,
  refl, sym, ap, ◌∙◌, inl, inr, Bool, true, false, not, ◌&&◌, Option, none, some, List, [], ◌∷◌,
  arith, str_eq,
}
use kvorum.Auth.SessionStore.{
  destroy_loaded, del_sessions, destroy_all_for_user, SessionRecord, Redis, RedisLaws,
}
use kvorum.Auth.SessionStore.Sessions.{Sessions, unexpired, session_at, put, unless_of, drop_user}
use kvorum.Auth.SessionStore.Invariant.{
  str_eq_refl, str_eq→eq, unexpired-some, unexpired_before, put-cases, Refines,
}
use kvorum.Auth.SessionStore.Steps.{remove-Refines}

module _ (R : Redis) (L : RedisLaws R) where
  pub del_sessions-get :
      (now : ℕ) (ids : List String) (t : R.Store) (later : ℕ) (j : String)
      → now ≤ later
      → R.get later j (del_sessions R now ids t)
        ≡ (if any (λ i. str_eq i j) ids then none else R.get later j t)
  unfolding del_sessions
  del_sessions-get now [] t later j l = refl
  del_sessions-get now (i ∷ ids) t later j l =
      del_sessions-get now ids (R.del_session now i t) later j l ∙ elim (Bool-cases (str_eq i j)) [
        | inl e ↦ rw (L.get-del_session now later i j t l, e) (either (any (λ i. str_eq i j) ids))
        | inr e ↦ rw (L.get-del_session now later i j t l, e) refl
      ]
    where
      either : (b : Bool) → ◌≡◌ {A = Option SessionRecord} (if b then none else none) none
      either true = refl
      either false = refl

  pub del_sessions-member :
      (now : ℕ) (ids : List String) (t : R.Store) (later : ℕ) (v j : String)
      → R.is_member later v j (del_sessions R now ids t) ≡ R.is_member later v j t
  unfolding del_sessions
  del_sessions-member now [] t later v j = refl
  del_sessions-member now (i ∷ ids) t later v j =
      del_sessions-member now ids (R.del_session now i t) later v j
      ∙ L.member-del_session now later i v j t

  module _ (now : ℕ) (s : R.Store) (m : Sessions) (used : List String)
      (f : Refines R now s m used) where
    removed-left :
        (id : String) (later : ℕ) (j : String) (q : SessionRecord)
        → session_at later j (put id none m) ≡ some q
        → (str_eq id j ≡ false) × (session_at later j m ≡ some q)
    removed-left id later j q h = elim (put-cases later id j none m q h) [
      | inl (e, g) ↦ Option-clash g
      | inr p ↦ p
    ]

    pub destroy_loaded-Refines :
        (id : String) (o : Option SessionRecord)
        → Refines R now (destroy_loaded R now id o s) (put id none m) used
    unfolding destroy_loaded
    destroy_loaded-Refines id none = remove-Refines R L now s _ m used f (put id none m) (record {
      shows = λ later j l. elim (Bool-cases (str_eq id j)) [
        | inl e ↦ rw e (L.get-del_session now later id j s l ∙ rw e refl)
        | inr e ↦ rw e (L.get-del_session now later id j s l ∙ rw e (f.shows later j l))
      ];
      left = λ later j q h. (removed-left id later j q h).1;
      stays = λ later j q l h n. L.member-del_session now later id q.user_id j s ∙ n;
      members = λ later v j l n. sym (L.member-del_session now later id v j s) ∙ n;
    })
    destroy_loaded-Refines id (some r) =
        remove-Refines R L now s _ m used f (put id none m) (record {
          shows = λ later j l. elim (Bool-cases (str_eq id j)) [
            | inl e ↦ rw e (
                L.get-srem now later r.user_id id j _
                ∙ L.get-del_session now later id j s l
                ∙ rw e refl)
            | inr e ↦ rw e (
                L.get-srem now later r.user_id id j _
                ∙ L.get-del_session now later id j s l
                ∙ rw e (f.shows later j l))
          ];
          left = λ later j q h. (removed-left id later j q h).1;
          stays = λ later j q l h n.
              L.member-srem now later r.user_id q.user_id id j _ l
              ∙ other_stays (str_eq r.user_id q.user_id) (str_eq id j) _
                  (removed-left id later j q h).0
                  (L.member-del_session now later id q.user_id j s ∙ n);
          members = λ later v j l n.
              sym (L.member-del_session now later id v j s)
              ∙ (and_true _ _ (sym (L.member-srem now later r.user_id v id j _ l) ∙ n)).1;
        })
      where
        other_stays : (a b c : Bool) → b ≡ false → c ≡ true → not (a && b) && c ≡ true
        other_stays a b c h k = ground arith

    drop_user-left :
        (user : String) (later : ℕ) (o : Option (SessionRecord × ℕ)) (q : SessionRecord)
        → unexpired later (unless_of user o) ≡ some q
        → (str_eq user q.user_id ≡ false) × (unexpired later o ≡ some q)
    drop_user-left user later none q h = Option-clash h
    drop_user-left user later (some (a, e)) q h = elim (Bool-cases (str_eq user a.user_id)) [
      | inl d ↦ Option-clash (rw d refl ∙ h)
      | inr d ↦
          let k : unexpired later (some (a, e)) ≡ some q = rw d refl ∙ h in
          (
            ap (λ (x : SessionRecord). str_eq user x.user_id) (sym (unexpired-some later e a q k).1)
                ∙ d,
            k,
          )
    ]

    drop_user-none :
        (user : String) (later : ℕ) (o : Option (SessionRecord × ℕ))
        → unexpired later o ≡ none
        → unexpired later (unless_of user o) ≡ none
    drop_user-none user later none h = refl
    drop_user-none user later (some (a, e)) h = elim (Bool-cases (str_eq user a.user_id)) [
      | inl d ↦ rw d refl
      | inr d ↦ rw d h
    ]

    drop_user-some :
        (user : String) (later : ℕ) (o : Option (SessionRecord × ℕ)) (q : SessionRecord)
        → unexpired later o ≡ some q
        → unexpired later (unless_of user o) ≡ (if str_eq user q.user_id then none else some q)
    drop_user-some user later none q h = Option-clash h
    drop_user-some user later (some (a, e)) q h =
        let is = (unexpired-some later e a q h).1 in
        elim (Bool-cases (str_eq user a.user_id)) [
          | inl d ↦ rw (d, ap (λ (x : SessionRecord). str_eq user x.user_id) (sym is) ∙ d) refl
          | inr d ↦ rw (d, ap (λ (x : SessionRecord). str_eq user x.user_id) (sym is) ∙ d) h
        ]

    drop_user-shows :
        (user : String) (later : ℕ) (j : String)
        → now ≤ later
        → (if R.is_member now user j s then none else session_at later j m)
          ≡ session_at later j (drop_user user m)
    drop_user-shows user later j l = elim (Option-cases (session_at later j m)) [
      | inl e ↦ rw (e, drop_user-none user later (m j) e) (either (R.is_member now user j s))
      | inr (q, e) ↦ elim (Bool-cases (str_eq user q.user_id)) [
        | inl d ↦
            let listed = L.member_before now later q.user_id j s l (f.listed later j q l e) in
            rw
              (
                drop_user-some user later (m j) q e,
                d,
                ap (λ u. R.is_member now u j s) (str_eq→eq user q.user_id d) ∙ listed,
              )
              refl
        | inr d ↦ rw (drop_user-some user later (m j) q e, d, not_member user later j q l e d) e
      ]
    ]
      where
        either : (b : Bool) → ◌≡◌ {A = Option SessionRecord} (if b then none else none) none
        either true = refl
        either false = refl

        not_member :
            (user : String) (later : ℕ) (j : String) (q : SessionRecord)
            → now ≤ later
            → session_at later j m ≡ some q
            → str_eq user q.user_id ≡ false
            → R.is_member now user j s ≡ false
        not_member user later j q l e d = elim (Bool-cases (R.is_member now user j s)) [
          | inr n ↦ n
          | inl n ↦
              clash
                (ap (str_eq user)
                    (f.owned now user j q (omega arith) n (unexpired_before now later (m j) q l e))
                  ∙ str_eq_refl user)
                d
        ]

    pub destroy_all-Refines :
        (user : String) → Refines R now (destroy_all_for_user R now user s) (drop_user user m) used
    unfolding destroy_all_for_user
    destroy_all-Refines user =
        let ids = R.smembers now user s in
        remove-Refines R L now s _ m used f (drop_user user m) (record {
          shows = λ later j l.
              L.get-del_index now later user j _
              ∙ del_sessions-get now ids s later j l
              ∙ rw (L.smembers-member now user j s, f.shows later j l)
                  (drop_user-shows user later j l);
          left = λ later j q h. (drop_user-left user later (m j) q h).1;
          stays = λ later j q l h n.
              L.member-del_index now later user q.user_id j _ l
              ∙ rw ((drop_user-left user later (m j) q h).0)
                  (del_sessions-member now ids s later q.user_id j ∙ n);
          members = λ later v j l n.
              sym (del_sessions-member now ids s later v j)
              ∙ (and_true _ _ (sym (L.member-del_index now later user v j _ l) ∙ n)).1;
        })
