-- ===== src/Tests/SessionRedis.antt =====
-- A Redis for the session store: a map of the sessions, and a list of the members of the indexes,
-- each with the time when its index expires.
use kvorum.Base.{
  ltb, if◌then◌else◌, le→not-ltb, Bool-cases, clash, and_true, keep, any, ℕ, ◌+◌, ◌≤◌, String, ◌≡◌,
  refl, sym, ap, ◌∙◌, subst, inl, inr, Bool, true, false, not, ◌&&◌, ◌||◌, Option, none, some, List,
  [], ◌∷◌, map, arith, str_eq, eq_iff,
}
use kvorum.Auth.SessionStore.{Redis, RedisLaws}
use kvorum.Auth.SessionStore.Sessions.{Sessions, no_sessions, session_at, put}
use kvorum.Auth.SessionStore.Invariant.{str_eq_refl}

pub record Member : Type 0 where
  pub user : String
  pub id : String
  pub expires : Option ℕ

pub record Keys : Type 0 where
  pub sessions : Sessions
  pub members : List Member

pub alive : ℕ → Option ℕ → Bool
alive now none = true
alive now (some e) = ltb now e

pub shows : ℕ → String → String → Member → Bool
shows now u i m = str_eq u m.user && (str_eq m.id i && alive now m.expires)

pub any_member : ℕ → String → String → List Member → Bool
any_member now u i l = any (shows now u i) l

pub renewed : Bool → ℕ → ℕ → Member → Member
renewed true now ttl m = record {
  user = m.user;
  id = m.id;
  expires = if alive now m.expires then some (now + ttl) else some 0;
}
renewed false now ttl m = m

pub expire_one : ℕ → String → ℕ → Member → Member
expire_one now u ttl m = renewed (str_eq u m.user) now ttl m

abbrev pub keys : Redis
keys = record {
  Store = Keys;
  empty = record { sessions = no_sessions; members = [] };
  get = λ now id s. session_at now id s.sessions;
  is_member = λ now u i s. any_member now u i s.members;
  smembers = λ now u s.
      map (λ (m : Member). m.id) (keep (λ m. str_eq u m.user && alive now m.expires) s.members);
  set_ex = λ now i r ttl s. record {
    sessions = put i (some (r, now + ttl)) s.sessions;
    members = s.members;
  };
  del_session = λ now i s. record { sessions = put i none s.sessions; members = s.members };
  sadd = λ now u i s. record {
    sessions = s.sessions;
    members = record { user = u; id = i; expires = none } ∷ s.members;
  };
  srem = λ now u i s. record {
    sessions = s.sessions;
    members = keep (λ m. not (str_eq u m.user && str_eq i m.id)) s.members;
  };
  expire = λ now u ttl s. record {
    sessions = s.sessions;
    members = map (expire_one now u ttl) s.members;
  };
  del_index = λ now u s. record {
    sessions = s.sessions;
    members = keep (λ m. not (str_eq u m.user)) s.members;
  };
}

and_false : (b : Bool) → b && false ≡ false
and_false true = refl
and_false false = refl

and_or : (c a b : Bool) → (c && a) || (c && b) ≡ c && (a || b)
and_or true a b = refl
and_or false a b = refl

any-keep :
    (s q : Member → Bool) (c : Bool) (l : List Member)
    → ((m : Member) → q m && s m ≡ c && s m)
    → any s (keep q l) ≡ c && any s l
any-keep s q c [] h = sym (and_false c)
any-keep s q c (m ∷ l) h = elim (Bool-cases (q m)) [
  | inl e ↦
      rw (e, any-keep s q c l h)
        (ap (λ b. b || c && any s l) (ap (λ b. b && s m) (sym e) ∙ h m) ∙ and_or c (s m) (any s l))
  | inr e ↦
      rw (e, any-keep s q c l h)
        (ap (λ b. b || c && any s l) (ap (λ b. b && s m) (sym e) ∙ h m) ∙ and_or c (s m) (any s l))
]

any-map :
    (s t : Member → Bool) (e : Member → Member) (c : Bool) (l : List Member)
    → ((m : Member) → s (e m) ≡ c && t m)
    → any s (map e l) ≡ c && any t l
any-map s t e c [] h = sym (and_false c)
any-map s t e c (m ∷ l) h = rw (h m, any-map s t e c l h) (and_or c (t m) (any t l))

any-ids :
    (q s : Member → Bool) (i : String) (l : List Member)
    → ((m : Member) → q m && str_eq m.id i ≡ s m)
    → any (λ x. str_eq x i) (map (λ (m : Member). m.id) (keep q l)) ≡ any s l
any-ids q s i [] h = refl
any-ids q s i (m ∷ l) h = elim (Bool-cases (q m)) [
  | inl e ↦
      rw (e, any-ids q s i l h)
        (ap (λ b. b || any s l) (ap (λ b. b && str_eq m.id i) (sym e) ∙ h m))
  | inr e ↦
      rw (e, any-ids q s i l h)
        (ap (λ b. b || any s l) (ap (λ b. b && str_eq m.id i) (sym e) ∙ h m))
]

alive_before :
    (now later : ℕ) (o : Option ℕ) → now ≤ later → alive later o ≡ true → alive now o ≡ true
unfolding alive
alive_before now later none l h = refl
alive_before now later (some e) l h = ground arith

shows_before :
    (now later : ℕ) (u i : String) (m : Member)
    → now ≤ later
    → shows later u i m ≡ true
    → shows now u i m ≡ true
unfolding shows
shows_before now later u i m l h =
    let (a, b) = and_true (str_eq u m.user) (str_eq m.id i && alive later m.expires) h in
    let (b, c) = and_true (str_eq m.id i) (alive later m.expires) b in
    rw (a, b) (alive_before now later m.expires l c)

members_before :
    (now later : ℕ) (u i : String) (l : List Member)
    → now ≤ later
    → any_member later u i l ≡ true
    → any_member now u i l ≡ true
unfolding any_member
members_before now later u i [] l h = h
members_before now later u i (m ∷ ms) l h = elim (Bool-cases (shows later u i m)) [
  | inl e ↦ rw (shows_before now later u i m l e) refl
  | inr e ↦
      or_right (shows now u i m)
        (members_before now later u i ms l (ap (λ b. b || any (shows later u i) ms) (sym e) ∙ h))
]
  where
    or_right : (a : Bool) {b : Bool} → b ≡ true → a || b ≡ true
    or_right true h = refl
    or_right false h = h

-- A member that shows is of the user and has the id.
shown_and :
    (later : ℕ) (v j : String) (m : Member) (f : String → String → Bool)
    → f m.user m.id && shows later v j m ≡ f v j && shows later v j m
unfolding shows
shown_and later v j m f = elim (Bool-cases (str_eq v m.user)) [
  | inr e ↦ rw e (and_false (f m.user m.id) ∙ sym (and_false (f v j)))
  | inl e ↦ elim (Bool-cases (str_eq m.id j)) [
    | inr g ↦ rw (e, g) (and_false (f m.user m.id) ∙ sym (and_false (f v j)))
    | inl g ↦
        rw (e, g)
          (ap (λ b. b && alive later m.expires)
            (ap (λ x. f x m.id) (sym ((eq_iff v m.user).0 e)) ∙ ap (f v) ((eq_iff m.id j).0 g)))
  ]
]

renewed_alive :
    (now later ttl : ℕ) (a b x : Bool)
    → a && (b && alive later (if x then some (now + ttl) else some 0))
      ≡ ltb later (now + ttl) && (a && (b && x))
unfolding alive
renewed_alive now later ttl false b x = sym (and_false (ltb later (now + ttl)))
renewed_alive now later ttl true false x = sym (and_false (ltb later (now + ttl)))
renewed_alive now later ttl true true true = and_yes (ltb later (now + ttl))
  where
    and_yes : (b : Bool) → b ≡ b && true
    and_yes true = refl
    and_yes false = refl
renewed_alive now later ttl true true false =
    le→not-ltb 0 later (omega arith) ∙ sym (and_false (ltb later (now + ttl)))

expire_own :
    (now later ttl : ℕ) (u j : String) (m : Member)
    → shows later u j (expire_one now u ttl m) ≡ ltb later (now + ttl) && shows now u j m
unfolding shows expire_one renewed
expire_own now later ttl u j m = elim (Bool-cases (str_eq u m.user)) [
  | inl e ↦
      ap (λ b. shows later u j (renewed b now ttl m)) e
      ∙ renewed_alive now later ttl (str_eq u m.user) (str_eq m.id j) (alive now m.expires)
  | inr e ↦
      ap (λ b. shows later u j (renewed b now ttl m)) e
      ∙ ap (λ b. b && (str_eq m.id j && alive later m.expires)) e
      ∙ sym (
          ap (λ b. ltb later (now + ttl) && (b && (str_eq m.id j && alive now m.expires))) e
          ∙ and_false (ltb later (now + ttl)))
]

expire_other :
    (now later ttl : ℕ) (u v j : String) (m : Member)
    → str_eq u v ≡ false
    → shows later v j (expire_one now u ttl m) ≡ shows later v j m
unfolding shows expire_one renewed
expire_other now later ttl u v j m h = elim (Bool-cases (str_eq u m.user)) [
  | inr e ↦ ap (λ b. shows later v j (renewed b now ttl m)) e
  | inl e ↦
      let ne = other_user u v m.user h e in
      ap (λ b. shows later v j (renewed b now ttl m)) e
      ∙ ap
          (λ b.
            b
            && (str_eq m.id j
                && alive later (if alive now m.expires then some (now + ttl) else some 0)))
          ne
      ∙ sym (ap (λ b. b && (str_eq m.id j && alive later m.expires)) ne)
]
  where
    other_user : (u v w : String) → str_eq u v ≡ false → str_eq u w ≡ true → str_eq v w ≡ false
    other_user u v w h e = elim (Bool-cases (str_eq v w)) [
      | inr g ↦ g
      | inl g ↦ clash ((eq_iff u v).1 ((eq_iff u w).0 e ∙ sym ((eq_iff v w).0 g))) h
    ]

one_shows :
    (now : ℕ) (u i j : String)
    → shows now u j (record { user = u; id = i; expires = none }) ≡ str_eq i j
unfolding shows alive
one_shows now u i j = rw (str_eq_refl u) (yes_and (str_eq i j))
  where
    yes_and : (b : Bool) → b && true ≡ b
    yes_and true = refl
    yes_and false = refl

listed_shows :
    (now : ℕ) (u i : String) (m : Member)
    → (str_eq u m.user && alive now m.expires) && str_eq m.id i ≡ shows now u i m
unfolding shows
listed_shows now u i m = turn (str_eq u m.user) (alive now m.expires) (str_eq m.id i)
  where
    turn : (a b c : Bool) → (a && b) && c ≡ a && (c && b)
    turn false b c = refl
    turn true true true = refl
    turn true true false = refl
    turn true false true = refl
    turn true false false = refl

pub keys-RedisLaws : RedisLaws keys
unfolding any_member shows alive
keys-RedisLaws = record {
  get-empty = λ now i. refl;
  member-empty = λ now u i. refl;
  member_before = λ now later u i s l h. members_before now later u i s.members l h;
  smembers-member = λ now u i s. any-ids _ (shows now u i) i s.members (listed_shows now u i);
  get-set_ex = λ now later ttl i j r s l. elim (Bool-cases (str_eq i j)) [
    | inl e ↦ rw e refl
    | inr e ↦ rw e refl
  ];
  member-set_ex = λ now later ttl i u j r s. refl;
  get-del_session =
      λ now later i j s l. elim (Bool-cases (str_eq i j)) [ inl e ↦ rw e refl | inr e ↦ rw e refl ];
  member-del_session = λ now later i u j s. refl;
  get-sadd = λ now later u i j s. refl;
  member-sadd = λ now u i j s. ap (λ b. b || any (shows now u j) s.members) (one_shows now u i j);
  member-sadd_other = λ now later u v i j s h. other_sadd later u v i j s h;
  get-srem = λ now later u i j s. refl;
  member-srem = λ now later u v i j s l.
      any-keep (shows later v j) _ (not (str_eq u v && str_eq i j)) s.members
        (λ m. shown_and later v j m (λ x y. not (str_eq u x && str_eq i y)));
  get-expire = λ now later ttl u j s. refl;
  member-expire = λ now later ttl u v j s l. expired now later ttl u v j s;
  get-del_index = λ now later u j s. refl;
  member-del_index = λ now later u v j s l.
      any-keep (shows later v j) _ (not (str_eq u v)) s.members
        (λ m. shown_and later v j m (λ x y. not (str_eq u x)));
}
  where
    other_sadd :
        (later : ℕ) (u v i j : String) (s : Keys)
        → str_eq u v ≡ false
        → any (shows later v j) (record { user = u; id = i; expires = none } ∷ s.members)
          ≡ any (shows later v j) s.members
    other_sadd later u v i j s h =
        ap (λ b. (b && (str_eq i j && true)) || any (shows later v j) s.members) (other_way u v h)
      where
        other_way : (u v : String) → str_eq u v ≡ false → str_eq v u ≡ false
        other_way u v h = elim (Bool-cases (str_eq v u)) [
          | inr g ↦ g
          | inl g ↦ clash ((eq_iff u v).1 (sym ((eq_iff v u).0 g))) h
        ]

    expired :
        (now later ttl : ℕ) (u v j : String) (s : Keys)
        → any (shows later v j) (map (expire_one now u ttl) s.members) ≡ (
            if str_eq u v
            then ltb later (now + ttl) && any (shows now v j) s.members
            else any (shows later v j) s.members)
    expired now later ttl u v j s = elim (Bool-cases (str_eq u v)) [
      | inr e ↦ rw e (
          any-map (shows later v j) (shows later v j) (expire_one now u ttl) true s.members
            (λ m. expire_other now later ttl u v j m e))
      | inl e ↦ rw e (
          any-map (shows later v j) (shows now v j) (expire_one now u ttl) (ltb later (now + ttl))
            s.members
            (λ m.
              subst
                (λ x.
                  shows later x j (expire_one now u ttl m)
                  ≡ ltb later (now + ttl) && shows now x j m)
                ((eq_iff u v).0 e) (expire_own now later ttl u j m)))
    ]
