-- ===== src/Auth/SessionStore/Invariant.antt =====
-- How a session store stands for a map of sessions, and what keeps it so.
use kvorum.Base.{
  ltb, if◌then◌else◌, ltb→lt, lt→ltb, Bool-cases, get_or_default, Option-clash, any, ℕ, ◌+◌, ◌≤◌,
  ◌<◌, String, ◌≡◌, refl, ap, ◌∙◌, ◌⊎◌, inl, inr, Bool, true, false, Option, none, some, List,
  arith, str_eq, eq_iff,
}
use kvorum.Auth.SessionStore.{session_ttl_ms, SessionRecord, Redis}
use kvorum.Auth.SessionStore.Sessions.{Sessions, unexpired, session_at, put}

abbrev pub is_used : List String → String → Bool
is_used used id = any (λ x. str_eq x id) used

-- From a time on, the store shows the sessions of the map; each is in the index of its user and in no
-- other, and expires within the lifetime; and the indexes hold only ids that were used.
pub record Refines (R : Redis) (now : ℕ) (s : R.Store) (m : Sessions) (used : List String)
    : Type 0 where
  pub shows : (later : ℕ) (id : String) → now ≤ later → R.get later id s ≡ session_at later id m
  pub listed :
      (later : ℕ) (id : String) (r : SessionRecord)
      → now ≤ later
      → session_at later id m ≡ some r
      → R.is_member later r.user_id id s ≡ true
  pub owned :
      (later : ℕ) (u id : String) (r : SessionRecord)
      → now ≤ later
      → R.is_member later u id s ≡ true
      → session_at later id m ≡ some r
      → r.user_id ≡ u
  pub soon :
      (later : ℕ) (id : String) (r : SessionRecord)
      → now ≤ later
      → session_at later id m ≡ some r
      → later < now + session_ttl_ms
  pub known :
      (later : ℕ) (u id : String)
      → now ≤ later
      → R.is_member later u id s ≡ true
      → is_used used id ≡ true

pub str_eq_refl : (a : String) → str_eq a a ≡ true
str_eq_refl a = (eq_iff a a).1 refl

pub str_eq→eq : (a b : String) → str_eq a b ≡ true → a ≡ b
str_eq→eq a b h = (eq_iff a b).0 h

if-some :
    (b : Bool) (a r : SessionRecord) → (if b then some a else none) ≡ some r → (b ≡ true) × (a ≡ r)
if-some true a r h = (refl, ap (λ o. get_or_default o a) h)
if-some false a r h = Option-clash h

pub unexpired-some :
    (now e : ℕ) (a r : SessionRecord) → unexpired now (some (a, e)) ≡ some r → (now < e) × (a ≡ r)
unexpired-some now e a r h = let (x, y) = if-some (ltb now e) a r h in (ltb→lt now e x, y)

-- A session that shows later shows before.
pub unexpired_before :
    (now later : ℕ) (o : Option (SessionRecord × ℕ)) (r : SessionRecord)
    → now ≤ later
    → unexpired later o ≡ some r
    → unexpired now o ≡ some r
unexpired_before now later none r l h = h
unexpired_before now later (some (a, e)) r l h =
    let (x, y) = unexpired-some later e a r h in rw (lt→ltb now e (omega arith)) (ap some y)

pub put-cases :
    (later : ℕ) (id j : String) (v : Option (SessionRecord × ℕ)) (m : Sessions) (r : SessionRecord)
    → session_at later j (put id v m) ≡ some r
    → ((id ≡ j) × (unexpired later v ≡ some r))
      ⊎ ((str_eq id j ≡ false) × (session_at later j m ≡ some r))
put-cases later id j v m r h = elim (Bool-cases (str_eq id j)) [
  | inl e ↦ inl (str_eq→eq id j e, rw e refl ∙ h)
  | inr e ↦ inr (e, rw e refl ∙ h)
]

module _ (R : Redis) (now now' : ℕ) (s : R.Store) (m : Sessions) (used : List String) where
  pub Refines-later : now ≤ now' → Refines R now s m used → Refines R now' s m used
  Refines-later l f = record {
    shows = λ later id h. f.shows later id (omega arith);
    listed = λ later id r h. f.listed later id r (omega arith);
    owned = λ later u id r h. f.owned later u id r (omega arith);
    soon = λ later id r h e. omega (arith, f.soon later id r (omega arith) e);
    known = λ later u id h. f.known later u id (omega arith);
  }
