-- ===== src/Auth/SessionStore.antt =====
-- SessionStore, of nest/auth/src/session/session.store.ts. Redis is an interface of commands and their
-- documented laws; the keys `sess:<id>` and `user_sessions:<user>` are told apart by the commands. A
-- record's JSON text is the record. The random tokens of `create` are its arguments, and a Redis that
-- does not answer, for which each method throws, is left out. Each method runs without another in
-- between; between the load of a record and its `touch` others may run.
pub mod Sessions
pub mod Invariant
pub mod Steps
pub mod Written
pub mod Removed
pub mod Refinement
pub mod Revived
use kvorum.Base.{
  ltb, if◌then◌else◌, any, ℕ, ◌+◌, ◌≤◌, String, ◌≡◌, Bool, true, false, not, ◌&&◌, ◌||◌, Option,
  none, some, List, [], ◌∷◌, str_eq,
}

pub record SessionRecord : Type 0 where
  pub user_id : String
  pub csrf_token : String
  pub created_at : ℕ
  pub last_seen_at : ℕ

-- Commands at a time, in milliseconds. What they show later is as long as no other command comes.
pub record Redis : Type 1 where
  pub Store : Type 0
  pub empty : Store
  pub get : ℕ → String → Store → Option SessionRecord  -- GET of a session's key
  pub is_member : ℕ → String → String → Store → Bool  -- SISMEMBER of a user's index
  pub smembers : ℕ → String → Store → List String
  pub set_ex : ℕ → String → SessionRecord → ℕ → Store → Store  -- SET with EX
  pub del_session : ℕ → String → Store → Store
  pub sadd : ℕ → String → String → Store → Store
  pub srem : ℕ → String → String → Store → Store
  pub expire : ℕ → String → ℕ → Store → Store  -- EXPIRE of a user's index
  pub del_index : ℕ → String → Store → Store

pub record RedisLaws (R : Redis) : Type 0 where
  pub get-empty : (now : ℕ) (i : String) → R.get now i R.empty ≡ none
  pub member-empty : (now : ℕ) (u i : String) → R.is_member now u i R.empty ≡ false
  -- A key that expires does not come back.
  pub member_before :
      (now later : ℕ) (u i : String) (s : R.Store)
      → now ≤ later
      → R.is_member later u i s ≡ true
      → R.is_member now u i s ≡ true
  pub smembers-member :
      (now : ℕ) (u i : String) (s : R.Store)
      → any (λ x. str_eq x i) (R.smembers now u s) ≡ R.is_member now u i s
  pub get-set_ex :
      (now later ttl : ℕ) (i j : String) (r : SessionRecord) (s : R.Store)
      → now ≤ later
      → R.get later j (R.set_ex now i r ttl s)
        ≡ (if str_eq i j then (if ltb later (now + ttl) then some r else none) else R.get later j s)
  pub member-set_ex :
      (now later ttl : ℕ) (i u j : String) (r : SessionRecord) (s : R.Store)
      → R.is_member later u j (R.set_ex now i r ttl s) ≡ R.is_member later u j s
  pub get-del_session :
      (now later : ℕ) (i j : String) (s : R.Store)
      → now ≤ later
      → R.get later j (R.del_session now i s) ≡ (if str_eq i j then none else R.get later j s)
  pub member-del_session :
      (now later : ℕ) (i u j : String) (s : R.Store)
      → R.is_member later u j (R.del_session now i s) ≡ R.is_member later u j s
  pub get-sadd :
      (now later : ℕ) (u i j : String) (s : R.Store)
      → R.get later j (R.sadd now u i s) ≡ R.get later j s
  pub member-sadd :
      (now : ℕ) (u i j : String) (s : R.Store)
      → R.is_member now u j (R.sadd now u i s) ≡ str_eq i j || R.is_member now u j s
  pub member-sadd_other :
      (now later : ℕ) (u v i j : String) (s : R.Store)
      → str_eq u v ≡ false
      → R.is_member later v j (R.sadd now u i s) ≡ R.is_member later v j s
  pub get-srem :
      (now later : ℕ) (u i j : String) (s : R.Store)
      → R.get later j (R.srem now u i s) ≡ R.get later j s
  pub member-srem :
      (now later : ℕ) (u v i j : String) (s : R.Store)
      → now ≤ later
      → R.is_member later v j (R.srem now u i s)
        ≡ not (str_eq u v && str_eq i j) && R.is_member later v j s
  pub get-expire :
      (now later ttl : ℕ) (u j : String) (s : R.Store)
      → R.get later j (R.expire now u ttl s) ≡ R.get later j s
  pub member-expire :
      (now later ttl : ℕ) (u v j : String) (s : R.Store)
      → now ≤ later
      → R.is_member later v j (R.expire now u ttl s) ≡ (
          if str_eq u v
          then ltb later (now + ttl) && R.is_member now v j s
          else R.is_member later v j s)
  pub get-del_index :
      (now later : ℕ) (u j : String) (s : R.Store)
      → R.get later j (R.del_index now u s) ≡ R.get later j s
  pub member-del_index :
      (now later : ℕ) (u v j : String) (s : R.Store)
      → now ≤ later
      → R.is_member later v j (R.del_index now u s) ≡ not (str_eq u v) && R.is_member later v j s

-- `SESSION_TTL_SECONDS`, in milliseconds.
abbrev pub session_ttl_ms : ℕ
session_ttl_ms = 2592000000

abbrev pub touch_throttle_ms : ℕ
touch_throttle_ms = 60000

abbrev pub seen_at : ℕ → SessionRecord → SessionRecord
seen_at now r = record {
  user_id = r.user_id;
  csrf_token = r.csrf_token;
  created_at = r.created_at;
  last_seen_at = now;
}

abbrev pub new_record : ℕ → String → String → SessionRecord
new_record now user csrf = record {
  user_id = user;
  csrf_token = csrf;
  created_at = now;
  last_seen_at = now;
}

module _ (R : Redis) where
  -- `create`, with the id and the CSRF token that it draws.
  unfoldable pub create : ℕ → String → String → String → R.Store → R.Store
  create now user id csrf s =
      R.expire now user session_ttl_ms
        (R.sadd now user id (R.set_ex now id (new_record now user csrf) session_ttl_ms s))

  unfoldable pub touch : ℕ → String → SessionRecord → R.Store → R.Store
  touch now id r s =
      if ltb now (r.last_seen_at + touch_throttle_ms)
      then s
      else R.expire now r.user_id session_ttl_ms (R.set_ex now id (seen_at now r) session_ttl_ms s)

  unfoldable pub destroy_loaded : ℕ → String → Option SessionRecord → R.Store → R.Store
  destroy_loaded now id none s = R.del_session now id s
  destroy_loaded now id (some r) s = R.srem now r.user_id id (R.del_session now id s)

  unfoldable pub destroy : ℕ → String → R.Store → R.Store
  unfolding destroy_loaded
  destroy now id s = destroy_loaded now id (R.get now id s) s

  unfoldable pub del_sessions : ℕ → List String → R.Store → R.Store
  del_sessions now [] s = s
  del_sessions now (i ∷ ids) s = del_sessions now ids (R.del_session now i s)

  unfoldable pub destroy_all_for_user : ℕ → String → R.Store → R.Store
  destroy_all_for_user now user s =
      R.del_index now user (del_sessions now (R.smembers now user s) s)
