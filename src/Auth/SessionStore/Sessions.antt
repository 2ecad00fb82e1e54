-- ===== src/Auth/SessionStore/Sessions.antt =====
-- The sessions that a store holds, as a map from their ids: what nest/auth/src/session/session.store.ts
-- promises of its keys.
use kvorum.Base.{ltb, if◌then◌else◌, ℕ, ◌+◌, String, Option, none, some, str_eq}
use kvorum.Auth.SessionStore.{
  session_ttl_ms, touch_throttle_ms, seen_at, new_record, create, touch, destroy,
  destroy_all_for_user, SessionRecord, Redis,
}

-- A record and when it expires.
abbrev pub Sessions : Type 0
Sessions = String → Option (SessionRecord × ℕ)

abbrev pub no_sessions : Sessions
no_sessions id = none

abbrev pub unexpired : ℕ → Option (SessionRecord × ℕ) → Option SessionRecord
unexpired now none = none
unexpired now (some (r, expires)) = if ltb now expires then some r else none

abbrev pub session_at : ℕ → String → Sessions → Option SessionRecord
session_at now id m = unexpired now (m id)

abbrev pub put : String → Option (SessionRecord × ℕ) → Sessions → Sessions
put id v m j = if str_eq id j then v else m j

abbrev pub unless_of : String → Option (SessionRecord × ℕ) → Option (SessionRecord × ℕ)
unless_of user none = none
unless_of user (some (r, expires)) = if str_eq user r.user_id then none else some (r, expires)

-- No session of a user.
abbrev pub drop_user : String → Sessions → Sessions
drop_user user m id = unless_of user (m id)

-- What a client asks for. The guard touches a session with a record of it that it has loaded before,
-- and other requests may come in between.
pub data Request : Type 0 where
  creates : ℕ → String → String → String → Request
  touches : ℕ → String → SessionRecord → Request
  destroys : ℕ → String → Request
  destroys_all : ℕ → String → Request

abbrev pub touched : ℕ → String → SessionRecord → Sessions → Sessions
touched now id r m =
    if ltb now (r.last_seen_at + touch_throttle_ms)
    then m
    else put id (some (seen_at now r, now + session_ttl_ms)) m

-- The requests on the map.
abbrev pub promised : Request → Sessions → Sessions
promised (creates now user id csrf) m =
    put id (some (new_record now user csrf, now + session_ttl_ms)) m
promised (touches now id r) m = touched now id r m
promised (destroys now id) m = put id none m
promised (destroys_all now user) m = drop_user user m

abbrev pub time : Request → ℕ
time (creates now user id csrf) = now
time (touches now id r) = now
time (destroys now id) = now
time (destroys_all now user) = now

module _ (R : Redis) where
  -- The requests on the store.
  unfoldable pub served : Request → R.Store → R.Store
  served (creates now user id csrf) s = create R now user id csrf s
  served (touches now id r) s = touch R now id r s
  served (destroys now id) s = destroy R now id s
  served (destroys_all now user) s = destroy_all_for_user R now user s
