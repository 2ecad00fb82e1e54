-- ===== src/Auth/SessionStore/Refinement.antt =====
-- The session store does on Redis what the requests do on a map of sessions.
use kvorum.Base.{
  clash, Option-clash, ℕ, ◌≤◌, String, ◌≡◌, refl, Bool, true, false, ◌||◌, some, List, [], ◌∷◌,
  str_eq,
}
use kvorum.Auth.SessionStore.{new_record, destroy, SessionRecord, Redis, RedisLaws}
use kvorum.Auth.SessionStore.Sessions.{
  Sessions, no_sessions, session_at, promised, time, served, Request, creates, touches, destroys,
  destroys_all,
}
use kvorum.Auth.SessionStore.Invariant.{is_used, str_eq_refl, Refines-later, Refines}
use kvorum.Auth.SessionStore.Steps.{write-Refines}
use kvorum.Auth.SessionStore.{new_record, destroy, SessionRecord, Redis, RedisLaws}
use kvorum.Auth.SessionStore.Written.{create-Writes, touch-Refines}
use kvorum.Auth.SessionStore.Removed.{destroy_loaded-Refines, destroy_all-Refines}

-- The ids in use after a request.
abbrev pub with_ids : Request → List String → List String
with_ids (creates now user id csrf) used = id ∷ used
with_ids (touches now id r) used = used
with_ids (destroys now id) used = used
with_ids (destroys_all now user) used = used

-- A new session has an id that was not used before; and a session that is touched is still held, of
-- the user of the record that was loaded: it was not destroyed in between.
abbrev pub IsDue : Sessions → List String → Request → Type 0
IsDue m used (creates now user id csrf) = is_used used id ≡ false
IsDue m used (touches now id r) =
    (q : SessionRecord) × (session_at now id m ≡ some q) × (q.user_id ≡ r.user_id)
IsDue m used (destroys now id) = Unit
IsDue m used (destroys_all now user) = Unit

abbrev pub promised_all : List Request → Sessions → Sessions
promised_all [] m = m
promised_all (q ∷ qs) m = promised_all qs (promised q m)

abbrev pub end_time : ℕ → List Request → ℕ
end_time now [] = now
end_time now (q ∷ qs) = end_time (time q) qs

-- Requests at times that do not fall, each of them due on the map that those before it leave.
abbrev pub InOrder : ℕ → Sessions → List String → List Request → Type 0
InOrder now m used [] = Unit {0}
InOrder now m used (q ∷ qs) =
    (now ≤ time q) × IsDue m used q × InOrder (time q) (promised q m) (with_ids q used) qs

module _ (R : Redis) where
  abbrev pub served_all : List Request → R.Store → R.Store
  served_all [] s = s
  served_all (q ∷ qs) s = served_all qs (served R q s)

module _ (R : Redis) (L : RedisLaws R) where
  served-Refines :
      (q : Request) (now : ℕ) (s : R.Store) (m : Sessions) (used : List String)
      → now ≤ time q
      → IsDue m used q
      → Refines R now s m used
      → Refines R (time q) (served R q s) (promised q m) (with_ids q used)
  unfolding served destroy
  served-Refines (creates now' user id csrf) now s m used l fresh f =
      let f' = Refines-later R now now' s m used l f in
      write-Refines R L now' s _ m used f' id (new_record now' user csrf)
        (create-Writes R L now' s m used f' user id csrf fresh) (id ∷ used)
        (rw (str_eq_refl id) refl) (λ j h. rw h (or_true (str_eq id j)))
    where
      or_true : (b : Bool) → b || true ≡ true
      or_true true = refl
      or_true false = refl
  served-Refines (touches now' id r) now s m used l (q, held, same_user) f =
      touch-Refines R L now' s m used (Refines-later R now now' s m used l f) id r q held same_user
  served-Refines (destroys now' id) now s m used l fresh f =
      destroy_loaded-Refines R L now' s m used (Refines-later R now now' s m used l f) id
        (R.get now' id s)
  served-Refines (destroys_all now' user) now s m used l fresh f =
      destroy_all-Refines R L now' s m used (Refines-later R now now' s m used l f) user

  served_all-shows :
      (qs : List Request) (now : ℕ) (s : R.Store) (m : Sessions) (used : List String)
      → InOrder now m used qs
      → Refines R now s m used
      → (later : ℕ) (id : String) → end_time now qs ≤ later
      → R.get later id (served_all R qs s) ≡ session_at later id (promised_all qs m)
  served_all-shows [] now s m used o f later id l = f.shows later id l
  served_all-shows (q ∷ qs) now s m used (l, fresh, o) f later id h =
      served_all-shows qs (time q) (served R q s) (promised q m) (with_ids q used) o
        (served-Refines q now s m used l fresh f) later id h

  empty-Refines : Refines R 0 R.empty no_sessions []
  empty-Refines = record {
    shows = λ later id l. L.get-empty later id;
    listed = λ later id r l h. Option-clash h;
    owned = λ later u id r l n h. Option-clash h;
    soon = λ later id r l h. Option-clash h;
    known = λ later u id l n. clash n (L.member-empty later u id);
  }

  -- After any requests at times that do not fall, each new session under an id not used before and
  -- each touch with a loaded record of a session that is still held, of the same user, the store shows
  -- for an id at any later time just the session of a map: `create` and a `touch` that is not
  -- throttled put one with a lifetime of 30 days, `destroy` takes one away, and `destroyAllForUser`
  -- all of a user. Other requests may come between the load of a record and the touch.
  pub served_all-refines :
      (qs : List Request) (later : ℕ) (id : String)
      → InOrder 0 no_sessions [] qs
      → end_time 0 qs ≤ later
      → R.get later id (served_all R qs R.empty) ≡ session_at later id (promised_all qs no_sessions)
  served_all-refines qs later id o l =
      served_all-shows qs 0 R.empty no_sessions [] o empty-Refines later id l
