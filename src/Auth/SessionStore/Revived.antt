-- ===== src/Auth/SessionStore/Revived.antt =====
-- A `touch` that comes after the end of its session: SessionGuard loads the record, awaits the user and
-- then touches, and a `destroy` or `destroyAllForUser` may run in between.
use kvorum.Base.{
  ltb, lt→ltb, le→not-ltb, ℕ, ◌+◌, ◌≤◌, ◌<◌, String, ◌≡◌, refl, ◌∙◌, Bool, true, false, ◌&&◌, some,
  arith,
}
use kvorum.Auth.SessionStore.{
  session_ttl_ms, touch_throttle_ms, seen_at, touch, destroy_loaded, destroy, destroy_all_for_user,
  SessionRecord, Redis, RedisLaws,
}
use kvorum.Auth.SessionStore.Invariant.{str_eq_refl}
use kvorum.Auth.SessionStore.Removed.{del_sessions-get}

module _ (R : Redis) (L : RedisLaws R) where
  -- The store shows a session of the user with this id until its lifetime from a time is over, and
  -- that its user signs out everywhere later does not end it.
  pub record Revived (t : ℕ) (id : String) (r : SessionRecord) (s : R.Store) : Type 0 where
    pub shown :
        (later : ℕ) → t ≤ later → later < t + session_ttl_ms → R.get later id s ≡ some (seen_at t r)
    pub stays :
        (out later : ℕ)
        → t ≤ out
        → out ≤ later
        → later < t + session_ttl_ms
        → R.get later id (destroy_all_for_user R out r.user_id s) ≡ some (seen_at t r)

  destroy_all-get :
      (out later : ℕ) (u id : String) (s : R.Store)
      → out ≤ later
      → R.is_member out u id s ≡ false
      → R.get later id (destroy_all_for_user R out u s) ≡ R.get later id s
  unfolding destroy_all_for_user
  destroy_all-get out later u id s l no_member =
      L.get-del_index out later u id _
      ∙ del_sessions-get R L out (R.smembers out u s) s later id l
      ∙ rw (L.smembers-member out u id s, no_member) refl

  -- A touch of a session that no index has.
  unlisted-Revived :
      (t : ℕ) (id : String) (r : SessionRecord) (s : R.Store)
      → r.last_seen_at + touch_throttle_ms ≤ t
      → R.is_member t r.user_id id s ≡ false
      → Revived t id r (touch R t id r s)
  unfolding touch
  unlisted-Revived t id r s due unlisted =
      rw (le→not-ltb (r.last_seen_at + touch_throttle_ms) t due) (record {
        shown = shown;
        stays = λ out later a b h.
            destroy_all-get out later r.user_id id _ b (unlisted_after out a)
            ∙ shown later (omega arith) h;
      })
    where
      after : R.Store
      after = R.expire t r.user_id session_ttl_ms (R.set_ex t id (seen_at t r) session_ttl_ms s)

      shown :
          (later : ℕ)
          → t ≤ later
          → later < t + session_ttl_ms
          → R.get later id after ≡ some (seen_at t r)
      shown later a h =
          L.get-expire t later _ r.user_id id _
          ∙ L.get-set_ex t later _ id id _ s a
          ∙ rw (str_eq_refl id, lt→ltb later (t + session_ttl_ms) h) refl

      and_no : (b : Bool) → b && false ≡ false
      and_no true = refl
      and_no false = refl

      unlisted_after : (out : ℕ) → t ≤ out → R.is_member out r.user_id id after ≡ false
      unlisted_after out a =
          L.member-expire t out _ r.user_id r.user_id id _ a
          ∙ rw
              (
                str_eq_refl r.user_id,
                L.member-set_ex t t session_ttl_ms id r.user_id id (seen_at t r) s,
                unlisted,
              )
              (and_no (ltb out (t + session_ttl_ms)))

  -- If a session is destroyed, or its user signs out everywhere, after its record was loaded and
  -- before it is touched with this record, no less than the throttle after it was last seen, then the
  -- store shows it again for 30 days, and no later sign-out everywhere of its user ends it.
  pub touch-Revived :
      (now t : ℕ) (id : String) (r : SessionRecord) (s : R.Store)
      → R.get now id s ≡ some r
      → now ≤ t
      → r.last_seen_at + touch_throttle_ms ≤ t
      → Revived t id r (touch R t id r (destroy R now id s))
        × Revived t id r (touch R t id r (destroy_all_for_user R now r.user_id s))
  unfolding destroy destroy_loaded destroy_all_for_user
  touch-Revived now t id r s loaded l due = (
    rw loaded (
        unlisted-Revived t id r _ due (
          L.member-srem now t r.user_id r.user_id id id _ l
          ∙ rw (str_eq_refl r.user_id, str_eq_refl id) refl)),
    unlisted-Revived t id r _ due
        (L.member-del_index now t r.user_id r.user_id id _ l ∙ rw (str_eq_refl r.user_id) refl),
  )
