-- ===== src/Tests/SessionStore.antt =====
-- The session store's theorem on a day of requests.
use kvorum.Base.{◌≡◌, refl, some, List, [], ◌∷◌, arith}
use kvorum.Auth.SessionStore.{
  new_record, create, touch, destroy, destroy_all_for_user, SessionRecord,
}
use kvorum.Auth.SessionStore.Revived.{touch-Revived, Revived}
use kvorum.Auth.SessionStore.Sessions.{
  no_sessions, session_at, served, Request, creates, touches, destroys, destroys_all,
}
use kvorum.Auth.SessionStore.Refinement.{promised_all, InOrder, served_all, served_all-refines}
use kvorum.Tests.SessionRedis.{keys, keys-RedisLaws}

abbrev session_day : List Request
session_day =
    creates 1 "ann" "a" "t1"
    ∷ creates 2 "bob" "b" "t2"
    ∷ destroys_all 60000 "bob"
    ∷ touches 70000 "a" (new_record 1 "ann" "t1")
    ∷ destroys_all 80000 "bob"
    ∷ destroys 90000 "x"
    ∷ []

session_day-InOrder : InOrder 0 no_sessions [] session_day
session_day-InOrder = (
  omega arith,
  refl,
  (
    omega arith,
    refl,
    (
      omega arith,
      tt,
      (
        omega arith,
        (new_record 1 "ann" "t1", refl, refl),
        (omega arith, tt, (omega arith, tt, tt)),
      ),
    ),
  ),
)

served_all-refines_example :
    keys.get 100000 "a" (served_all keys session_day keys.empty)
    ≡ session_at 100000 "a" (promised_all session_day no_sessions)
served_all-refines_example =
    served_all-refines keys keys-RedisLaws session_day 100000 "a" session_day-InOrder (omega arith)

abbrev ann : SessionRecord
ann = new_record 1 "ann" "t1"

abbrev with_ann : keys.Store
with_ann = served keys (creates 1 "ann" "a" "t1") keys.empty

ann_loaded : keys.get 60000 "a" with_ann ≡ some ann
unfolding served create
ann_loaded = refl

touch-Revived_example :
    Revived keys keys-RedisLaws 60001 "a" ann
      (touch keys 60001 "a" ann (destroy keys 60000 "a" with_ann))
    × Revived keys keys-RedisLaws 60001 "a" ann
        (touch keys 60001 "a" ann (destroy_all_for_user keys 60000 "ann" with_ann))
touch-Revived_example =
    touch-Revived keys keys-RedisLaws 60000 60001 "a" ann with_ann ann_loaded (omega arith)
      (omega arith)
