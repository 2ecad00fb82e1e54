-- ===== src/Tests/Auth.antt =====
-- The guards' theorems at concrete requests.
use kvorum.Base.{if◌then◌else◌, String, ◌≡◌, refl, false, Option, none, some, str_eq}
use kvorum.Auth.ApiKeyGuard.{
  can_activate as key_can_activate, Grounds, can_activate-Grounds, PepperSet, ApiRequest, KeyLookup,
}
use kvorum.Auth.SessionGuard.{
  csrf_ok, can_activate, can_activate-granted, SessionRequest, SessionRecord, User, Loaded,
  Authentic, loaded, granted,
}

abbrev posted : SessionRequest
posted = record {
  method = "POST";
  session_cookie = some "id";
  csrf_cookie = some "token";
  csrf_header = some "token";
}

abbrev one_session : SessionRecord
one_session = record { user_id = "u"; csrf_token = "token" }

abbrev one_user : User
one_user = record { id = "u"; banned_at = none }

abbrev sessions : String → Loaded
sessions id = loaded one_session

abbrev users : String → Option User
users id = some one_user

abbrev touched : String
touched = "id"

abbrev same : String → String
same m = m

posted_is_granted : can_activate sessions users same posted ≡ granted one_user "id" one_session "id"
unfolding can_activate csrf_ok
posted_is_granted = refl

can_activate-granted_example :
    Authentic sessions users same posted one_user "id" one_session × (touched ≡ "id")
can_activate-granted_example =
    can_activate-granted sessions users same posted one_user "id" one_session touched
      posted_is_granted

abbrev peppers : PepperSet
peppers = record { current = "new"; previous = some "old" }

-- A key that is stored under the previous pepper.
abbrev old_keys : String → Option KeyLookup
old_keys hash = if str_eq hash "old" then some (record { user = "u"; api_key_id = "k" }) else none

abbrev bearer_request : ApiRequest
bearer_request = record {
  method = "GET";
  internal_read_token = none;
  authorization = some "Bearer k";
}

abbrev by_pepper : String → String → String
by_pepper pepper key = pepper

can_activate-Grounds_example :
    Grounds by_pepper some old_keys peppers
      (some "secret")
      false
      bearer_request
      (key_can_activate by_pepper some old_keys peppers (some "secret") false bearer_request)
can_activate-Grounds_example =
    can_activate-Grounds by_pepper some old_keys peppers (some "secret") false bearer_request
