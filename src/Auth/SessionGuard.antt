-- ===== src/Auth/SessionGuard.antt =====
-- SessionGuard, of nest/auth/src/session/session.guard.ts. The session store, the user repository
-- and `toUpperCase` are parameters; the best-effort `touch` is the last component of a grant. A user
-- lookup that throws and a session that is no JSON, whose errors the guard passes on, are left out.
use kvorum.Base.{
  if◌then◌else◌, Bool-cases, Option-cases, is_some, clash, and_true, and_not-false, any, ℕ, String,
  ◌≡◌, refl, sym, ap, ◌∙◌, subst, inl, inr, Bool, true, false, not, ◌&&◌, Option, none, some, List,
  [], ◌∷◌, str_eq, eq_iff,
}

pub record SessionRequest : Type 0 where
  pub method : String
  pub session_cookie : Option String
  pub csrf_cookie : Option String
  pub csrf_header : Option String

pub record SessionRecord : Type 0 where
  pub user_id : String
  pub csrf_token : String

pub record User : Type 0 where
  pub id : String
  pub banned_at : Option ℕ

-- What `store.get` gives.
pub data Loaded : Type 0 where
  loaded : SessionRecord → Loaded
  no_session : Loaded
  store_unavailable : Loaded

pub data Rejection : Type 0 where
  unauthorized forbidden service_unavailable : Rejection

-- A grant has the user, the session's id and record, and the id that is touched.
pub data Decision : Type 0 where
  granted : User → String → SessionRecord → String → Decision
  refused : Rejection → Decision

abbrev pub mutating_methods : List String
mutating_methods = "POST" ∷ "PUT" ∷ "PATCH" ∷ "DELETE" ∷ []

abbrev pub is_mutating : String → Bool
is_mutating m = any (λ x. str_eq x m) mutating_methods

unfoldable pub csrf_ok : Option String → Option String → String → Bool
csrf_ok none cookie expected = false
csrf_ok (some header) none expected = false
csrf_ok (some header) (some cookie) expected = str_eq header cookie && str_eq header expected

module _ (get : String → Loaded) (find_by_id : String → Option User)
    (to_upper_case : String → String) where
  with_user : Option User → String → SessionRecord → Decision
  with_user none id r = refused unauthorized
  with_user (some u) id r = if is_some u.banned_at then refused unauthorized else granted u id r id

  with_record : SessionRequest → String → Loaded → Decision
  unfolding with_user
  with_record request id no_session = refused unauthorized
  with_record request id store_unavailable = refused service_unavailable
  with_record request id (loaded r) =
      if is_mutating (to_upper_case request.method)
        && not (csrf_ok request.csrf_header request.csrf_cookie r.csrf_token)
      then refused forbidden
      else with_user (find_by_id r.user_id) id r

  with_cookie : SessionRequest → Option String → Decision
  unfolding with_record
  with_cookie request none = refused unauthorized
  with_cookie request (some id) =
      if str_eq id "" then refused unauthorized else with_record request id (get id)

  unfoldable pub can_activate : SessionRequest → Decision
  unfolding with_cookie
  can_activate request = with_cookie request request.session_cookie

  -- A session that is held, of a user who is not banned; and for a method that changes state, a
  -- header and a cookie with the token of the session.
  pub record Authentic (request : SessionRequest) (u : User) (id : String) (r : SessionRecord)
      : Type 0 where
    pub cookie : request.session_cookie ≡ some id
    pub held : get id ≡ loaded r
    pub known : find_by_id r.user_id ≡ some u
    pub not_banned : u.banned_at ≡ none
    pub header_is :
        is_mutating (to_upper_case request.method) ≡ true → request.csrf_header ≡ some r.csrf_token
    pub cookie_is :
        is_mutating (to_upper_case request.method) ≡ true → request.csrf_cookie ≡ some r.csrf_token

  csrf_ok→tokens :
      (header cookie : Option String) (expected : String)
      → csrf_ok header cookie expected ≡ true
      → (header ≡ some expected) × (cookie ≡ some expected)
  unfolding csrf_ok
  csrf_ok→tokens none cookie expected h = clash h refl
  csrf_ok→tokens (some a) none expected h = clash h refl
  csrf_ok→tokens (some a) (some b) expected h =
      let (x, y) = and_true (str_eq a b) (str_eq a expected) h in
      let is = (eq_iff a expected).0 y in (ap some is, ap some (sym ((eq_iff a b).0 x) ∙ is))

  -- What a decision says.
  abbrev Grounds : SessionRequest → Decision → Type 0
  Grounds request (granted u id r touched) = Authentic request u id r × (touched ≡ id)
  Grounds request (refused e) = Unit

  with_user-Grounds :
      (request : SessionRequest) (o : Option User) (id : String) (r : SessionRecord)
      → request.session_cookie ≡ some id
      → get id ≡ loaded r
      → find_by_id r.user_id ≡ o
      → (is_mutating (to_upper_case request.method) ≡ true
          → (request.csrf_header ≡ some r.csrf_token) × (request.csrf_cookie ≡ some r.csrf_token))
      → Grounds request (with_user o id r)
  unfolding with_user
  with_user-Grounds request none id r c g f t = tt
  with_user-Grounds request (some u) id r c g f t = elim (Option-cases u.banned_at) [
    | inr (at, e) ↦ rw (ap is_some e, with_user) tt
    | inl e ↦
        rw (ap is_some e, with_user)
          (
            record {
              cookie = c;
              held = g;
              known = f;
              not_banned = e;
              header_is = λ m. (t m).0;
              cookie_is = λ m. (t m).1;
            },
            refl,
          )
  ]

  with_record-Grounds :
      (request : SessionRequest) (l : Loaded) (id : String)
      → request.session_cookie ≡ some id
      → get id ≡ l
      → Grounds request (with_record request id l)
  unfolding with_record
  with_record-Grounds request no_session id c g = tt
  with_record-Grounds request store_unavailable id c g = tt
  with_record-Grounds request (loaded r) id c g =
      let m = is_mutating (to_upper_case request.method) in
      let ok = csrf_ok request.csrf_header request.csrf_cookie r.csrf_token in
      elim (Bool-cases (m && not ok)) [
        | inl e ↦ rw (e, with_record) tt
        | inr e ↦
            rw (e, with_record)
              (with_user-Grounds request (find_by_id r.user_id) id r c g refl (λ h.
                csrf_ok→tokens request.csrf_header request.csrf_cookie r.csrf_token
                  (and_not-false m ok e h)))
      ]

  with_cookie-Grounds :
      (request : SessionRequest) (o : Option String)
      → request.session_cookie ≡ o
      → Grounds request (with_cookie request o)
  unfolding with_cookie
  with_cookie-Grounds request none c = tt
  with_cookie-Grounds request (some id) c = elim (Bool-cases (str_eq id "")) [
    | inl e ↦ rw (e, with_cookie) tt
    | inr e ↦ rw (e, with_cookie) (with_record-Grounds request (get id) id c refl)
  ]

  -- A request that is granted carries the cookie of a session that the store holds, of a user who is
  -- known and not banned, who and which are attached to it and whose session is touched; and if its
  -- method changes state, its header and its cookie both have the session's CSRF token.
  pub can_activate-granted :
      (request : SessionRequest) (u : User) (id : String) (r : SessionRecord) (touched : String)
      → can_activate request ≡ granted u id r touched
      → Authentic request u id r × (touched ≡ id)
  unfolding can_activate
  can_activate-granted request u id r touched h =
      subst (Grounds request) h (with_cookie-Grounds request request.session_cookie refl)
