-- ===== src/Auth/ApiKeyGuard.antt =====
-- ApiKeyGuard, of nest/auth/src/api-key.guard.ts, with pepperCandidates and verifyApiKey of
-- libs/auth/src. The HMAC, the bearer parser and the repository's lookup are parameters; hashes and
-- peppers are texts. The best-effort writes are part of the decision. Metrics are left out.
use kvorum.Base.{
  if◌then◌else◌, Bool-cases, Option-cases, clash, and_true, String, ◌≡◌, refl, sym, ap, ◌∙◌, subst,
  ◌≢◌, ◌⊎◌, inl, inr, Bool, true, false, ◌&&◌, ◌||◌, Option, none, some, List, [], ◌∷◌, str_eq,
  eq_iff,
}

pub record PepperSet : Type 0 where
  pub current : String
  pub previous : Option String

pub record ApiRequest : Type 0 where
  pub method : String
  pub internal_read_token : Option String
  pub authorization : Option String

-- What `findActiveByHash` gives.
pub record KeyLookup : Type 0 where
  pub user : String
  pub api_key_id : String

pub data PepperLabel : Type 0 where
  by_current by_previous : PepperLabel

pub record PepperCandidate : Type 0 where
  pub pepper : PepperLabel
  pub hash : String

pub data RejectionReason : Type 0 where
  missing malformed unknown hash_mismatch : RejectionReason

-- A request with a key has its lookup, and the hash that `rehashKey` stores, if it is called.
pub data KeyDecision : Type 0 where
  public_route : KeyDecision
  internal_read : KeyDecision
  with_key : KeyLookup → Option String → KeyDecision
  rejected : RejectionReason → KeyDecision

abbrev pub is_read : String → Bool
is_read m = str_eq m "GET" || str_eq m "HEAD"

-- `constantTimeEquals`
abbrev pub same_text : Option String → String → Bool
same_text none token = false
same_text (some t) token = str_eq t token

-- `internalReadToken !== undefined && … && constantTimeEquals(…)`
unfoldable pub is_internal_read : Option String → ApiRequest → Bool
is_internal_read none request = false
is_internal_read (some token) request =
    is_read request.method && same_text request.internal_read_token token

same_text→eq : (o : Option String) (t : String) → same_text o t ≡ true → o ≡ some t
same_text→eq none t h = clash h refl
same_text→eq (some x) t h = ap some ((eq_iff x t).0 h)

is_mismatch : RejectionReason → Bool
is_mismatch hash_mismatch = true
is_mismatch _ = false

module _ (hash_api_key : String → String → String) (parse_bearer : String → Option String)
    (find_active_by_hash : String → Option KeyLookup) where
  unfoldable pub pepper_candidates : PepperSet → String → List PepperCandidate
  pepper_candidates p key =
      record { pepper = by_current; hash = hash_api_key p.current key } ∷ elim p.previous [
        | none ↦ []
        | some old ↦ record { pepper = by_previous; hash = hash_api_key old key } ∷ []
      ]

  -- The loop over the candidates: the first with a lookup.
  unfoldable pub first_match : List PepperCandidate → Option (PepperCandidate × KeyLookup)
  first_match [] = none
  first_match (c ∷ cs) =
      let rest = first_match cs in
      elim (find_active_by_hash c.hash) [ none ↦ rest | some l ↦ some (c, l) ]

  unfoldable pub verify_api_key : String → String → String → Bool
  verify_api_key pepper key stored = str_eq (hash_api_key pepper key) stored

  -- `matchedPepper === 'current' ? current : previous!`, none where there is no previous one.
  abbrev pub pepper_of : PepperSet → PepperLabel → Option String
  pepper_of p by_current = some p.current
  pepper_of p by_previous = p.previous

  verify_with : Option String → String → String → Bool
  verify_with none key stored = false
  verify_with (some pepper) key stored = verify_api_key pepper key stored

  abbrev rehashed : PepperSet → PepperLabel → String → Option String
  rehashed p by_current key = none
  rehashed p by_previous key = some (hash_api_key p.current key)

  matched : PepperSet → String → Option (PepperCandidate × KeyLookup) → KeyDecision
  unfolding verify_with
  matched p key none = rejected unknown
  matched p key (some (c, l)) =
      if verify_with (pepper_of p c.pepper) key c.hash
      then with_key l (rehashed p c.pepper key)
      else rejected hash_mismatch

  parsed : PepperSet → Option String → KeyDecision
  unfolding matched
  parsed p none = rejected malformed
  parsed p (some key) = matched p key (first_match (pepper_candidates p key))

  authorized : PepperSet → Option String → KeyDecision
  unfolding parsed
  authorized p none = rejected missing
  authorized p (some header) = parsed p (parse_bearer header)

  unfoldable pub can_activate : PepperSet → Option String → Bool → ApiRequest → KeyDecision
  unfolding authorized
  can_activate p token is_public request =
      if is_public
      then public_route
      else if is_internal_read token request
      then internal_read
      else authorized p request.authorization

  -- What is found with a key: by the hash of the current pepper, without a rehash; or else by the
  -- one of the previous pepper, with a rehash under the current one.
  abbrev pub FoundBy : PepperSet → String → KeyLookup → Option String → Type 0
  FoundBy p key l rehash =
      ((find_active_by_hash (hash_api_key p.current key) ≡ some l) × (rehash ≡ none))
      ⊎ ((old : String) × (p.previous ≡ some old)
          × (find_active_by_hash (hash_api_key p.current key) ≡ none)
          × (find_active_by_hash (hash_api_key old key) ≡ some l)
          × (rehash ≡ some (hash_api_key p.current key)))

  -- What a decision says of the request.
  abbrev pub Grounds : PepperSet → Option String → Bool → ApiRequest → KeyDecision → Type 0
  Grounds p token is_public request public_route = is_public ≡ true
  Grounds p token is_public request internal_read =
      (t : String) × (token ≡ some t)
      × (request.internal_read_token ≡ some t)
      × (is_read request.method ≡ true)
  Grounds p token is_public request (with_key l rehash) =
      (header : String) × (key : String) × (request.authorization ≡ some header)
      × (parse_bearer header ≡ some key)
      × FoundBy p key l rehash
  Grounds p token is_public request (rejected reason) = reason ≢ hash_mismatch

  internal_read_grounds :
      (token : Option String) (request : ApiRequest)
      → is_internal_read token request ≡ true
      → (t : String) × (token ≡ some t)
        × (request.internal_read_token ≡ some t)
        × (is_read request.method ≡ true)
  unfolding is_internal_read
  internal_read_grounds none request h = clash h refl
  internal_read_grounds (some t) request h =
      let (a, b) = and_true (is_read request.method) (same_text request.internal_read_token t) h in
      (t, refl, same_text→eq request.internal_read_token t b, a)

  first_match_previous :
      (p : PepperSet) (key old : String) (l : KeyLookup)
      → p.previous ≡ some old
      → find_active_by_hash (hash_api_key p.current key) ≡ none
      → find_active_by_hash (hash_api_key old key) ≡ some l
      → first_match (pepper_candidates p key)
        ≡ some (record { pepper = by_previous; hash = hash_api_key old key }, l)
  unfolding first_match pepper_candidates
  first_match_previous p key old l f e g = rw (e, f, g, first_match) refl

  matched_previous :
      (p : PepperSet) (key old : String) (l : KeyLookup)
      → p.previous ≡ some old
      → matched p key (some (record { pepper = by_previous; hash = hash_api_key old key }, l))
        ≡ with_key l (some (hash_api_key p.current key))
  unfolding matched verify_api_key
  matched_previous p key old l f =
      rw
        (
          ap (λ o. verify_with o key (hash_api_key old key)) f
              ∙ (eq_iff (hash_api_key old key) _).1 refl,
          matched,
        )
        refl

  -- A match of the candidates gives its decision.
  matched-Grounds :
      (p : PepperSet) (token : Option String) (is_public : Bool) (request : ApiRequest)
      (header key : String)
      → request.authorization ≡ some header
      → parse_bearer header ≡ some key
      → Grounds p token is_public request (matched p key (first_match (pepper_candidates p key)))
  unfolding matched first_match pepper_candidates verify_api_key is_mismatch
  matched-Grounds p token is_public request header key a b =
      elim (Option-cases (find_active_by_hash (hash_api_key p.current key))) [
        | inr (l, e) ↦
            rw (e, (eq_iff (hash_api_key p.current key) _).1 refl, matched)
              (header, key, a, b, inl (e, refl))
        | inl e ↦ elim (Option-cases p.previous) [
          | inl f ↦ rw (e, f, first_match, matched) (λ x. clash refl (ap is_mismatch (sym x)))
          | inr (old, f) ↦ elim (Option-cases (find_active_by_hash (hash_api_key old key))) [
            | inl g ↦ rw (e, f, g, first_match, matched) (λ x. clash refl (ap is_mismatch (sym x)))
            | inr (l, g) ↦
                subst (Grounds p token is_public request)
                  (sym (
                    ap (matched p key) (first_match_previous p key old l f e g)
                    ∙ matched_previous p key old l f))
                  (header, key, a, b, inr (old, f, e, g, refl))
          ]
        ]
      ]

  authorized-Grounds :
      (p : PepperSet) (token : Option String) (is_public : Bool) (request : ApiRequest)
      (o : Option String)
      → request.authorization ≡ o
      → Grounds p token is_public request (authorized p o)
  unfolding authorized parsed is_mismatch
  authorized-Grounds p token is_public request none a = λ x. clash refl (ap is_mismatch (sym x))
  authorized-Grounds p token is_public request (some header) a =
      elim (Option-cases (parse_bearer header)) [
        | inl e ↦ rw (e, parsed) (λ x. clash refl (ap is_mismatch (sym x)))
        | inr (key, e) ↦ rw (e, parsed) (matched-Grounds p token is_public request header key a e)
      ]

  -- What each decision of the guard rests on. A request passes without a key only if its route is
  -- public, or if it is a GET or HEAD that carries the internal read token and one is configured. It
  -- passes with the key of a lookup only if its bearer key's hash under the current pepper is that
  -- of the lookup, and then the key is not rehashed, or if that hash is unknown and the one under
  -- the previous pepper is that of the lookup, and then the key is rehashed under the current
  -- pepper. The rejection for a hash that does not match is not reached.
  pub can_activate-Grounds :
      (p : PepperSet) (token : Option String) (is_public : Bool) (request : ApiRequest)
      → Grounds p token is_public request (can_activate p token is_public request)
  unfolding can_activate
  can_activate-Grounds p token true request = refl
  can_activate-Grounds p token false request = elim (Bool-cases (is_internal_read token request)) [
    | inl e ↦ rw (e, can_activate) (internal_read_grounds token request e)
    | inr e ↦
        rw (e, can_activate) (authorized-Grounds p token false request request.authorization refl)
  ]
