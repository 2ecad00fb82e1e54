-- ===== src/Chain/Client.antt =====
-- libs/chain/src/client/failover-rpc-client.ts and provider-state.ts. The providers' breakers are
-- shared mutable objects: they live in a store, and a provider's state holds its place there.
-- What happens during one `send` is a turn for each provider: the clock readings, the outcome of
-- the race of the request against the deadline, what other calls of `send` do to the breakers of all
-- providers while the request is in flight, and whether the client was stopped meanwhile.
pub mod Passes
pub mod Distinct
pub mod Answers
pub mod Failover
use kvorum.Base.{
  leb, ◌==◌, if◌then◌else◌, get_or_default, keep, ℕ, ◌+◌, String, Bool, true, false, not, ◌&&◌,
  Option, none, List, [], ◌∷◌, ◌++◌,
}
use kvorum.Chain.Breaker.{
  try_acquire, record_success, record_failure, record_abandoned, CircuitBreaker,
}
use kvorum.Chain.Errors.{
  categorize_error, ErrorReason, ErrorCategory, JsError, timeout, transparent, reason,
}

pub record ProviderState : Type 0 where
  pub name : String
  pub circuit : ℕ  -- the breaker's place in the store
  pub verified : Bool
  pub deprioritized : Bool
  pub unusable : Bool
  pub last_block_number : Option ℕ
  pub last_health_check_at : Option ℕ
  pub consecutive_health_failures : ℕ

unfoldable pub create_provider_state : String → ℕ → ProviderState
create_provider_state name circuit = record {
  name = name;
  circuit = circuit;
  verified = false;
  deprioritized = false;
  unusable = false;
  last_block_number = none;
  last_health_check_at = none;
  consecutive_health_failures = 0;
}

abbrev pub Store : Type 0
Store = ℕ → CircuitBreaker

abbrev pub update : Store → ℕ → CircuitBreaker → Store
update c i b j = if j == i then b else c j

-- How a request to a provider ended: the provider answered, the deadline's timer won the race, or
-- the provider's promise was rejected.
pub data Outcome (T : Type 0) : Type 0 where
  answered : T → Outcome T
  expired : Outcome T
  rejected : JsError → Outcome T

pub record Turn (T : Type 0) : Type 0 where
  pub checked_at : ℕ  -- `Date.now()` at the head of the loop's body
  pub acquired_at : ℕ  -- the breaker's clock in `tryAcquire`
  pub outcome : Outcome T
  pub others : Store → Store
  pub settled_at : ℕ  -- the breaker's clock in `recordFailure`
  pub stopped : Bool  -- `this.stopped` when the request fails

pub record Attempt : Type 0 where
  pub provider : String
  pub why : ErrorReason

pub data SendResult (T : Type 0) : Type 0 where
  returned : T → SendResult T
  client_stopped : SendResult T
  rethrown : JsError → SendResult T
  all_failed : List Attempt → SendResult T

-- How the loop's body ends: `return` or `throw`, `break`, or on to the next provider.
pub data Visit (T : Type 0) : Type 0 where
  ended : SendResult T → Visit T
  stops_pass : List Attempt → Visit T
  next : List Attempt → Visit T

pub data PassEnd (T : Type 0) : Type 0 where
  finished : SendResult T → PassEnd T
  exhausted : List Attempt → PassEnd T

abbrev pub preferred : ProviderState → Bool
preferred p = p.verified && not p.unusable && not p.deprioritized

abbrev pub fallback : ProviderState → Bool
fallback p = p.verified && not p.unusable && p.deprioritized

module _ {T : Type 0} where
  categorized :
      ErrorCategory → JsError → ProviderState → Turn T → List Attempt → Store → Store × Visit T
  categorized transparent err p t attempts c = (c, ended (rethrown err))
  categorized (reason cat) err p t attempts c = (
    update c p.circuit (record_failure (c p.circuit) t.settled_at),
    next (attempts ++ record { provider = p.name; why = cat } ∷ []),
  )

  -- From the `await` on: the store is as it is when the request settles.
  settle : Outcome T → ProviderState → Turn T → List Attempt → Store → Store × Visit T
  unfolding categorized
  settle (answered v) p t attempts c =
      (update c p.circuit (record_success (c p.circuit)), ended (returned v))
  settle expired p t attempts c = if t.stopped then (c, ended client_stopped) else (
    update c p.circuit (record_abandoned (c p.circuit)),
    stops_pass (attempts ++ record { provider = p.name; why = timeout } ∷ []),
  )
  settle (rejected err) p t attempts c =
      if t.stopped
      then (c, ended client_stopped)
      else categorized (categorize_error err) err p t attempts c

  attempt_provider :
      CircuitBreaker × Bool → ProviderState → Turn T → List Attempt → Store → Store × Visit T
  unfolding settle
  attempt_provider (b, true) p t attempts c =
      settle t.outcome p t attempts (t.others (update c p.circuit b))
  attempt_provider (b, false) p t attempts c = (update c p.circuit b, next attempts)

  -- The body of the inner loop, `remaining <= 0` as `start + deadline <= now`.
  unfoldable pub visit : Turn T → ℕ → ProviderState → List Attempt → Store → Store × Visit T
  unfolding attempt_provider
  visit t ends_at p attempts c =
      if leb ends_at t.checked_at
      then (c, stops_pass attempts)
      else attempt_provider (try_acquire (c p.circuit) t.acquired_at) p t attempts c

  unfoldable pub run_pass :
      (ℕ → Turn T) → ℕ → List ProviderState → Store → List Attempt → Store × PassEnd T
  run_pass turn ends_at [] c attempts = (c, exhausted attempts)
  run_pass turn ends_at (p ∷ ps) c attempts =
      let (c', v) = visit (turn p.circuit) ends_at p attempts c in
      elim v [
        | ended r ↦ (c', finished r)
        | stops_pass attempts' ↦ (c', exhausted attempts')
        | next attempts' ↦ run_pass turn ends_at ps c' attempts'
      ]

  pub last_pass : Store × PassEnd T → Store × SendResult T
  last_pass (c, finished r) = (c, r)
  last_pass (c, exhausted attempts) = (c, all_failed attempts)

  pub first_pass : (ℕ → Turn T) → ℕ → List ProviderState → Store × PassEnd T → Store × SendResult T
  unfolding last_pass
  first_pass turn ends_at ps (c, finished r) = (c, r)
  first_pass turn ends_at ps (c, exhausted attempts) =
      last_pass (run_pass turn ends_at (keep fallback ps) c attempts)

-- `entries` in their order of priority.
pub record FailoverRpcClient : Type 0 where
  pub entries : List ProviderState
  pub overall_timeout_ms : Option ℕ
  pub stopped : Bool

abbrev pub deadline_ms : FailoverRpcClient → Option ℕ → ℕ
deadline_ms client opt = get_or_default opt (get_or_default client.overall_timeout_ms 12000)

-- `opt` is `opts?.deadlineMs`, `start` is `deadlineStart`.
unfoldable pub send :
    {T : Type 0} → FailoverRpcClient → (ℕ → Turn T) → Option ℕ → ℕ → Store → Store × SendResult T
unfolding first_pass last_pass
send client turn opt start c =
    if client.stopped
    then (c, client_stopped)
    else first_pass turn (start + deadline_ms client opt) client.entries
        (run_pass turn (start + deadline_ms client opt) (keep preferred client.entries) c [])
