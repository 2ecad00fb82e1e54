-- ===== src/Tests/Client.antt =====
-- The theorems on the failover client and its health checks at concrete providers.
use kvorum.Base.{
  ◌==◌, if◌then◌else◌, any, ℕ, zero, suc, ◌<◌, String, ◌≡◌, refl, ◌↔◌, Bool, true, false, not,
  Option, none, some, [], ◌∷◌, Memᴰ, arith, str_eq,
}
use kvorum.Chain.Client.Passes.{Spares}
use kvorum.Chain.Breaker.{new_breaker, try_acquire, record_success, record_failure, closed}
use kvorum.Chain.Errors.{categorize_error, JsError, object}
use kvorum.Chain.Client.{
  create_provider_state, Store, preferred, visit, run_pass, send, ProviderState, Turn,
  FailoverRpcClient, answered, rejected, returned,
}
use kvorum.Chain.Client.Answers.{send_returned}
use kvorum.Chain.Client.Failover.{send_fails_over, Responsive}
use kvorum.Chain.Health.{probe_provider, poll_block_numbers}
use kvorum.Chain.Health.Probes.{FirstAnswer, probe_provider_verdict}
use kvorum.Chain.Health.Lag.{poll_block_numbers-preferred}

abbrev provider : String → ℕ → Bool → ProviderState
provider name circuit behind = record {
  name = name;
  circuit = circuit;
  verified = true;
  deprioritized = behind;
  unusable = false;
  last_block_number = none;
  last_health_check_at = none;
  consecutive_health_failures = 0;
}

-- The first provider is timed out by its own transport, the second lags and answers.
abbrev two_providers : FailoverRpcClient
two_providers = record {
  entries = provider "alpha" 0 false ∷ provider "beta" 1 true ∷ [];
  overall_timeout_ms = none;
  stopped = false;
}

abbrev failed_request : JsError
failed_request =
    object (record { code = some "ECONNREFUSED"; status_code = none; inner_code = false })

-- Another send meanwhile fails at the first provider and succeeds at the second one.
abbrev meanwhile : Store → Store
meanwhile c n = if n == 0 then record_failure (c n) 15 else record_success (c n)

abbrev refusing_turn : Turn ℕ
refusing_turn = record {
  checked_at = 10;
  acquired_at = 10;
  outcome = rejected failed_request;
  others = meanwhile;
  settled_at = 20;
  stopped = false;
}

abbrev answering_turn : Turn ℕ
answering_turn = record {
  checked_at = 30;
  acquired_at = 30;
  outcome = answered 7;
  others = λ c. c;
  settled_at = 40;
  stopped = false;
}

abbrev turns : ℕ → Turn ℕ
turns zero = refusing_turn
turns (suc n) = answering_turn

abbrev fresh_store : Store
fresh_store n =
    new_breaker (record { failure_threshold = none; window_ms = none; cooldown_ms = none })

fresh_closed : (n : ℕ) → (fresh_store n).state ≡ closed
unfolding new_breaker
fresh_closed n = refl

turns_spare : (j : ℕ) → Spares 1 (turns j)
unfolding record_success
turns_spare zero s h = refl
turns_spare (suc j) s h = h

refusing_Responsive : Responsive refusing_turn 12000
unfolding categorize_error
refusing_Responsive = record { in_time = omega arith; countable = λ h. cc; not_stopped = refl }

answering_Responsive : Responsive answering_turn 12000
answering_Responsive = record { in_time = omega arith; countable = tt; not_stopped = refl }

send_fails_over_example : (w : ℕ) × ((send two_providers turns none 0 fresh_store).1 ≡ returned w)
send_fails_over_example =
    send_fails_over two_providers turns none 0 fresh_store {p = provider "beta" 1 true} 7 refl
      (((λ h. omega (arith, h)), tt), (tt, tt))
      ((λ h. refusing_Responsive), ((λ h. answering_Responsive), tt)) (Memᴰ.tail (Memᴰ.head refl))
      refl turns_spare (fresh_closed 1) refl

abbrev beta_only : FailoverRpcClient
beta_only = record {
  entries = provider "beta" 1 false ∷ [];
  overall_timeout_ms = some 500;
  stopped = false;
}

beta_answers : (send beta_only turns none 0 fresh_store).1 ≡ returned 7
unfolding send run_pass visit try_acquire new_breaker record_success
beta_answers = refl

send_returned_example :
    (p : ProviderState) × Memᴰ p beta_only.entries
    × (p.verified ≡ true)
    × (p.unusable ≡ false)
    × ((turns p.circuit).outcome ≡ answered 7)
send_returned_example = send_returned beta_only turns none 0 fresh_store 7 beta_answers

abbrev second_answers : ℕ → Option String
second_answers zero = none
second_answers (suc n) = some "1"

probe_provider_verdict_example :
    let p = probe_provider "1" second_answers (create_provider_state "alpha" 0) in
    ((p.verified ≡ true) ↔ ((n : ℕ) × (n < 4) × FirstAnswer second_answers 0 n "1"))
    × (p.unusable ≡ not p.verified)
probe_provider_verdict_example = probe_provider_verdict "1" "alpha" 0 second_answers

abbrev heights : String → Option ℕ
heights name = if str_eq name "alpha" then some 100 else some 200

poll_block_numbers-preferred_example :
    any preferred (poll_block_numbers none heights 5 two_providers.entries) ≡ true
poll_block_numbers-preferred_example =
    poll_block_numbers-preferred none heights 5 two_providers.entries refl
