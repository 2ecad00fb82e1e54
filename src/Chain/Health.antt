-- ===== src/Chain/Health.antt =====
-- libs/chain/src/health/health-checker.ts. The providers' answers are arguments: one list of answers
-- to the chain id probes of each provider, and one answer to each block number poll. A `bigint`
-- difference is compared as a sum. Metrics and log lines are left out.
pub mod Probes
pub mod Lag
use kvorum.Base.{
  ltb, if◌then◌else◌, get_or_default, any, ℕ, zero, suc, ◌+◌, max, String, Bool, true, not, ◌&&◌,
  Option, none, some, List, [], ◌∷◌, map, str_eq,
}
use kvorum.Chain.Client.{ProviderState}

-- The answer to one `eth_chainId`, after `normalizeChainId`: `none` where `send` or the parse threw.
pub data Probe : Type 0 where
  verified_probe mismatched exhausted_probes : Probe

-- The retry loop: at most `rounds` attempts, ended by the first answer, which either is the
-- configured chain id or condemns the provider.
unfoldable pub probe_chain_id : String → ℕ → (ℕ → Option String) → ℕ → Probe
probe_chain_id chain_id zero answer attempt = exhausted_probes
probe_chain_id chain_id (suc rounds) answer attempt = elim (answer attempt) [
  | none ↦ probe_chain_id chain_id rounds answer (suc attempt)
  | some reported ↦ if str_eq reported chain_id then verified_probe else mismatched
]

-- `CHAIN_ID_RETRY_DELAYS_MS.length + 1`.
abbrev pub probe_attempts : ℕ
probe_attempts = 4

settle_probe : Probe → ProviderState → ProviderState
settle_probe verified_probe p = record p { verified = true }
settle_probe mismatched p = record p { unusable = true }
settle_probe exhausted_probes p = record p { unusable = true }

unfoldable pub probe_provider : String → (ℕ → Option String) → ProviderState → ProviderState
unfolding settle_probe
probe_provider chain_id answer p = settle_probe (probe_chain_id chain_id probe_attempts answer 0) p

probe_all : String → (String → ℕ → Option String) → List ProviderState → List ProviderState
unfolding probe_provider
probe_all chain_id answers [] = []
probe_all chain_id answers (p ∷ ps) =
    probe_provider chain_id (answers p.name) p ∷ probe_all chain_id answers ps

-- The states after the probes, and whether at least one provider is verified: the code throws a
-- `ChainConfigError` otherwise.
unfoldable pub run_initial_chain_id_probes :
    String → (String → ℕ → Option String) → List ProviderState → List ProviderState × Bool
unfolding probe_all
run_initial_chain_id_probes chain_id answers ps =
    let ps' = probe_all chain_id answers ps in (ps', any (λ p. p.verified) ps')

abbrev pub eligible : ProviderState → Bool
eligible p = p.verified && not p.unusable

-- One answer to `eth_blockNumber`, `none` where the call or `BigInt` threw, at the time `now`.
polled : Option ℕ → ℕ → ProviderState → ProviderState
polled none now p = record p {
  consecutive_health_failures = p.consecutive_health_failures + 1;
  last_health_check_at = some now;
}
polled (some block) now p = record p {
  last_block_number = some block;
  last_health_check_at = some now;
  consecutive_health_failures = 0;
}

abbrev pub answered_block : Option ℕ → ℕ
answered_block none = 0
answered_block (some block) = block

-- The highest block among the eligible providers that answered, from `0n`.
unfoldable pub leader : (String → Option ℕ) → List ProviderState → ℕ
leader answer [] = 0
leader answer (p ∷ ps) =
    let rest = leader answer ps in
    if eligible p then max (answered_block (answer p.name)) rest else rest

-- `lag > lagThreshold`, for `lag = leader - lastBlockNumber`, which may be negative.
judged : ℕ → ℕ → Option ℕ → ProviderState → ProviderState
judged top threshold none p = p
judged top threshold (some last) p = record p { deprioritized = ltb (last + threshold) top }

unfoldable pub poll_provider : ℕ → ℕ → Option ℕ → ℕ → ProviderState → ProviderState
unfolding polled judged
poll_provider top threshold answer now p =
    if eligible p
    then (let p' = polled answer now p in judged top threshold p'.last_block_number p')
    else p

-- `threshold` is `config.lagThresholdBlocks ?? 3`.
unfoldable pub poll_block_numbers :
    Option ℕ → (String → Option ℕ) → ℕ → List ProviderState → List ProviderState
poll_block_numbers threshold answer now ps =
    map (λ p. poll_provider (leader answer ps) (get_or_default threshold 3) (answer p.name) now p)
      ps
