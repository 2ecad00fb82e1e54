-- ===== src/Chain.antt =====
-- libs/chain: the circuit breaker, the fail-over client, provider health, log fetching and polling.
pub mod Breaker
pub mod Errors
pub mod Client
pub mod Health
pub mod Logs
pub mod RangeFetcher
pub mod Poller
