-- ===== src/Tests.antt =====
-- The theorems at concrete inputs.
mod Breaker
mod Client
mod Ranges
mod RateLimit
mod VoteList
mod Votes
mod Indexer
mod Backfill
mod Auth
mod Calldata
mod RatePacer
mod VoteChoice
mod SessionRedis
mod SessionStore
mod Pagination
mod Reconcile
