-- ===== src/Lib.antt =====
-- A model of the core of Kvorum, which indexes the governance of DAOs, and what is proved of it.
--
-- The indexer reads chains through a client that fails over between RPC providers, each behind a
-- circuit breaker, and watches over them by health checks. Backfills fetch the logs of past blocks
-- in chunks, a poller follows the confirmed head, and both hand decoded events to listeners that
-- archive them. A derivation worker hands archived events to appliers, which project votes. A
-- reconcile driver checks stale proposals against the chain, off-chain items are archived under
-- versions, forums are read at a paced rate, and scripts and vote choices are decoded. The API
-- limits the rate of its callers, guards its routes by sessions and by API keys, and gives lists
-- page by page.
--
-- The files and the code that they model, by paths from the repository's root:
--   Chain/Breaker       libs/chain/src/breaker/circuit-breaker.ts: tryAcquire, recordSuccess,
--                       recordFailure and recordAbandoned; callers are sequences of calls.
--   Chain/Errors        libs/chain/src/errors/errors.ts: categorizeError.
--   Chain/Client        libs/chain/src/client/failover-rpc-client.ts: send and its two passes.
--   Chain/Health        libs/chain/src/health/health-checker.ts: the chain id probes and the poll of
--                       block numbers.
--   Chain/Logs, Chain/RangeFetcher
--                       libs/chain/src/backfill/range-fetcher.ts: run.
--   Chain/Poller        libs/chain/src/poller/event-poller.ts and libs/chain/src/confirmed-head.ts:
--                       runTick, resolveRange, pollRange and advanceCursor.
--   Sources/Backfill    libs/sources/core/src/backfill/backfill-driver.ts: run in its three modes, on
--                       the range fetcher, and the writes of libs/db/src/dao-source-repository.ts.
--   Sources/Calldata    libs/sources/core/src/calldata/evmscript.ts: decodeEvmScript, and
--                       libs/sources/lido/src/calldata/forwarders.ts: createForwarderRegistry and
--                       unwrapCall, which recurses into the scripts that the first one decodes.
--   Sources/RatePacer   libs/sources/forum/src/client/rate-pacer.ts: acquire, prune and waitMs.
--   Sources/VoteChoice  libs/sources/snapshot/src/domain/vote-choice-decoder.ts: decodeVoteChoice.
--   Sources/Reconcile   libs/sources/core/src/reconcile/reconcile-driver.ts: onConfirmedHeads.
--   Sources/MutableLatest
--                       libs/sources/core/src/offchain/apply-mutable-latest.ts and two statements of
--                       libs/db/src/archive-event-repository.ts.
--   Votes               libs/sources/core/src/vote/vote-rows.ts and, in Votes/Applier,
--                       libs/sources/compound/src/governor/domain/governor-vote-projection-applier.ts.
--   Indexer/Derivation  apps/indexer/src/derivation/derivation-worker.service.ts: tick.
--   Api/RateLimit       apps/api/src/rate-limit: the two Lua scripts and consume and peek.
--   Api/Pagination      apps/api/src/pagination/cursor.ts, put together as
--                       apps/api/src/actors/actor-votes.controller.ts does.
--   Auth                nest/auth/src/session/session.guard.ts and nest/auth/src/api-key.guard.ts,
--                       with pepper.ts and hash.ts of libs/auth/src.
--   Auth/SessionStore   nest/auth/src/session/session.store.ts: create, touch, destroy and
--                       destroyAllForUser, on Redis commands with their laws.
--   Base                tests on numbers and texts and functions on lists that the parts share.
--   Tests               the theorems at concrete inputs.
--
-- A component's state is a record and an operation a function from state to state. What the code
-- calls outside itself is a parameter: the providers' answers, listeners, decoders, Redis' commands,
-- the projection table, the repositories, the HMAC, localeCompare and the ABI decoding; and so is the
-- text of a cursor's payload (base64url, JSON and cursorSchema of cursor.ts), which stays abstract.
-- An answer that may throw is an Option, a result or a Boolean beside the new state. Time is a
-- natural number of milliseconds, and block numbers, which the code keeps in bigint, are natural
-- numbers; a difference that may be negative is compared as a sum. Where a method awaits, what other
-- callers do meanwhile is an argument: the calls of send that change the breakers during a request,
-- and the requests that come between the load of a session and its touch.
--
-- The range fetcher runs on fuel, one round for each block of its range and one more, and the chunk
-- loop within a round on one step for each block of the chunk size and one more. The poller's loop
-- has the bound of the code, 20 chunks. The EVM script decoder has one round for each byte, of which
-- every call takes 24; nested forwards are counted down from the code's depth of 8. The loop of the
-- pacer and the fetching of all pages of a list take fuel, for which their theorems say how much.
--
-- Not modelled: metrics and log lines; timers, intervals and the start and stop of services; SQL
-- that only reads; the appliers of Aave, Lido and Snapshot and the proposals of Compound, the
-- reconcilers of single sources, the AI worker, the dashboard, the admin CLI and the controllers of
-- the API. They are I/O, glue, or not treated yet.
pub mod Base
pub mod Chain
pub mod Api
pub mod Votes
pub mod Indexer
pub mod Sources
pub mod Auth
pub mod Tests
