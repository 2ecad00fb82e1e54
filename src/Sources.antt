-- ===== src/Sources.antt =====
-- What the sources share, of libs/sources/core/src, and parts of single sources.
pub mod Backfill
pub mod Calldata
pub mod RatePacer
pub mod VoteChoice
pub mod Reconcile
pub mod MutableLatest
