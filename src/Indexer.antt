-- ===== src/Indexer.antt =====
-- apps/indexer/src/derivation: the worker that hands archived events to the projection appliers.
pub mod Derivation
