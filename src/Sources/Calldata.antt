-- ===== src/Sources/Calldata.antt =====
-- The decoders of call data: libs/sources/core/src/calldata and libs/sources/lido/src/calldata.
pub mod Hex
pub mod EvmScript
pub mod Forwarders
