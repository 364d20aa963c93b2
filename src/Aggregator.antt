-- ===== src/Aggregator.antt =====
-- contracts/aggregator/src: multi-hop and split swaps over the pools, in one atomic invocation. One
-- child for each source file; the children of those hold proofs.
pub mod Errors
pub mod Storage
pub mod Admin
pub mod Routes
pub mod Validate
pub mod Math
pub mod Invoke
pub mod Swap
pub mod RoundTrip
