-- ===== src/Keeper.antt =====
-- crates/limit-keeper: the keeper's book of open orders, and how it follows the escrow.
pub mod Book
pub mod Events
pub mod Tracks
pub mod Replay
pub mod Limit
