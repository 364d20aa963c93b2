-- ===== src/Arbitrage.antt =====
-- crates/arbitrage: which opportunities the bot sends.
pub mod Dedup
