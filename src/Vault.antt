-- ===== src/Vault.antt =====
-- contracts/vault: the float that authorized callers trade round trips with.
pub mod Storage
pub mod Admin
pub mod Execute
pub mod Calls
pub mod Trips
pub mod Safety
