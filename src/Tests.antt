-- ===== src/Tests.antt =====
-- Runs of the contracts over a small world, and the theorems applied to them.
mod World
mod Orders
mod Aggregator
mod Escrow
mod Vault
mod Keeper
mod StableMath
mod Filling
mod Router
mod Finder
mod RateLimit
mod Split
mod Dedup
