-- ===== src/Soroban.antt =====
-- What the contracts of `contracts/` use of the Soroban host: an invocation as an action on the
-- contract's own storage and the world around it, the calls that leave the contract, and what the
-- host, the token contracts and the pools promise.
pub mod Action
pub mod Ensures
pub mod Host
pub mod Laws
