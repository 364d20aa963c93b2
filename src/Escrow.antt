-- ===== src/Escrow.antt =====
-- contracts/order-escrow/src: the custodian of limit orders and of orders that buy in chunks (DCA),
-- which anyone may fill through the aggregator. `Limit`, `Dca` and `Admin` hold the entry points;
-- `Client` is what the escrow knows of the aggregator.
pub mod Errors
pub mod Storage
pub mod Client
pub mod Admin
pub mod Limit
pub mod Dca
pub mod Orders
pub mod Lifecycle
pub mod Calls
pub mod Custody
