-- ===== src/Escrow/Custody.antt =====
-- contracts/order-escrow/src/lib.rs: what every entry point keeps. Covers is about what moves in and
-- out, Limits and Dcas about the two kinds of orders, Reach about all calls in any order, Spacing about
-- two fills of one DCA order, and Refunds about how an owner gets the rest of an order back.
pub mod Covers
pub mod Limits
pub mod Dcas
pub mod Reach
pub mod Spacing
pub mod Refunds
