-- ===== src/Escrow/Errors.antt =====
-- contracts/order-escrow/src/errors.rs
pub data EscrowError : Type 0 where
  not_initialized already_initialized invalid_amount invalid_limit same_token : EscrowError
  expiration_in_past expiration_too_far order_not_found order_not_open : EscrowError
  order_expired order_not_expired amount_exceeds_remaining invalid_route_amount : EscrowError
  minimum_out_below_limit invalid_chunk invalid_interval start_ledger_in_past : EscrowError
  invalid_minimum_rate chunk_not_due arithmetic_overflow : EscrowError
