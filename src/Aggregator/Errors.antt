-- ===== src/Aggregator/Errors.antt =====
-- contracts/aggregator/src/errors.rs
pub data AggregatorError : Type 0 where
  invalid_amount invalid_minimum_out empty_routes invalid_route : AggregatorError
  disconnected_route invalid_step zero_step_output output_below_minimum : AggregatorError
  venue_not_registered arithmetic_overflow not_initialized arithmetic_underflow : AggregatorError
