-- ===== src/Aggregator/Swap.antt =====
-- contracts/aggregator/src/swap.rs, and the entry points `swap` and `swap_restricted` of lib.rs
pub mod Safety
use stellar_dex_agg.Prelude.{
  ℕ, ◌+◌, not, Option, none, some, List, [], ◌∷◌, ℤ, pos, ltb_ℤ, leb_ℤ, leb, ◌==◌, if◌then◌else◌,
  length, u32_max, checked_add,
}
use stellar_dex_agg.Soroban.Action.{◌>>=◌, ◌>>◌, pure, require, unwrap_or_panic, call_unit}
use stellar_dex_agg.Soroban.Host.{Address, Host, Pools, require_auth}
use stellar_dex_agg.SharedTypes.{SubRoute}
use stellar_dex_agg.Aggregator.Errors.{
  invalid_minimum_out, invalid_route, output_below_minimum, arithmetic_overflow,
}
use stellar_dex_agg.Aggregator.Storage.{Event, Agg, publish}
use stellar_dex_agg.Aggregator.Validate.{validate_sub_routes, validate_registered_venues}
use stellar_dex_agg.Aggregator.Invoke.{execute_path}

abbrev checked_add_u32 : ℕ → ℕ → Option ℕ
checked_add_u32 a b = if leb (a + b) u32_max then some (a + b) else none

module _ {W : Type 0} (h : Host W) (pools : Pools W) (self : Address) where
  -- the loop over `sub_routes`: `total_output` and `max_depth` so far
  unfoldable pub run_sub_routes : List SubRoute → ℕ → ℤ → ℕ → Agg W (ℤ × ℕ)
  run_sub_routes [] path_base total_output max_depth = pure (total_output, max_depth)
  run_sub_routes (sr ∷ rest) path_base total_output max_depth = do
    (output, depth) ← execute_path h pools self sr.steps sr.amount_in path_base max_depth
    total ← unwrap_or_panic (checked_add total_output output) arithmetic_overflow
    run_sub_routes rest path_base total depth

  -- returns the total output and the new `leg_counter`
  unfoldable pub execute_sub_routes : List SubRoute → ℕ → Agg W (ℤ × ℕ)
  execute_sub_routes sub_routes leg_counter = do
    (total_output, max_depth) ← run_sub_routes sub_routes leg_counter (pos 0) 0
    counter ← unwrap_or_panic (checked_add_u32 leg_counter max_depth) arithmetic_overflow
    pure (total_output, counter)

  unfoldable pub swap : Address → Address → Address → List SubRoute → ℤ → Agg W ℤ
  swap user token_in token_out sub_routes min_amount_out = do
    require_auth h user
    require (not (token_in == token_out)) invalid_route
    require (ltb_ℤ (pos 0) min_amount_out) invalid_minimum_out
    total_in ← validate_sub_routes token_in token_out sub_routes
    call_unit (h.transfer token_in user self total_in)
    (total_output, leg_counter) ← execute_sub_routes sub_routes 0
    require (leb_ℤ min_amount_out total_output) output_below_minimum
    call_unit (h.transfer token_out self user total_output)
    publish (Event.swap user token_in token_out total_in total_output (length sub_routes))
    pure total_output

  unfoldable pub swap_restricted : Address → Address → Address → List SubRoute → ℤ → Agg W ℤ
  swap_restricted user token_in token_out sub_routes min_amount_out = do
    validate_registered_venues h sub_routes
    swap user token_in token_out sub_routes min_amount_out
