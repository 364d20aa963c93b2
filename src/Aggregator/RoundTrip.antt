-- ===== src/Aggregator/RoundTrip.antt =====
-- contracts/aggregator/src/round_trip.rs
pub mod Safety
use stellar_dex_agg.Prelude.{not, ◌||◌, List, ℤ, pos, ltb_ℤ, leb_ℤ, ltb, ◌==◌, ◌==ℤ◌, length}
use stellar_dex_agg.Soroban.Action.{◌>>=◌, ◌>>◌, pure, require, call_unit}
use stellar_dex_agg.Soroban.Host.{Address, Host, Pools, require_auth}
use stellar_dex_agg.SharedTypes.{SubRoute}
use stellar_dex_agg.Aggregator.Errors.{
  invalid_amount, invalid_minimum_out, invalid_route, zero_step_output, output_below_minimum,
}
use stellar_dex_agg.Aggregator.Storage.{Event, Agg, publish}
use stellar_dex_agg.Aggregator.Validate.{validate_sub_routes}
use stellar_dex_agg.Aggregator.Math.{scale_sub_routes_to_total}
use stellar_dex_agg.Aggregator.Swap.{execute_sub_routes}

module _ {W : Type 0} (h : Host W) (pools : Pools W) (self : Address) where
  unfoldable pub round_trip_swap :
      (user base_token bridge_token : Address) (amount_in : ℤ) (leg_out leg_back : List SubRoute)
      (min_amount_out : ℤ)
      → Agg W ℤ
  round_trip_swap user base_token bridge_token amount_in leg_out leg_back min_amount_out = do
    require_auth h user
    require (ltb_ℤ (pos 0) amount_in) invalid_amount
    require (leb_ℤ amount_in min_amount_out) invalid_minimum_out
    require (not (base_token == bridge_token)) invalid_route
    leg_out_in ← validate_sub_routes base_token bridge_token leg_out
    validate_sub_routes bridge_token base_token leg_back
    require (leg_out_in ==ℤ amount_in) invalid_amount
    let is_split = ltb 1 (length leg_out) || ltb 1 (length leg_back)
    call_unit (h.transfer base_token user self amount_in)
    (bridge_total, counter) ← execute_sub_routes h pools self leg_out 0
    require (ltb_ℤ (pos 0) bridge_total) zero_step_output
    scaled_back ← scale_sub_routes_to_total leg_back bridge_total
    (base_total, leg_counter) ← execute_sub_routes h pools self scaled_back counter
    require (leb_ℤ min_amount_out base_total) output_below_minimum
    call_unit (h.transfer base_token self user base_total)
    publish (Event.rt user base_token bridge_token amount_in base_total leg_counter is_split)
    pure base_total
