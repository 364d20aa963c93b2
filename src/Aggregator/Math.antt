-- ===== src/Aggregator/Math.antt =====
-- contracts/aggregator/src/math.rs
pub mod Scale
pub mod Soroswap
use stellar_dex_agg.Prelude.{
  ◌||◌, not, Option, none, some, List, [], ◌∷◌, ℤ, pos, ◌/ℤ◌, ltb_ℤ, leb_ℤ, if◌then◌else◌, i128_max,
  checked_add, checked_sub, checked_mul,
}
use stellar_dex_agg.Soroban.Action.{Action, ◌>>=◌, ◌>>◌, pure, require, unwrap_or_panic}
use stellar_dex_agg.SharedTypes.{SubRoute}
use stellar_dex_agg.Aggregator.Errors.{
  AggregatorError, invalid_amount, empty_routes, arithmetic_overflow, arithmetic_underflow,
}
use stellar_dex_agg.Aggregator.Validate.{is_empty}

abbrev pub unwrap_or : Option ℤ → ℤ → ℤ
unwrap_or none d = d
unwrap_or (some x) d = x

abbrev and_then : Option ℤ → (ℤ → Option ℤ) → Option ℤ
and_then none f = none
and_then (some x) f = f x

unfoldable pub soroswap_fee : ℤ → ℤ
soroswap_fee amount_in =
    if leb_ℤ amount_in (pos 0)
    then pos 0
    else unwrap_or (and_then (checked_mul amount_in (pos 3)) (λ value. checked_add value (pos 999)))
        i128_max
      /ℤ pos 1000

unfoldable pub soroswap_get_amount_out : ℤ → ℤ → ℤ → ℤ
soroswap_get_amount_out amount_in reserve_in reserve_out =
    if leb_ℤ amount_in (pos 0) || leb_ℤ reserve_in (pos 0) || leb_ℤ reserve_out (pos 0)
    then pos 0
    else (let in_less = unwrap_or (checked_sub amount_in (soroswap_fee amount_in)) (pos 0) in
        if leb_ℤ in_less (pos 0)
        then pos 0
        else unwrap_or (checked_mul in_less reserve_out) i128_max
          /ℤ unwrap_or (checked_add reserve_in in_less) i128_max)

module _ {S : Type 0} where
  unfoldable pub sum_weights : ℤ → List SubRoute → Action S AggregatorError ℤ
  sum_weights weight_sum [] = pure weight_sum
  sum_weights weight_sum (sr ∷ rest) = do
    require (ltb_ℤ (pos 0) sr.amount_in) invalid_amount
    sum ← unwrap_or_panic (checked_add weight_sum sr.amount_in) arithmetic_overflow
    sum_weights sum rest

  -- the loop over the indices from `i` on, with what the routes before `i` were given; the last route
  -- is the one that no other follows
  unfoldable pub scale_from :
      (target_total weight_sum allocated : ℤ)
      → List SubRoute
      → Action S AggregatorError (List SubRoute)
  scale_from target_total weight_sum allocated [] = pure []
  scale_from target_total weight_sum allocated (sr ∷ []) = do
    amount ← unwrap_or_panic (checked_sub target_total allocated) arithmetic_underflow
    require (ltb_ℤ (pos 0) amount) invalid_amount
    pure (record sr { amount_in = amount } ∷ [])
  scale_from target_total weight_sum allocated (sr ∷ next ∷ rest) = do
    product ← unwrap_or_panic (checked_mul sr.amount_in target_total) arithmetic_overflow
    let scaled = product /ℤ weight_sum
    allocated' ← unwrap_or_panic (checked_add allocated scaled) arithmetic_overflow
    require (ltb_ℤ (pos 0) scaled) invalid_amount
    out ← scale_from target_total weight_sum allocated' (next ∷ rest)
    pure (record sr { amount_in = scaled } ∷ out)

  unfoldable pub scale_sub_routes_to_total :
      List SubRoute → ℤ → Action S AggregatorError (List SubRoute)
  unfolding sum_weights scale_from
  scale_sub_routes_to_total routes target_total = do
    require (not (is_empty routes)) empty_routes
    require (ltb_ℤ (pos 0) target_total) invalid_amount
    weight_sum ← sum_weights (pos 0) routes
    scale_from target_total weight_sum (pos 0) routes
