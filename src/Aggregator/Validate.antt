-- ===== src/Aggregator/Validate.antt =====
-- contracts/aggregator/src/validate.rs
pub mod WellFormed
use stellar_dex_agg.Prelude.{Bool, not, List, [], ◌∷◌, ℤ, pos, ltb_ℤ, ◌==◌, checked_add}
use stellar_dex_agg.Soroban.Action.{Action, ◌>>=◌, ◌>>◌, pure, require, unwrap_or_panic}
use stellar_dex_agg.Soroban.Host.{Address, Host}
use stellar_dex_agg.SharedTypes.{SwapStep, SubRoute}
use stellar_dex_agg.Aggregator.Errors.{
  AggregatorError, invalid_amount, empty_routes, invalid_route, disconnected_route,
  venue_not_registered, arithmetic_overflow,
}
use stellar_dex_agg.Aggregator.Storage.{Agg}
use stellar_dex_agg.Aggregator.Admin.{is_venue}

module _ {ℓ} {A : Type ℓ} where
  abbrev pub is_empty : List A → Bool
  is_empty [] = Bool.true
  is_empty (_ ∷ _) = Bool.false

-- `steps.last()`, of a list that begins with the given step
abbrev pub last_step : SwapStep → List SwapStep → SwapStep
last_step s [] = s
last_step s (t ∷ ts) = last_step t ts

module _ {S : Type 0} where
  -- the loop over `steps.iter().skip(1)`
  unfoldable pub check_connected : SwapStep → List SwapStep → Action S AggregatorError (Unit {0})
  check_connected previous [] = pure tt
  check_connected previous (current ∷ rest) = do
    require (previous.token_out == current.token_in) disconnected_route
    check_connected current rest

  unfoldable pub check_steps :
      Address → Address → List SwapStep → Action S AggregatorError (Unit {0})
  unfolding check_connected
  check_steps token_in token_out [] = require Bool.false invalid_route
  check_steps token_in token_out (first ∷ rest) = do
    require (first.token_in == token_in) invalid_route
    require ((last_step first rest).token_out == token_out) invalid_route
    check_connected first rest

  -- the loop over `sub_routes`, with `total_in` so far
  unfoldable pub check_routes : Address → Address → ℤ → List SubRoute → Action S AggregatorError ℤ
  unfolding check_steps
  check_routes token_in token_out total_in [] = pure total_in
  check_routes token_in token_out total_in (sr ∷ rest) = do
    require (ltb_ℤ (pos 0) sr.amount_in) invalid_amount
    total ← unwrap_or_panic (checked_add total_in sr.amount_in) arithmetic_overflow
    check_steps token_in token_out sr.steps
    check_routes token_in token_out total rest

  unfoldable pub validate_sub_routes :
      Address → Address → List SubRoute → Action S AggregatorError ℤ
  unfolding check_routes
  validate_sub_routes token_in token_out sub_routes = do
    require (not (is_empty sub_routes)) empty_routes
    check_routes token_in token_out (pos 0) sub_routes

module _ {W : Type 0} (h : Host W) where
  unfoldable pub check_venues : List SwapStep → Agg W (Unit {0})
  unfolding is_venue
  check_venues [] = pure tt
  check_venues (step ∷ rest) = do
    registered ← is_venue h step.dex_type step.dex_id
    require registered venue_not_registered
    check_venues rest

  unfoldable pub validate_registered_venues : List SubRoute → Agg W (Unit {0})
  unfolding check_venues
  validate_registered_venues [] = pure tt
  validate_registered_venues (route ∷ rest) = do
    check_venues route.steps
    validate_registered_venues rest
