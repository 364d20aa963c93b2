-- ===== src/Router/Split.antt =====
-- crates/router-engine/src/split_optimizer.rs: how an amount is split over several paths. `none` is a
-- panic. The code's floating point is not modelled: which share of an amount goes along a path, that
-- is `brent_maximize` with the two conversions around it, and the comparison of two rates are parameters.
pub mod Allocate
pub mod Dust
pub mod Optimize
pub mod Best
pub mod Legs
pub mod Conserves
pub mod Amounts
pub mod Filter
pub mod Returns
pub mod Shifted
use stellar_dex_agg.Prelude.{
  ℕ, zero, suc, ◌+◌, ◌-◌, ◌*◌, ◌/◌, ◌%◌, ◌^◌, max, min, Bool, true, false, not, ◌&&◌, ◌||◌, ltb,
  leb, ◌==◌, if◌then◌else◌, Option, none, some, List, [], ◌∷◌, ◌++◌, map, length, u32_max,
}
use stellar_dex_agg.Prelude.Partial.{
  u128_in, u128_add, u128_mul, u128_sub, u128_div, saturating_mul, ◌>>=◌,
}
use stellar_dex_agg.Router.Paths.{RoutePath, take}

-- `Quote` of types.rs, by the fields that the optimizer reads
pub record Quote : Type 0 where
  pub amount_in : ℕ
  pub amount_out : ℕ
  pub price_impact_bps : ℕ

pub record QuotedPath : Type 0 where
  pub path : RoutePath
  pub quote : Quote

pub record SplitConfig : Type 0 where
  pub split_threshold_bps : ℕ
  pub split_competitive_delta_bps : ℕ
  pub min_split_fraction_bps : ℕ
  pub min_split_amount_in_bps : ℕ
  pub max_leg_rate_deviation_bps : ℕ
  pub min_split_improvement_bps : ℕ
  pub max_splits : ℕ

-- `SubOrder` of types.rs, without the fraction
pub record SubOrder : Type 0 where
  pub path : RoutePath
  pub amount_in : ℕ
  pub expected_amount_out : ℕ

-- `OptimalRoute` of types.rs, without the time it took and the notes for debugging
pub record OptimalRoute : Type 0 where
  pub sub_orders : List SubOrder
  pub total_amount_in : ℕ
  pub total_expected_out : ℕ
  pub price_impact_bps : ℕ
  pub is_split : Bool
  pub improvement_bps : ℕ
  pub minimum_out : ℕ

-- (amount_in, amount_out) of a leg
abbrev pub Leg : Type 0
Leg = ℕ × ℕ

-- `as u32`
abbrev pub as_u32 : ℕ → ℕ
as_u32 n = n % 2 ^ 32

abbrev pub split_min_output_extra_bps : ℕ
split_min_output_extra_bps = 150

unfoldable pub apply_slippage : ℕ → ℕ → Option ℕ
apply_slippage amount slippage_bps = do
  share ← u128_sub 10_000 slippage_bps
  product ← u128_mul amount share
  some (product / 10_000)

unfoldable pub apply_split_minimum_slippage : ℕ → ℕ → Option ℕ
apply_split_minimum_slippage amount slippage_bps =
    apply_slippage amount (min (slippage_bps + split_min_output_extra_bps) u32_max)

unfoldable pub split_amount_in_fraction_bps : ℕ → ℕ → ℕ
split_amount_in_fraction_bps amount_in total_amount =
    if total_amount == 0 then 0 else as_u32 (saturating_mul amount_in 10_000 / total_amount)

-- `iter().sum()` of the legs' outputs
unfoldable pub sum_out : List Leg → Option ℕ
sum_out [] = some 0
sum_out ((_, out) ∷ legs) = do rest ← sum_out legs; u128_add out rest

unfoldable pub active_nonzero : List Leg → ℕ
active_nonzero [] = 0
active_nonzero ((amount, _) ∷ legs) = (if ltb 0 amount then 1 else 0) + active_nonzero legs

-- `sort_by(|a, b| b.quote.amount_out.cmp(&a.quote.amount_out))`, which is stable
unfoldable pub insert_by_out : QuotedPath → List QuotedPath → List QuotedPath
insert_by_out p [] = p ∷ []
insert_by_out p (q ∷ qs) =
    let rest = insert_by_out p qs in
    if leb q.quote.amount_out p.quote.amount_out then p ∷ q ∷ qs else q ∷ rest

unfoldable pub sort_by_out : List QuotedPath → List QuotedPath
sort_by_out [] = []
sort_by_out (p ∷ ps) = insert_by_out p (sort_by_out ps)

-- The sub-orders: the legs of zero are filtered out and what is left is numbered, so the paths are taken
-- in their order from the first.
unfoldable pub build_sub_orders : List QuotedPath → List Leg → Option (List SubOrder)
build_sub_orders candidates [] = some []
build_sub_orders [] ((amount, out) ∷ legs) =
    let rest = build_sub_orders [] legs in if ltb 0 amount then none else rest
build_sub_orders (c ∷ candidates) ((amount, out) ∷ legs) =
    let rest = build_sub_orders candidates legs in
    let skipped = build_sub_orders (c ∷ candidates) legs in
    if ltb 0 amount
    then (rest >>= λ orders.
        some (record { path = c.path; amount_in = amount; expected_amount_out = out } ∷ orders))
    else skipped

-- `build_planned_split_debug`, by the same fields: here the legs are numbered before the filter.
unfoldable pub build_planned_split : List QuotedPath → List Leg → Option (List SubOrder)
build_planned_split candidates [] = some []
build_planned_split [] ((amount, out) ∷ legs) =
    let rest = build_planned_split [] legs in if ltb 0 amount then none else rest
build_planned_split (c ∷ candidates) ((amount, out) ∷ legs) =
    let rest = build_planned_split candidates legs in
    if ltb 0 amount
    then (rest >>= λ orders.
        some (record { path = c.path; amount_in = amount; expected_amount_out = out } ∷ orders))
    else rest

abbrev pub empty_route : ℕ → OptimalRoute
empty_route total_amount = record {
  sub_orders = [];
  total_amount_in = total_amount;
  total_expected_out = 0;
  price_impact_bps = 0;
  is_split = false;
  improvement_bps = 0;
  minimum_out = 0;
}

-- the route that the early returns build
unfoldable pub single_route : QuotedPath → ℕ → ℕ → Option OptimalRoute
single_route best total_amount slippage_bps = do
  minimum ← apply_slippage best.quote.amount_out slippage_bps
  some (record {
    sub_orders =
        record {
          path = best.path;
          amount_in = total_amount;
          expected_amount_out = best.quote.amount_out;
        }
        ∷ [];
    total_amount_in = total_amount;
    total_expected_out = best.quote.amount_out;
    price_impact_bps = best.quote.price_impact_bps;
    is_split = false;
    improvement_bps = 0;
    minimum_out = minimum;
  })

-- The optimizer with its parameters: `quote_fn`, which asks for a quote; `pick`, the share of an amount
-- that `brent_maximize` finds for an objective; and the comparison of two rates, each by what goes in
-- and comes out, within so many basis points.
pub record SplitOptimizer : Type 0 where
  pub config : SplitConfig
  pub quote_fn : RoutePath → ℕ → Option Quote
  pub pick : (ℕ → Option ℕ) → ℕ → Option ℕ
  pub rates_close : ℕ → ℕ → ℕ → ℕ → ℕ → Bool

abbrev pub amount_of : Option Quote → ℕ
amount_of none = 0
amount_of (some q) = q.amount_out
