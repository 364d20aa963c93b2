-- ===== src/Router/Split/Optimize.antt =====
-- crates/router-engine/src/split_optimizer.rs: `optimize`.
use stellar_dex_agg.Prelude.{
  ℕ, ◌-◌, ◌/◌, Bool, true, false, not, ◌&&◌, ltb, leb, ◌==◌, if◌then◌else◌, Option, none, some,
  List, [], ◌∷◌, length, u32_max,
}
use stellar_dex_agg.Prelude.Partial.{u128_mul, u128_div, ◌>>=◌}
use stellar_dex_agg.Router.Paths.{take}
use stellar_dex_agg.Router.Split.{
  SplitOptimizer, QuotedPath, OptimalRoute, Leg, as_u32, apply_split_minimum_slippage, sum_out,
  sort_by_out, build_sub_orders, empty_route, single_route,
}
use stellar_dex_agg.Router.Split.Allocate.{optimize_n_paths}
use stellar_dex_agg.Router.Split.Dust.{filter_dust_split_legs}

module _ (o : SplitOptimizer) where
  -- whether the second-best path is close to the best
  unfoldable pub competitive_enough : ℕ → List QuotedPath → Option Bool
  competitive_enough best_out [] = some false
  competitive_enough best_out (second ∷ _) = do
    gap_bps ←
        if best_out == 0
        then some u32_max
        else (u128_mul (best_out - second.quote.amount_out) 10_000 >>= λ scaled.
            some (as_u32 (scaled / best_out)))
    some (leb gap_bps o.config.split_competitive_delta_bps)

  -- the route of a split that is better than the best path alone
  unfoldable pub split_route :
      QuotedPath → ℕ → ℕ → ℕ → List QuotedPath → List Leg → Option OptimalRoute
  split_route best total_amount slippage_bps total_out effective split = do
    orders ← build_sub_orders effective split
    gain ← u128_mul (total_out - best.quote.amount_out) 10_000
    ratio ← u128_div gain best.quote.amount_out
    let improvement = as_u32 ratio
    if ltb improvement o.config.min_split_improvement_bps
        then single_route best total_amount slippage_bps
        else (apply_split_minimum_slippage total_out slippage_bps >>= λ minimum. some (record {
          sub_orders = orders;
          total_amount_in = total_amount;
          total_expected_out = total_out;
          price_impact_bps = best.quote.price_impact_bps / 2;
          is_split = true;
          improvement_bps = improvement;
          minimum_out = minimum;
        }))

  -- what follows once a split is tried
  unfoldable pub try_split : QuotedPath → List QuotedPath → ℕ → ℕ → Option OptimalRoute
  try_split best candidates total_amount slippage_bps = do
    planned ← optimize_n_paths o candidates total_amount
    filtered ← filter_dust_split_legs o candidates planned total_amount
    total_out ← sum_out filtered.1
    if leb total_out best.quote.amount_out
        then single_route best total_amount slippage_bps
        else split_route best total_amount slippage_bps total_out filtered.0 filtered.1

  abbrev pub splits_allowed : Option ℕ → ℕ
  splits_allowed none = o.config.max_splits
  splits_allowed (some n) = n

  unfoldable pub optimize_sorted : List QuotedPath → ℕ → ℕ → Option ℕ → Option OptimalRoute
  optimize_sorted [] total_amount slippage_bps max_splits_override = some (empty_route total_amount)
  optimize_sorted (best ∷ others) total_amount slippage_bps max_splits_override = do
    competitive ← competitive_enough best.quote.amount_out others
    let max_splits = splits_allowed max_splits_override
    if leb max_splits 1
        then single_route best total_amount slippage_bps
        else if length others == 0
        then single_route best total_amount slippage_bps
        else if ltb best.quote.price_impact_bps o.config.split_threshold_bps
            && not (competitive && ltb 0 best.quote.price_impact_bps)
        then single_route best total_amount slippage_bps
        else try_split best (take max_splits (best ∷ others)) total_amount slippage_bps

  unfoldable pub optimize : List QuotedPath → ℕ → ℕ → Option ℕ → Option OptimalRoute
  optimize quoted_paths = optimize_sorted (sort_by_out quoted_paths)
