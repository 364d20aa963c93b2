-- ===== src/Router/Split/Allocate.antt =====
-- crates/router-engine/src/split_optimizer.rs: how an amount is divided over the paths.
use stellar_dex_agg.Prelude.{
  ℕ, ◌-◌, ◌/◌, max, Bool, not, ◌&&◌, ◌||◌, ltb, ◌==◌, if◌then◌else◌, Option, none, some, List, [],
  ◌∷◌,
}
use stellar_dex_agg.Prelude.Partial.{u128_add, saturating_mul, ◌>>=◌}
use stellar_dex_agg.Router.Paths.{RoutePath}
use stellar_dex_agg.Router.Split.{SplitOptimizer, QuotedPath, Leg, sum_out, amount_of}

module _ (o : SplitOptimizer) where
  -- `quote_fn(..).map(|q| q.amount_out).unwrap_or(0)`
  unfoldable pub quoted_out : RoutePath → ℕ → ℕ
  quoted_out path amount = amount_of (o.quote_fn path amount)

  -- the same unless the amount is zero
  unfoldable pub out_if_any : RoutePath → ℕ → ℕ
  out_if_any path amount = if ltb 0 amount then quoted_out path amount else 0

  unfoldable pub leg_rate_matches_full_quote : QuotedPath → ℕ → ℕ → Bool
  leg_rate_matches_full_quote quoted leg_in leg_out =
      not (leg_in == 0 || leg_out == 0)
      && not (quoted.quote.amount_in == 0 || quoted.quote.amount_out == 0)
      && o.rates_close quoted.quote.amount_in quoted.quote.amount_out leg_in leg_out
          o.config.max_leg_rate_deviation_bps

  unfoldable pub optimize_two_paths : RoutePath → RoutePath → ℕ → Option (List Leg)
  optimize_two_paths path_a path_b total_amount = do
    amount_a ←
        o.pick (λ a. u128_add (out_if_any path_a a) (out_if_any path_b (total_amount - a)))
          total_amount
    let amount_b = total_amount - amount_a
    some ((amount_a, out_if_any path_a amount_a) ∷ (amount_b, out_if_any path_b amount_b) ∷ [])

  -- `paths.iter().map(|p| p.quote.amount_out.max(1)).sum()`
  unfoldable pub weight_sum : List QuotedPath → Option ℕ
  weight_sum [] = some 0
  weight_sum (p ∷ ps) = do rest ← weight_sum ps; u128_add (max p.quote.amount_out 1) rest

  -- the loop over the paths; the last takes what is left
  unfoldable pub weighted_out : ℕ → ℕ → ℕ → List QuotedPath → Option ℕ
  weighted_out total_amount sum allocated [] = some 0
  weighted_out total_amount sum allocated (p ∷ []) =
      some (out_if_any p.path (total_amount - allocated))
  weighted_out total_amount sum allocated (p ∷ q ∷ ps) = do
    let share = saturating_mul total_amount (max p.quote.amount_out 1) / sum
    allocated' ← u128_add allocated share
    rest ← weighted_out total_amount sum allocated' (q ∷ ps)
    u128_add (out_if_any p.path share) rest

  unfoldable pub approximate_weighted_paths_output : List QuotedPath → ℕ → Option ℕ
  approximate_weighted_paths_output paths total_amount =
      if total_amount == 0
      then some 0
      else (weight_sum paths >>= λ sum. weighted_out total_amount (max sum 1) 0 paths)

  unfoldable pub total_out_for_paths : List QuotedPath → ℕ → Option ℕ
  total_out_for_paths [] total_amount = some 0
  total_out_for_paths (p ∷ []) total_amount =
      if total_amount == 0 then some 0 else some (quoted_out p.path total_amount)
  total_out_for_paths (p ∷ q ∷ []) total_amount =
      if total_amount == 0
      then some 0
      else (optimize_two_paths p.path q.path total_amount >>= sum_out)
  total_out_for_paths (p ∷ q ∷ r ∷ ps) total_amount =
      approximate_weighted_paths_output (p ∷ q ∷ r ∷ ps) total_amount

  unfoldable pub optimize_n_paths : List QuotedPath → ℕ → Option (List Leg)
  optimize_n_paths [] total_amount = none
  optimize_n_paths (p ∷ []) total_amount =
      some ((total_amount, quoted_out p.path total_amount) ∷ [])
  optimize_n_paths (p ∷ q ∷ []) total_amount = optimize_two_paths p.path q.path total_amount
  optimize_n_paths (p ∷ q ∷ r ∷ ps) total_amount = do
    amount_a ←
        o.pick
          (λ a. total_out_for_paths (q ∷ r ∷ ps) (total_amount - a) >>= λ out_rest.
            u128_add (quoted_out p.path a) out_rest)
          total_amount
    let amount_rest = total_amount - amount_a
    let recursive = optimize_n_paths (q ∷ r ∷ ps) amount_rest
    rest ← if ltb 0 amount_rest then recursive else some []
    some ((amount_a, quoted_out p.path amount_a) ∷ rest)
