-- ===== src/Router/Split/Dust.antt =====
-- crates/router-engine/src/split_optimizer.rs: the filter of small legs.
use stellar_dex_agg.Prelude.{
  ℕ, zero, suc, ◌/◌, Bool, false, ◌&&◌, ◌||◌, ltb, leb, ◌==◌, if◌then◌else◌, Option, none, some,
  List, [], ◌∷◌, length,
}
use stellar_dex_agg.Prelude.Partial.{u128_mul, ◌>>=◌}
use stellar_dex_agg.Router.Split.{
  SplitOptimizer, QuotedPath, Leg, as_u32, split_amount_in_fraction_bps, sum_out, active_nonzero,
}
use stellar_dex_agg.Router.Split.Allocate.{
  quoted_out, leg_rate_matches_full_quote, optimize_n_paths,
}

module _ (o : SplitOptimizer) where
  -- whether a leg is kept
  unfoldable pub is_kept : ℕ → ℕ → QuotedPath → Leg → Option Bool
  is_kept total_amount total_out candidate (amount, out) =
      if amount == 0
      then some false
      else (u128_mul out 10_000 >>= λ scaled. some (
          leb o.config.min_split_amount_in_bps (split_amount_in_fraction_bps amount total_amount)
          && leb o.config.min_split_fraction_bps (as_u32 (scaled / total_out))
          && leg_rate_matches_full_quote o candidate amount out))

  -- the candidates at `kept_positions`
  unfoldable pub kept_candidates : ℕ → ℕ → List QuotedPath → List Leg → Option (List QuotedPath)
  kept_candidates total_amount total_out candidates [] = some []
  kept_candidates total_amount total_out [] ((amount, _) ∷ legs) =
      let rest = kept_candidates total_amount total_out [] legs in
      if amount == 0 then rest else none
  kept_candidates total_amount total_out (c ∷ candidates) (leg ∷ legs) = do
    kept ← is_kept total_amount total_out c leg
    rest ← kept_candidates total_amount total_out candidates legs
    some (if kept then c ∷ rest else rest)

  -- the split over the candidates that are kept
  unfoldable pub resplit : ℕ → List QuotedPath → Option (List Leg)
  resplit total_amount [] = none
  resplit total_amount (c ∷ []) = some ((total_amount, quoted_out o c.path total_amount) ∷ [])
  resplit total_amount (c ∷ d ∷ cs) = optimize_n_paths o (c ∷ d ∷ cs) total_amount

  -- The loop on fuel: each round but the last drops a candidate, so as many rounds as candidates are
  -- enough, and what it returns without fuel is never seen (`filter_loop_fuel`).
  unfoldable pub filter_loop :
      ℕ → ℕ → List QuotedPath → List Leg → Option (List QuotedPath × List Leg)
  filter_loop zero total_amount active split = some (active, split)
  filter_loop (suc fuel) total_amount active split = do
    total_out ← sum_out split
    if total_out == 0 || ltb (length active) 2
        then some (active, split)
        else (kept_candidates total_amount total_out active split >>= λ kept.
            if length kept == active_nonzero split || length kept == 0
            then some (active, split)
            else (resplit total_amount kept >>= λ next. filter_loop fuel total_amount kept next))

  unfoldable pub filter_dust_split_legs :
      List QuotedPath → List Leg → ℕ → Option (List QuotedPath × List Leg)
  filter_dust_split_legs candidates split total_amount =
      if o.config.min_split_fraction_bps == 0 || ltb (length candidates) 2
      then some (candidates, split)
      else filter_loop (length candidates) total_amount candidates split
