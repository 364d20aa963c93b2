-- ===== src/Tests/Split.antt =====
-- An amount of 1000 split over three paths that are quoted alike. A share is 600 where that puts out
-- more than nothing along the path does.
use stellar_dex_agg.Prelude.{
  ℕ, ◌-◌, ◌*◌, ◌/◌, ◌≤◌, ◌<◌, Bool, true, ltb, leb, ◌==◌, if◌then◌else◌, Option, none, some, List,
  [], ◌∷◌, ◌≡◌, refl, Text, codes, All, arith, Option-cases, inl, inr,
}
use stellar_dex_agg.Prelude.Partial.{◌>>=◌}
use stellar_dex_agg.Router.Token.{native, contract}
use stellar_dex_agg.Router.Paths.{RoutePath, take}
use stellar_dex_agg.Router.Split.{
  SplitOptimizer, Quote, QuotedPath, SplitConfig, SubOrder, OptimalRoute, Leg, sort_by_out,
  insert_by_out, single_route, sum_out, split_amount_in_fraction_bps, active_nonzero,
  build_sub_orders, build_planned_split, apply_slippage, apply_split_minimum_slippage,
}
use stellar_dex_agg.Router.Split.Allocate.{
  optimize_n_paths, optimize_two_paths, total_out_for_paths, quoted_out, out_if_any,
  leg_rate_matches_full_quote,
}
use stellar_dex_agg.Router.Split.Dust.{
  filter_dust_split_legs, filter_loop, kept_candidates, is_kept,
}
use stellar_dex_agg.Router.Split.Optimize.{
  optimize, optimize_sorted, competitive_enough, try_split, split_route,
}
use stellar_dex_agg.Router.Split.Legs.{SplitLaws}
use stellar_dex_agg.Router.Split.Conserves.{amounts_in, amounts_out, optimize_conserves}
use stellar_dex_agg.Router.Split.Shifted.{sub_orders_shifted}

abbrev path : Text → RoutePath
path pool = record {
  tokens = native ∷ contract (codes "C") ∷ [];
  sources = codes "s" ∷ [];
  pool_addresses = pool ∷ [];
  hops = 1;
}

abbrev quote_fn : RoutePath → ℕ → Option Quote
quote_fn p amount =
    if amount == 0
    then none
    else some (record {
      amount_in = amount;
      amount_out = amount - amount * amount / 10_000;
      price_impact_bps = 100;
    })

abbrev better : ℕ → Option ℕ → Option ℕ
better a none = none
better a (some b) = some (if ltb a b then 600 else 0)

abbrev pick_from : Option ℕ → (ℕ → Option ℕ) → ℕ → Option ℕ
pick_from none f total = none
pick_from (some a) f total = let other = better a (f 600) in if leb 600 total then other else some 0

abbrev pick : (ℕ → Option ℕ) → ℕ → Option ℕ
pick f total = pick_from (f 0) f total

abbrev rates_close : ℕ → ℕ → ℕ → ℕ → ℕ → Bool
rates_close _ _ _ _ _ = true

pick_from-le :
    (o : Option ℕ) (f : ℕ → Option ℕ) (total a : ℕ) → pick_from o f total ≡ some a → a ≤ total
pick_from-le none f total a e = cc
pick_from-le (some b) f total a e = elim (Option-cases (f 600)) [
  | inl stuck ↦ ground arith
  | inr (c, picked) ↦ ground arith
]

abbrev config : SplitConfig
config = record {
  split_threshold_bps = 5;
  split_competitive_delta_bps = 50;
  min_split_fraction_bps = 5;
  min_split_amount_in_bps = 10;
  max_leg_rate_deviation_bps = 500;
  min_split_improvement_bps = 5;
  max_splits = 5;
}

abbrev optimizer : SplitOptimizer
optimizer = record { config = config; quote_fn = quote_fn; pick = pick; rates_close = rates_close }

laws : SplitLaws optimizer
laws = record {
  share-le = λ f total a e. pick_from-le (f 0) f total a e;
  nothing_for_nothing = λ p q e. cc;
}

abbrev quoted : Text → QuotedPath
quoted pool = record {
  path = path pool;
  quote = record { amount_in = 1000; amount_out = 900; price_impact_bps = 100 };
}

abbrev first_path : QuotedPath
first_path = quoted (codes "1")

abbrev second_path : QuotedPath
second_path = quoted (codes "2")

abbrev third_path : QuotedPath
third_path = quoted (codes "3")

-- The share of the first path is nothing, and yet the first sub-order goes along it.
abbrev route : OptimalRoute
route = record {
  sub_orders =
      record { path = path (codes "1"); amount_in = 600; expected_amount_out = 564 }
      ∷ record { path = path (codes "2"); amount_in = 400; expected_amount_out = 384 }
      ∷ [];
  total_amount_in = 1000;
  total_expected_out = 948;
  price_impact_bps = 50;
  is_split = true;
  improvement_bps = 533;
  minimum_out = 929;
}

abbrev legs : List Leg
legs = (600, 564) ∷ (400, 384) ∷ []

legs_planned :
    optimize_n_paths optimizer (first_path ∷ second_path ∷ third_path ∷ []) 1000
    ≡ some ((0, 0) ∷ legs)
unfolding optimize_n_paths optimize_two_paths total_out_for_paths quoted_out out_if_any sum_out
    ◌>>=◌
legs_planned = refl

optimized :
    optimize optimizer (first_path ∷ second_path ∷ third_path ∷ []) 1000 50 none ≡ some route
unfolding optimize optimize_sorted sort_by_out insert_by_out competitive_enough try_split
    split_route single_route optimize_n_paths optimize_two_paths total_out_for_paths quoted_out
    out_if_any sum_out filter_dust_split_legs filter_loop kept_candidates is_kept
    leg_rate_matches_full_quote split_amount_in_fraction_bps active_nonzero build_sub_orders
    apply_slippage apply_split_minimum_slippage take ◌>>=◌
optimized = refl

-- The plan that is kept for debugging has the amounts on the paths that they were computed for.
planned :
    build_planned_split (first_path ∷ second_path ∷ third_path ∷ []) ((0, 0) ∷ legs)
    ≡ some (
        record { path = path (codes "2"); amount_in = 600; expected_amount_out = 564 }
        ∷ record { path = path (codes "3"); amount_in = 400; expected_amount_out = 384 }
        ∷ [])
unfolding build_planned_split ◌>>=◌
planned = refl

optimize_conserves_example :
    (amounts_in route.sub_orders ≡ 1000)
    × (route.total_amount_in ≡ 1000)
    × (amounts_out route.sub_orders ≡ 948)
    × (929 ≤ 948)
    × All (λ q. q.quote.amount_out ≤ 948) (first_path ∷ second_path ∷ third_path ∷ [])
optimize_conserves_example =
    optimize_conserves optimizer laws first_path (second_path ∷ third_path ∷ []) 1000 50 none route
      optimized

two_nonzero : 0 < active_nonzero legs
unfolding active_nonzero
two_nonzero = omega arith

orders_built :
    build_sub_orders (first_path ∷ second_path ∷ third_path ∷ []) ((0, 0) ∷ legs)
    ≡ some route.sub_orders
unfolding build_sub_orders ◌>>=◌
orders_built = refl

sub_orders_shifted_example :
    (order : SubOrder) × (others : List SubOrder) × (route.sub_orders ≡ order ∷ others)
    × (order.path ≡ first_path.path)
    × (0 < order.amount_in)
sub_orders_shifted_example =
    sub_orders_shifted first_path (second_path ∷ third_path ∷ []) 0 legs route.sub_orders
      two_nonzero orders_built
