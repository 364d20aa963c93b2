-- ===== src/Tests/Aggregator.antt =====
-- Runs of the aggregator: one user, one pool, two tokens.
use stellar_dex_agg.Prelude.{
  ℕ, ◌≡◌, ◌≢◌, ◌*◌, ◌-◌, ◌+◌, ◌/◌, ◌≤◌, ◌<◌, refl, arith, List, [], ◌∷◌, true, if◌then◌else◌, ◌&&◌,
  ◌==◌, pos, ◌≤ℤ◌, ◌<ℤ◌, All, checked, ◌*ℤ◌, ◌/ℤ◌, ◌+ℤ◌, ◌-ℤ◌, i128_max,
}
use stellar_dex_agg.Soroban.Action.{Env, ok, settle, ◌>>=◌}
use stellar_dex_agg.Soroban.Host.{require_auth}
use stellar_dex_agg.Soroban.Laws.{Traded}
use stellar_dex_agg.SharedTypes.{aquarius, SwapStep, SubRoute}
use stellar_dex_agg.Aggregator.Routes.{total_amount, IsRoute}
use stellar_dex_agg.Aggregator.Storage.{Storage, new, set_venue}
use stellar_dex_agg.Aggregator.Validate.{
  validate_sub_routes, check_venues, validate_registered_venues,
}
use stellar_dex_agg.Aggregator.Validate.WellFormed.{validate_sub_routes_complete}
use stellar_dex_agg.Aggregator.Math.{scale_sub_routes_to_total, soroswap_get_amount_out}
use stellar_dex_agg.Aggregator.Math.Scale.{IsShare, scale_exact}
use stellar_dex_agg.Aggregator.Math.Soroswap.{soroswap_get_amount_out_bounds}
use stellar_dex_agg.Aggregator.Invoke.{
  swap_aquarius, execute_step_inner, execute_step, execute_steps, execute_path,
}
use stellar_dex_agg.Aggregator.Swap.{run_sub_routes, execute_sub_routes, swap, swap_restricted}
use stellar_dex_agg.Aggregator.Swap.Safety.{AllRegistered, swap_safe, swap_restricted_safe}
use stellar_dex_agg.Aggregator.RoundTrip.{round_trip_swap}
use stellar_dex_agg.Aggregator.RoundTrip.Safety.{round_trip_swap_safe}
use stellar_dex_agg.Tests.World.{World, host, pools, tokens, honest}

abbrev step : ℕ → ℕ → SwapStep
step i o = record {
  dex_id = 50;
  dex_type = aquarius;
  token_in = i;
  token_out = o;
  in_idx = i;
  out_idx = o;
}

abbrev two_routes : List SubRoute
two_routes =
    record { amount_in = pos 60; steps = step 1 2 ∷ [] }
    ∷ record { amount_in = pos 40; steps = step 1 2 ∷ [] }
    ∷ []

abbrev way_back : List SubRoute
way_back =
    record { amount_in = pos 1; steps = step 2 1 ∷ [] }
    ∷ record { amount_in = pos 2; steps = step 2 1 ∷ [] }
    ∷ []

-- the user has 1000 of the first token
abbrev start : Env Storage World
start = record {
  storage = set_venue 0 50 true (new 0);
  world = record { now = 5; holds = λ t a. if t == 1 && a == 1 then pos 1000 else pos 0 };
}

apart : ◌≢◌ {A = ℕ} 10 1
apart = λ e. cc

routes-IsRoute : All (IsRoute 1 2) two_routes
routes-IsRoute = (
  record { positive = omega arith; not_empty = λ e. cc; connects = (refl, refl) },
  (record { positive = omega arith; not_empty = λ e. cc; connects = (refl, refl) }, tt),
)

validated : validate_sub_routes 1 2 two_routes start ≡ ok (pos 100, start)
unfolding validate_sub_routes ◌>>=◌ checked ◌+ℤ◌
validated = refl

routes-fit : total_amount two_routes ≤ℤ i128_max
unfolding ◌+ℤ◌
routes-fit = omega arith

validate_sub_routes_complete_example :
    validate_sub_routes 1 2 two_routes start ≡ ok (total_amount two_routes, start)
validate_sub_routes_complete_example =
    validate_sub_routes_complete 1 2 two_routes start (λ e. cc) routes-IsRoute routes-fit

swapped :
    swap host pools 10 1 1 2 two_routes (pos 90) start
    ≡ ok (pos 100, settle (swap host pools 10 1 1 2 two_routes (pos 90)) start)
unfolding swap settle ◌>>=◌ require_auth validate_sub_routes checked ◌+ℤ◌ execute_sub_routes
    run_sub_routes execute_path execute_steps execute_step execute_step_inner swap_aquarius ◌-ℤ◌
swapped = refl

swap_safe_example :
    (pos 90 ≤ℤ pos 100)
    × (pos 0 <ℤ pos 100)
    × All (IsRoute 1 2) two_routes
    × Traded host 1 1 2
        (total_amount two_routes)
        (pos 100)
        start.world
        (settle (swap host pools 10 1 1 2 two_routes (pos 90)) start).world
swap_safe_example =
    swap_safe host pools 10 1 tokens (honest 10 1 apart) apart 1 2 two_routes (pos 90) start swapped

swapped_restricted :
    swap_restricted host pools 10 1 1 2 two_routes (pos 90) start
    ≡ ok (pos 100, settle (swap_restricted host pools 10 1 1 2 two_routes (pos 90)) start)
unfolding swap_restricted validate_registered_venues check_venues swap settle ◌>>=◌ require_auth
    validate_sub_routes checked ◌+ℤ◌ execute_sub_routes run_sub_routes execute_path execute_steps
    execute_step execute_step_inner swap_aquarius ◌-ℤ◌
swapped_restricted = refl

swap_restricted_safe_example :
    AllRegistered start.storage two_routes
    × (pos 90 ≤ℤ pos 100)
    × (pos 0 <ℤ pos 100)
    × Traded host 1 1 2
        (total_amount two_routes)
        (pos 100)
        start.world
        (settle (swap_restricted host pools 10 1 1 2 two_routes (pos 90)) start).world
    × All (IsRoute 1 2) two_routes
    × (swap host pools 10 1 1 2 two_routes (pos 90) start
        ≡ ok (pos 100, settle (swap_restricted host pools 10 1 1 2 two_routes (pos 90)) start))
swap_restricted_safe_example =
    swap_restricted_safe host pools 10 1 tokens (honest 10 1 apart) apart 1 2 two_routes (pos 90)
      start swapped_restricted

scaled :
    scale_sub_routes_to_total way_back (pos 100) start
    ≡ ok (
      record { amount_in = pos 33; steps = step 2 1 ∷ [] }
          ∷ record { amount_in = pos 67; steps = step 2 1 ∷ [] }
          ∷ [],
      start,
    )
unfolding scale_sub_routes_to_total ◌>>=◌ checked ◌+ℤ◌ ◌-ℤ◌ ◌*ℤ◌ ◌/ℤ◌
scaled = refl

scale_exact_example :
    let out : List SubRoute =
      record { amount_in = pos 33; steps = step 2 1 ∷ [] }
      ∷ record { amount_in = pos 67; steps = step 2 1 ∷ [] }
      ∷ [] in
    (total_amount out ≡ pos 100)
    × IsShare (pos 100) (total_amount way_back) way_back out
    × (start ≡ start)
scale_exact_example = scale_exact way_back (pos 100) start scaled

round_tripped :
    round_trip_swap host pools 10 1 1 2 (pos 100) two_routes way_back (pos 100) start
    ≡ ok (
      pos 100,
      settle (round_trip_swap host pools 10 1 1 2 (pos 100) two_routes way_back (pos 100)) start,
    )
unfolding round_trip_swap scale_sub_routes_to_total settle ◌>>=◌ require_auth validate_sub_routes
    checked ◌+ℤ◌ execute_sub_routes run_sub_routes execute_path execute_steps execute_step
    execute_step_inner swap_aquarius ◌-ℤ◌ ◌*ℤ◌ ◌/ℤ◌
round_tripped = refl

round_trip_swap_safe_example :
    (pos 0 <ℤ pos 100)
    × (pos 100 ≤ℤ pos 100)
    × (pos 100 ≤ℤ pos 100)
    × Traded host 1 1 1
        (pos 100)
        (pos 100)
        start.world
        (settle
          (round_trip_swap host pools 10 1 1 2 (pos 100) two_routes way_back (pos 100))
          start).world
round_trip_swap_safe_example =
    round_trip_swap_safe host pools 10 1 tokens (honest 10 1 apart) apart 1 2 (pos 100) two_routes
      way_back (pos 100) start round_tripped

soroswap_get_amount_out_bounds_example :
    (q : ℕ) × (soroswap_get_amount_out (pos 1000) (pos 50_000) (pos 70_000) ≡ pos q)
    × (q < 70_000)
    × (50_000 * 70_000 * 1000 ≤ (50_000 * 1000 + 1000 * 997) * (70_000 - q))
    × ((1000 - (1000 * 3 + 999) / 1000) * 70_000
        < (q + 1) * (50_000 + (1000 - (1000 * 3 + 999) / 1000)))
soroswap_get_amount_out_bounds_example =
    soroswap_get_amount_out_bounds 1000 50_000 70_000 (omega arith) (omega arith) (omega arith)
      (omega arith) (omega arith)
