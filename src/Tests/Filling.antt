-- ===== src/Tests/Filling.antt =====
-- A fill of the escrow that goes through, and the swap within it.
use stellar_dex_agg.Prelude.{
  ◌≡◌, refl, ap, arith, ◌∷◌, pos, ◌≤ℤ◌, ◌+ℤ◌, ◌-ℤ◌, ◌*ℤ◌, ◌/ℤ◌, checked, some, insert,
}
use stellar_dex_agg.Soroban.Action.{Env, ok, settle, answer, answer-ok, ◌>>=◌}
use stellar_dex_agg.Soroban.Host.{require_auth}
use stellar_dex_agg.Aggregator
use stellar_dex_agg.Aggregator.Validate.{
  validate_sub_routes, check_venues, validate_registered_venues,
}
use stellar_dex_agg.Aggregator.Invoke.{
  swap_aquarius, execute_step_inner, execute_step, execute_steps, execute_path,
}
use stellar_dex_agg.Aggregator.Swap.{run_sub_routes, execute_sub_routes, swap, swap_restricted}
use stellar_dex_agg.Escrow.Admin.{initialize}
use stellar_dex_agg.Escrow.Limit.{required_min_out, create_limit, fill}
use stellar_dex_agg.Escrow.Dca.{create_dca}
use stellar_dex_agg.Escrow.Calls.{run}
use stellar_dex_agg.Tests.World.{World, host, pools}
use stellar_dex_agg.Tests.Orders.{chain, client, two_orders, order, order_stored, route}
use stellar_dex_agg.Escrow.Storage.{Event}
use stellar_dex_agg.Prelude.{◌<◌, ◌<ℤ◌, ap}
use stellar_dex_agg.Aggregator.Routes.{total_amount}
use stellar_dex_agg.Escrow.Limit.Filling.{filled_by}
use stellar_dex_agg.Escrow.Limit.Acceptance.{fill_accepts}
use stellar_dex_agg.Composition.{invoked_by, returned}
use stellar_dex_agg.Tests.World.{moved}

-- The world after the swap of the fill, and after the payment.
abbrev after_swap : Env Aggregator.Storage.Storage World
after_swap =
    settle (swap_restricted (invoked_by 20 host) pools 10 20 1 2 (route (pos 60)) (pos 60))
      two_orders.world

abbrev after_payment : Env Aggregator.Storage.Storage World
after_payment = record {
  storage = after_swap.storage;
  world = moved 2 20 1 (pos 60) after_swap.world;
}

swap_answer :
    answer
      (swap_restricted (invoked_by 20 host) pools 10 20 1 2 (route (pos 60)) (pos 60))
      two_orders.world
    ≡ some (pos 60)
unfolding run settle ◌>>=◌ require_auth checked ◌+ℤ◌ ◌-ℤ◌ ◌*ℤ◌ ◌/ℤ◌ initialize create_limit
    create_dca swap_restricted validate_registered_venues check_venues swap validate_sub_routes
    execute_sub_routes run_sub_routes execute_path execute_steps execute_step execute_step_inner
    swap_aquarius required_min_out answer
swap_answer = refl

swap_returns :
    client.swap_restricted 10 20 1 2 (route (pos 60)) (pos 60) two_orders.world
    ≡ some (pos 60, after_swap)
swap_returns = ap returned (
    answer-ok (swap_restricted (invoked_by 20 host) pools 10 20 1 2 (route (pos 60)) (pos 60))
      two_orders.world (pos 60) swap_answer)

output_paid : chain.transfer 2 20 1 (pos 60) after_swap ≡ some after_payment
unfolding run settle ◌>>=◌ require_auth checked ◌+ℤ◌ ◌-ℤ◌ ◌*ℤ◌ ◌/ℤ◌ initialize create_limit
    create_dca swap_restricted validate_registered_venues check_venues swap validate_sub_routes
    execute_sub_routes run_sub_routes execute_path execute_steps execute_step execute_step_inner
    swap_aquarius required_min_out answer
output_paid = refl

aggregator_known : two_orders.storage.aggregator ≡ some 10
unfolding run settle ◌>>=◌ require_auth checked ◌+ℤ◌ ◌-ℤ◌ ◌*ℤ◌ ◌/ℤ◌ initialize create_limit
    create_dca
aggregator_known = refl

in_time : chain.sequence two_orders.world < 1000
unfolding run settle ◌>>=◌ require_auth checked ◌+ℤ◌ ◌-ℤ◌ ◌*ℤ◌ ◌/ℤ◌ initialize create_limit
    create_dca
in_time = omega arith

minimum_met : required_min_out (total_amount (route (pos 60))) (pos 10_000_000) ≤ℤ pos 60
unfolding run settle ◌>>=◌ require_auth checked ◌+ℤ◌ ◌-ℤ◌ ◌*ℤ◌ ◌/ℤ◌ initialize create_limit
    create_dca required_min_out
minimum_met = omega arith

route_positive : pos 0 <ℤ total_amount (route (pos 60))
unfolding ◌+ℤ◌
route_positive = omega arith

route_within : total_amount (route (pos 60)) ≤ℤ pos 100
unfolding ◌+ℤ◌
route_within = omega arith

fill_accepts_example :
    fill chain client 20 0 (total_amount (route (pos 60))) (route (pos 60)) (pos 60) two_orders
    ≡ ok (
      pos 60,
      record {
        storage = record two_orders.storage {
          orders =
              insert 0 (filled_by order (total_amount (route (pos 60)))) two_orders.storage.orders;
          events =
              Event.order_filled 0 1
                (total_amount (route (pos 60)))
                (pos 60)
                (pos 100 -ℤ total_amount (route (pos 60)))
              ∷ two_orders.storage.events;
        };
        world = after_payment;
      },
    )
fill_accepts_example =
    fill_accepts chain client 20 0 order (route (pos 60)) (pos 60) (pos 60) 10 two_orders after_swap
      after_payment order_stored refl in_time (omega arith, tt) route_positive route_within
      (omega arith) minimum_met aggregator_known swap_returns output_paid
