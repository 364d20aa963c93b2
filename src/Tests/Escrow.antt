-- ===== src/Tests/Escrow.antt =====
-- Runs of the escrow, and the theorems applied to them.
use stellar_dex_agg.Prelude.{
  ◌≡◌, ◌≢◌, ◌≤◌, refl, arith, [], ◌∷◌, pos, ◌≤ℤ◌, ◌+ℤ◌, ◌-ℤ◌, ◌*ℤ◌, ◌/ℤ◌, checked, some, lookup,
  insert, saturating_add_u32,
}
use stellar_dex_agg.Soroban.Action.{Env, ok, settle, answer, answer-ok, ◌>>=◌}
use stellar_dex_agg.Soroban.Host.{require_auth}
use stellar_dex_agg.Aggregator
use stellar_dex_agg.Aggregator.Validate.{
  validate_sub_routes, check_venues, validate_registered_venues,
}
use stellar_dex_agg.Aggregator.Invoke.{
  swap_aquarius, execute_step_inner, execute_step, execute_steps, execute_path,
}
use stellar_dex_agg.Aggregator.Swap.{run_sub_routes, execute_sub_routes, swap, swap_restricted}
use stellar_dex_agg.Escrow.Storage.{LimitOrder, DcaOrder}
use stellar_dex_agg.Escrow.Admin.{initialize}
use stellar_dex_agg.Escrow.Orders.{IsValid, IsSolvent}
use stellar_dex_agg.Escrow.Lifecycle.{LimitEvolves, DcaEvolves}
use stellar_dex_agg.Escrow.Limit.{
  required_min_out, sum_routes, create_limit, fill, cancel, reclaim_expired,
}
use stellar_dex_agg.Escrow.Dca.{create_dca, fill_dca, cancel_dca, reclaim_expired_dca}
use stellar_dex_agg.Escrow.Calls.{Reach, fill_dca_call, run, Step, here, next, invoked, passed}
use stellar_dex_agg.Escrow.Custody.Reach.{
  escrow_stays-IsSolvent, limit_orders_only_evolve, dca_orders_only_evolve,
}
use stellar_dex_agg.Tests.World.{World, host, pools, tokens, ledger, honest}
use stellar_dex_agg.Tests.Orders.{
  State, chain, client, deployed, initialized, one_limit, two_orders, at_ledger, order, dca,
  reached, order_stored, dca_stored, apart, laws, chain_tokens, chain_ledger, chain_transfers,
  nonneg, route, solvent,
}
use stellar_dex_agg.Escrow.Limit.Rate.{sum_required, required_min_out_split}
use stellar_dex_agg.Escrow.Limit.Creation.{
  IsAcceptable, new_limit, with_limit, create_limit_checked, create_limit_accepts,
}
use stellar_dex_agg.Escrow.Limit.Filling.{LimitFill, fill_checked}
use stellar_dex_agg.Escrow.Limit.Expiry.{expiry_ledger_closed}
use stellar_dex_agg.Escrow.Dca.Filling.{DcaFill, fill_dca_checked}
use stellar_dex_agg.Escrow.Custody.Spacing.{fill_dca_spaced}
use stellar_dex_agg.Escrow.Custody.Refunds.{
  cancel_refunds, reclaim_expired_refunds, cancel_dca_refunds, reclaim_expired_dca_refunds,
}
use stellar_dex_agg.Escrow.Storage.{cancelled, expired, Event}
use stellar_dex_agg.Composition.{escrow_over_aggregator-IsSolvent}

escrow_stays-IsSolvent_example : IsValid two_orders.storage × IsSolvent chain 20 two_orders
escrow_stays-IsSolvent_example =
    escrow_stays-IsSolvent chain client 20 chain_tokens chain_ledger laws 0 deployed.world
      two_orders nonneg reached

escrow_over_aggregator-IsSolvent_example :
    IsValid two_orders.storage × IsSolvent chain 20 two_orders
escrow_over_aggregator-IsSolvent_example =
    escrow_over_aggregator-IsSolvent host pools 10 20 tokens (honest 10 20 apart) apart 0 deployed
      two_orders (ledger 20 (omega arith)) refl nonneg reached

required_min_out_split_example :
    (sum_required 15_000_000 (3 ∷ 3 ∷ 3 ∷ []) ≤ℤ required_min_out (pos 9) (pos 15_000_000))
    × (required_min_out (pos 9) (pos 15_000_000)
        ≤ℤ sum_required 15_000_000 (3 ∷ 3 ∷ 3 ∷ []) +ℤ pos 3)
required_min_out_split_example = required_min_out_split 15_000_000 (3 ∷ 3 ∷ 3 ∷ []) (omega arith)

-- The deposit of the first order.
paid_in : chain.transfer 1 1 20 (pos 100) initialized.world ≡ some one_limit.world
unfolding run settle ◌>>=◌ require_auth checked ◌+ℤ◌ ◌-ℤ◌ ◌*ℤ◌ ◌/ℤ◌ initialize create_limit
    create_dca
paid_in = refl

created :
    create_limit chain 20 1 1 2 (pos 100) (pos 10_000_000) 1000 initialized ≡ ok (0, one_limit)
unfolding run settle ◌>>=◌ require_auth checked ◌+ℤ◌ ◌-ℤ◌ ◌*ℤ◌ ◌/ℤ◌ initialize create_limit
    create_dca
created = refl

counter : initialized.storage.next_order_id ≡ some 0
unfolding run settle ◌>>=◌ require_auth checked ◌+ℤ◌ ◌-ℤ◌ ◌*ℤ◌ ◌/ℤ◌ initialize create_limit
    create_dca
counter = refl

acceptable : IsAcceptable chain 20 1 1 2 (pos 100) (pos 10_000_000) 1000 initialized
unfolding run settle ◌>>=◌ require_auth checked ◌+ℤ◌ ◌-ℤ◌ ◌*ℤ◌ ◌/ℤ◌ initialize create_limit
    create_dca
acceptable = record {
  authorized = refl;
  positive = omega arith;
  priced = omega arith;
  different = λ e. cc;
  in_time = omega arith;
  not_too_far = omega arith;
}

create_limit_checked_example :
    IsAcceptable chain 20 1 1 2 (pos 100) (pos 10_000_000) 1000 initialized
    × (initialized.storage.next_order_id ≡ some 0)
    × (chain.transfer 1 1 20 (pos 100) initialized.world ≡ some one_limit.world)
    × (one_limit.storage
        ≡ with_limit 0 (new_limit 1 1 2 (pos 100) (pos 10_000_000) 1000) initialized.storage)
create_limit_checked_example =
    create_limit_checked chain 20 1 1 2 (pos 100) (pos 10_000_000) 1000 initialized 0 one_limit
      created

create_limit_accepts_example :
    create_limit chain 20 1 1 2 (pos 100) (pos 10_000_000) 1000 initialized
    ≡ ok (
      0,
      record {
        storage =
            with_limit 0 (new_limit 1 1 2 (pos 100) (pos 10_000_000) 1000) initialized.storage;
        world = one_limit.world;
      },
    )
create_limit_accepts_example =
    create_limit_accepts chain 20 1 1 2 (pos 100) (pos 10_000_000) 1000 initialized 0
      one_limit.world acceptable counter (omega arith) paid_in

abbrev after_fill : State
after_fill = settle (fill chain client 20 0 (pos 60) (route (pos 60)) (pos 60)) two_orders

filled_60_answer :
    answer (fill chain client 20 0 (pos 60) (route (pos 60)) (pos 60)) two_orders ≡ some (pos 60)
unfolding fill run settle ◌>>=◌ require_auth checked ◌+ℤ◌ ◌-ℤ◌ ◌*ℤ◌ ◌/ℤ◌ initialize create_limit
    create_dca swap_restricted validate_registered_venues check_venues swap validate_sub_routes
    execute_sub_routes run_sub_routes execute_path execute_steps execute_step execute_step_inner
    swap_aquarius sum_routes required_min_out answer
filled_60_answer = refl

filled_60 :
    fill chain client 20 0 (pos 60) (route (pos 60)) (pos 60) two_orders ≡ ok (pos 60, after_fill)
filled_60 =
    answer-ok (fill chain client 20 0 (pos 60) (route (pos 60)) (pos 60)) two_orders (pos 60)
      filled_60_answer

fill_checked_example :
    LimitFill chain 20 0 (pos 60) (route (pos 60)) (pos 60) (pos 60) two_orders after_fill
fill_checked_example =
    fill_checked chain 20 client chain_tokens laws 0 (pos 60) (route (pos 60)) (pos 60) (pos 60)
      two_orders after_fill filled_60

abbrev after_chunk : State
after_chunk = settle (fill_dca chain client 20 0 (route (pos 40)) (pos 40)) two_orders

chunk_filled_answer :
    answer (fill_dca chain client 20 0 (route (pos 40)) (pos 40)) two_orders ≡ some (pos 40)
unfolding fill_dca run settle ◌>>=◌ require_auth checked ◌+ℤ◌ ◌-ℤ◌ ◌*ℤ◌ ◌/ℤ◌ initialize create_limit
    create_dca swap_restricted validate_registered_venues check_venues swap validate_sub_routes
    execute_sub_routes run_sub_routes execute_path execute_steps execute_step execute_step_inner
    swap_aquarius sum_routes required_min_out answer
chunk_filled_answer = refl

chunk_filled :
    fill_dca chain client 20 0 (route (pos 40)) (pos 40) two_orders ≡ ok (pos 40, after_chunk)
chunk_filled =
    answer-ok (fill_dca chain client 20 0 (route (pos 40)) (pos 40)) two_orders (pos 40)
      chunk_filled_answer

fill_dca_checked_example :
    DcaFill chain 20 0 (route (pos 40)) (pos 40) (pos 40) two_orders after_chunk
fill_dca_checked_example =
    fill_dca_checked chain 20 client chain_tokens laws 0 (route (pos 40)) (pos 40) (pos 40)
      two_orders after_chunk chunk_filled

abbrev an_interval_later : State
an_interval_later = at_ledger 60 after_chunk

chunk_ledger : chain.sequence after_chunk.world ≡ 5
unfolding fill_dca run settle ◌>>=◌ require_auth checked ◌+ℤ◌ ◌-ℤ◌ ◌*ℤ◌ ◌/ℤ◌ initialize create_limit
    create_dca swap_restricted validate_registered_venues check_venues swap validate_sub_routes
    execute_sub_routes run_sub_routes execute_path execute_steps execute_step execute_step_inner
    swap_aquarius sum_routes required_min_out
chunk_ledger = refl

interval_passes : Step chain client 20 after_chunk an_interval_later
interval_passes =
    passed after_chunk an_interval_later.world (record { in_token = λ t. omega arith })
      (omega (arith, chunk_ledger))

chunk-Step : Step chain client 20 two_orders after_chunk
unfolding run
chunk-Step = invoked (fill_dca_call 0 (route (pos 40)) (pos 40)) two_orders

abbrev after_next : State
after_next = settle (fill_dca chain client 20 0 (route (pos 40)) (pos 40)) an_interval_later

next_filled_answer :
    answer (fill_dca chain client 20 0 (route (pos 40)) (pos 40)) an_interval_later ≡ some (pos 40)
unfolding fill_dca run settle ◌>>=◌ require_auth checked ◌+ℤ◌ ◌-ℤ◌ ◌*ℤ◌ ◌/ℤ◌ initialize create_limit
    create_dca swap_restricted validate_registered_venues check_venues swap validate_sub_routes
    execute_sub_routes run_sub_routes execute_path execute_steps execute_step execute_step_inner
    swap_aquarius sum_routes required_min_out answer
next_filled_answer = refl

next_filled :
    fill_dca chain client 20 0 (route (pos 40)) (pos 40) an_interval_later ≡ ok (pos 40, after_next)
next_filled =
    answer-ok (fill_dca chain client 20 0 (route (pos 40)) (pos 40)) an_interval_later (pos 40)
      next_filled_answer

fill_dca_spaced_example :
    (o : DcaOrder) × (lookup 0 two_orders.storage.dca_orders ≡ some o)
    × (saturating_add_u32 (chain.sequence two_orders.world) o.interval_ledgers
        ≤ chain.sequence an_interval_later.world)
fill_dca_spaced_example =
    fill_dca_spaced chain client 20 chain_tokens chain_ledger laws 0 (route (pos 40))
      (route (pos 40)) (pos 40) (pos 40) (pos 40) (pos 40) two_orders after_chunk an_interval_later
      after_next solvent.0 chunk_filled (next here interval_passes) next_filled

to_the_next_fill : Reach chain client 20 two_orders an_interval_later
to_the_next_fill = next (next here chunk-Step) interval_passes

limit_orders_only_evolve_example :
    (o : LimitOrder) × (lookup 0 an_interval_later.storage.orders ≡ some o) × LimitEvolves order o
limit_orders_only_evolve_example =
    limit_orders_only_evolve chain client 20 chain_tokens chain_ledger laws two_orders
      an_interval_later 0 order solvent.0 to_the_next_fill order_stored

dca_orders_only_evolve_example :
    (o : DcaOrder) × (lookup 0 an_interval_later.storage.dca_orders ≡ some o) × DcaEvolves dca o
dca_orders_only_evolve_example =
    dca_orders_only_evolve chain client 20 chain_tokens chain_ledger laws two_orders
      an_interval_later 0 dca solvent.0 to_the_next_fill dca_stored

expiry_ledger_closed_example :
    (fill chain client 20 0 (pos 60) (route (pos 60)) (pos 60) (at_ledger 1000 two_orders)
      ≢ ok (pos 60, after_fill))
    × (reclaim_expired chain 20 0 (at_ledger 1000 two_orders) ≢ ok (tt, deployed))
expiry_ledger_closed_example =
    expiry_ledger_closed chain client 20 chain_tokens laws 0 order (pos 60) (route (pos 60))
      (pos 60) (pos 60) (at_ledger 1000 two_orders) after_fill deployed order_stored refl

cancel_refunds_example :
    (w : Env Aggregator.Storage.Storage World) × (chain.transfer 1 20 1 order.amount_in_remaining
        two_orders.world
      ≡ some w)
    × (cancel chain 20 0 two_orders
        ≡ ok (
          tt,
          record {
            storage = record two_orders.storage {
              orders =
                  insert 0
                    (record order { amount_in_remaining = pos 0; status = cancelled })
                    two_orders.storage.orders;
              events =
                  Event.order_cancelled 0 1 order.amount_in_remaining ∷ two_orders.storage.events;
            };
            world = w;
          },
        ))
cancel_refunds_example =
    cancel_refunds chain 20 two_orders solvent.0 solvent.1 chain_transfers 0 order order_stored refl
      refl

cancel_dca_refunds_example :
    (w : Env Aggregator.Storage.Storage World) × (chain.transfer 1 20 1 dca.amount_in_remaining
        two_orders.world
      ≡ some w)
    × (cancel_dca chain 20 0 two_orders
        ≡ ok (
          tt,
          record {
            storage = record two_orders.storage {
              dca_orders =
                  insert 0
                    (record dca { amount_in_remaining = pos 0; status = cancelled })
                    two_orders.storage.dca_orders;
              events = Event.dca_cancelled 0 1 dca.amount_in_remaining ∷ two_orders.storage.events;
            };
            world = w;
          },
        ))
cancel_dca_refunds_example =
    cancel_dca_refunds chain 20 two_orders solvent.0 solvent.1 chain_transfers 0 dca dca_stored refl
      refl

abbrev expired_state : State
expired_state = at_ledger 1001 two_orders

still-IsSolvent : IsSolvent chain 20 expired_state
still-IsSolvent = record { in_token = λ t. solvent.1.in_token t }

reclaim_expired_refunds_example :
    (w : Env Aggregator.Storage.Storage World) × (chain.transfer 1 20 1 order.amount_in_remaining
        expired_state.world
      ≡ some w)
    × (reclaim_expired chain 20 0 expired_state
        ≡ ok (
          tt,
          record {
            storage = record expired_state.storage {
              orders =
                  insert 0
                    (record order { amount_in_remaining = pos 0; status = expired })
                    expired_state.storage.orders;
              events =
                  Event.order_expired 0 1 order.amount_in_remaining ∷ expired_state.storage.events;
            };
            world = w;
          },
        ))
reclaim_expired_refunds_example =
    reclaim_expired_refunds chain 20 expired_state solvent.0 still-IsSolvent chain_transfers 0 order
      order_stored refl (omega arith)

reclaim_expired_dca_refunds_example :
    (w : Env Aggregator.Storage.Storage World) × (chain.transfer 1 20 1 dca.amount_in_remaining
        expired_state.world
      ≡ some w)
    × (reclaim_expired_dca chain 20 0 expired_state
        ≡ ok (
          tt,
          record {
            storage = record expired_state.storage {
              dca_orders =
                  insert 0
                    (record dca { amount_in_remaining = pos 0; status = expired })
                    expired_state.storage.dca_orders;
              events = Event.dca_expired 0 1 dca.amount_in_remaining ∷ expired_state.storage.events;
            };
            world = w;
          },
        ))
reclaim_expired_dca_refunds_example =
    reclaim_expired_dca_refunds chain 20 expired_state solvent.0 still-IsSolvent chain_transfers 0
      dca dca_stored refl (omega arith)
