-- ===== src/Escrow/Dca.antt =====
-- contracts/order-escrow/src/lib.rs: the entry points for orders that are filled in chunks
pub mod Filling
use stellar_dex_agg.Prelude.{
  ℕ, Bool, not, ◌&&◌, some, List, ℤ, pos, ltb, leb, ltb_ℤ, leb_ℤ, ◌==◌, ◌==ℤ◌, if◌then◌else◌,
  lookup, insert, checked_sub, saturating_add_u32,
}
use stellar_dex_agg.Soroban.Action.{
  ◌>>=◌, ◌>>◌, pure, require, unwrap_or_panic, expect, load, observe, modify, call, call_unit,
}
use stellar_dex_agg.Soroban.Host.{Address, Host, require_auth}
use stellar_dex_agg.SharedTypes.{SubRoute}
use stellar_dex_agg.Escrow.Errors.{
  not_initialized, invalid_amount, same_token, expiration_in_past, expiration_too_far,
  order_not_found, order_not_open, order_expired, order_not_expired, invalid_route_amount,
  minimum_out_below_limit, invalid_chunk, invalid_interval, start_ledger_in_past,
  invalid_minimum_rate, chunk_not_due, arithmetic_overflow,
}
use stellar_dex_agg.Escrow.Storage.{
  max_order_lifetime, open_order, filled, cancelled, expired, is_open, DcaOrder, Event, Storage,
  Escrow, publish,
}
use stellar_dex_agg.Escrow.Client.{AggregatorClient}
use stellar_dex_agg.Escrow.Limit.{
  required_min_out, next_id, sum_routes, authorize_swap_as_current_contract,
}

module _ {W : Type 0} (h : Host W) (escrow : Address) where
  unfoldable pub create_dca :
      (owner token_in token_out : Address) (amount_in chunk_amount : ℤ)
      (interval_ledgers start_ledger : ℕ) (min_out_per_in_e7 : ℤ) (expires_ledger : ℕ)
      → Escrow W ℕ
  create_dca owner token_in token_out amount_in chunk_amount interval_ledgers start_ledger
        min_out_per_in_e7 expires_ledger =
      do
        require_auth h owner
        current ← observe h.sequence
        require (ltb_ℤ (pos 0) amount_in) invalid_amount
        require (ltb_ℤ (pos 0) chunk_amount && leb_ℤ chunk_amount amount_in) invalid_chunk
        require (not (interval_ledgers == 0)) invalid_interval
        require (leb current start_ledger) start_ledger_in_past
        require (leb_ℤ (pos 0) min_out_per_in_e7) invalid_minimum_rate
        require (not (token_in == token_out)) same_token
        require (ltb start_ledger expires_ledger) expiration_in_past
        require (leb expires_ledger (saturating_add_u32 current max_order_lifetime))
            expiration_too_far
        next ← load (λ s. s.next_dca_order_id)
        order_id ← unwrap_or_panic next not_initialized
        call_unit (h.transfer token_in owner escrow amount_in)
        let order : DcaOrder = record {
          owner = owner;
          token_in = token_in;
          token_out = token_out;
          amount_in_remaining = amount_in;
          chunk_amount = chunk_amount;
          interval_ledgers = interval_ledgers;
          next_executable_ledger = start_ledger;
          min_out_per_in_e7 = min_out_per_in_e7;
          expires_ledger = expires_ledger;
          status = open_order;
        }
        modify (λ s. record s { dca_orders = insert order_id order s.dca_orders })
        following ← unwrap_or_panic (next_id order_id) arithmetic_overflow
        modify (λ s. record s { next_dca_order_id = some following })
        publish (
            Event.dca_created order_id owner token_in token_out amount_in chunk_amount
              interval_ledgers start_ledger min_out_per_in_e7 expires_ledger)
        pure order_id

  unfoldable pub cancel_dca : ℕ → Escrow W (Unit {0})
  cancel_dca order_id = do
    stored ← load (λ s. lookup order_id s.dca_orders)
    order ← unwrap_or_panic stored order_not_found
    require_auth h order.owner
    require (is_open order.status) order_not_open
    let refunded_amount = order.amount_in_remaining
    call_unit (h.transfer order.token_in escrow order.owner refunded_amount)
    modify (λ s. record s {
      dca_orders =
          insert order_id (record order { amount_in_remaining = pos 0; status = cancelled })
            s.dca_orders;
    })
    publish (Event.dca_cancelled order_id order.owner refunded_amount)

  unfoldable pub reclaim_expired_dca : ℕ → Escrow W (Unit {0})
  reclaim_expired_dca order_id = do
    stored ← load (λ s. lookup order_id s.dca_orders)
    order ← unwrap_or_panic stored order_not_found
    require (is_open order.status) order_not_open
    sequence ← observe h.sequence
    require (ltb order.expires_ledger sequence) order_not_expired
    let refunded_amount = order.amount_in_remaining
    call_unit (h.transfer order.token_in escrow order.owner refunded_amount)
    modify (λ s. record s {
      dca_orders =
          insert order_id (record order { amount_in_remaining = pos 0; status = expired })
            s.dca_orders;
    })
    publish (Event.dca_expired order_id order.owner refunded_amount)

-- the amount of the next chunk
abbrev pub chunk_of : DcaOrder → ℤ
chunk_of order =
    if ltb_ℤ order.amount_in_remaining order.chunk_amount
    then order.amount_in_remaining
    else order.chunk_amount

-- the two tests on `min_amount_out`: against the rate, or for a market order above zero
abbrev pub minimum_is_met : DcaOrder → ℤ → ℤ → Bool
minimum_is_met order amount_in min_amount_out =
    if ltb_ℤ (pos 0) order.min_out_per_in_e7
    then leb_ℤ (required_min_out amount_in order.min_out_per_in_e7) min_amount_out
    else ltb_ℤ (pos 0) min_amount_out

module _ {W : Type 0} (h : Host W) (client : AggregatorClient W) (escrow : Address) where
  unfoldable pub fill_dca :
      (order_id : ℕ) (sub_routes : List SubRoute) (min_amount_out : ℤ) → Escrow W ℤ
  fill_dca order_id sub_routes min_amount_out = do
    stored ← load (λ s. lookup order_id s.dca_orders)
    order ← unwrap_or_panic stored order_not_found
    current ← observe h.sequence
    require (is_open order.status) order_not_open
    require (ltb current order.expires_ledger) order_expired
    require (leb order.next_executable_ledger current) chunk_not_due
    let amount_in = chunk_of order
    routed_amount ← sum_routes (pos 0) sub_routes
    require (routed_amount ==ℤ amount_in) invalid_route_amount
    require (minimum_is_met order amount_in min_amount_out)
        (if ltb_ℤ (pos 0) order.min_out_per_in_e7 then minimum_out_below_limit else invalid_amount)
    stored_aggregator ← load (λ s. s.aggregator)
    aggregator ← unwrap_or_panic stored_aggregator not_initialized
    authorize_swap_as_current_contract h escrow aggregator order.token_in amount_in
    amount_out ← call (
        client.swap_restricted aggregator escrow order.token_in order.token_out sub_routes
          min_amount_out)
    call_unit (h.transfer order.token_out escrow order.owner amount_out)
    remaining ← expect (checked_sub order.amount_in_remaining amount_in)
    let done = remaining ==ℤ pos 0
    let order' = record order {
      amount_in_remaining = remaining;
      status = if done then filled else order.status;
      next_executable_ledger =
          if done
          then order.next_executable_ledger
          else saturating_add_u32 current order.interval_ledgers;
    }
    modify (λ s. record s { dca_orders = insert order_id order' s.dca_orders })
    publish (
        Event.dca_filled order_id order.owner amount_in amount_out remaining
          order'.next_executable_ledger)
    pure amount_out
