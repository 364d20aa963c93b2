-- ===== src/Escrow/Limit.antt =====
-- contracts/order-escrow/src/lib.rs: the entry points for limit orders
pub mod Filling
pub mod Rate
pub mod Creation
pub mod Expiry
pub mod Acceptance
use stellar_dex_agg.Prelude.{
  ℕ, ◌+◌, ◌≡◌, arith, not, Option, none, some, List, [], ◌∷◌, ℤ, pos, ◌+ℤ◌, ◌-ℤ◌, ◌*ℤ◌, ◌/ℤ◌, ltb,
  leb, ltb_ℤ, leb_ℤ, ◌==◌, ◌==ℤ◌, if◌then◌else◌, lookup, insert, i128_max, u64_max, checked_add,
  checked_sub, checked_mul, saturating_add_u32,
}
use stellar_dex_agg.Soroban.Action.{
  Action, ◌>>=◌, ◌>>◌, pure, require, unwrap_or_panic, expect, load, observe, modify, effect, call,
  call_unit,
}
use stellar_dex_agg.Soroban.Host.{Address, SubInvocation, Host, require_auth}
use stellar_dex_agg.SharedTypes.{SubRoute}
use stellar_dex_agg.Escrow.Errors.{
  EscrowError, not_initialized, invalid_amount, invalid_limit, same_token, expiration_in_past,
  expiration_too_far, order_not_found, order_not_open, order_expired, order_not_expired,
  amount_exceeds_remaining, invalid_route_amount, minimum_out_below_limit, arithmetic_overflow,
}
use stellar_dex_agg.Escrow.Storage.{
  max_order_lifetime, rate_scale_e7, OrderStatus, open_order, filled, cancelled, expired, is_open,
  LimitOrder, Event, Storage, Escrow, publish,
}
use stellar_dex_agg.Escrow.Client.{AggregatorClient}

unfoldable pub required_min_out : ℤ → ℤ → ℤ
required_min_out amount_in limit_out_per_in_e7 = elim (checked_mul amount_in limit_out_per_in_e7) [
  | none ↦ i128_max
  | some value ↦ value /ℤ pos rate_scale_e7
]

-- `order_id.checked_add(1)` of a u64
abbrev pub next_id : ℕ → Option ℕ
next_id id = if ltb id u64_max then some (id + 1) else none

pub next_id_lem : (id next : ℕ) → next_id id ≡ some next → next ≡ id + 1
next_id_lem id next e = ground arith

-- the loop that adds up `routed_amount`
unfoldable pub sum_routes : {S : Type 0} → ℤ → List SubRoute → Action S EscrowError ℤ
sum_routes routed_amount [] = pure routed_amount
sum_routes routed_amount (route ∷ rest) = do
  routed ← unwrap_or_panic (checked_add routed_amount route.amount_in) arithmetic_overflow
  sum_routes routed rest

module _ {W : Type 0} (h : Host W) (escrow : Address) where
  abbrev pub authorize_swap_as_current_contract : Address → Address → ℤ → Escrow W (Unit {0})
  authorize_swap_as_current_contract aggregator token_in amount_in = effect (
      h.authorize_as_current_contract (SubInvocation.transfer token_in escrow aggregator amount_in))

  unfoldable pub create_limit :
      (owner token_in token_out : Address) (amount_in limit_out_per_in_e7 : ℤ) (expires_ledger : ℕ)
      → Escrow W ℕ
  create_limit owner token_in token_out amount_in limit_out_per_in_e7 expires_ledger = do
    require_auth h owner
    require (ltb_ℤ (pos 0) amount_in) invalid_amount
    require (ltb_ℤ (pos 0) limit_out_per_in_e7) invalid_limit
    require (not (token_in == token_out)) same_token
    sequence ← observe h.sequence
    require (ltb sequence expires_ledger) expiration_in_past
    require (leb expires_ledger (saturating_add_u32 sequence max_order_lifetime)) expiration_too_far
    next ← load (λ s. s.next_order_id)
    order_id ← unwrap_or_panic next not_initialized
    call_unit (h.transfer token_in owner escrow amount_in)
    let order : LimitOrder = record {
      owner = owner;
      token_in = token_in;
      token_out = token_out;
      amount_in_remaining = amount_in;
      limit_out_per_in_e7 = limit_out_per_in_e7;
      expires_ledger = expires_ledger;
      status = open_order;
    }
    modify (λ s. record s { orders = insert order_id order s.orders })
    following ← unwrap_or_panic (next_id order_id) arithmetic_overflow
    modify (λ s. record s { next_order_id = some following })
    publish (
        Event.order_created order_id owner token_in token_out amount_in limit_out_per_in_e7
          expires_ledger)
    pure order_id

  unfoldable pub cancel : ℕ → Escrow W (Unit {0})
  cancel order_id = do
    stored ← load (λ s. lookup order_id s.orders)
    order ← unwrap_or_panic stored order_not_found
    require_auth h order.owner
    require (is_open order.status) order_not_open
    let refunded_amount = order.amount_in_remaining
    call_unit (h.transfer order.token_in escrow order.owner refunded_amount)
    modify (λ s. record s {
      orders =
          insert order_id (record order { amount_in_remaining = pos 0; status = cancelled })
            s.orders;
    })
    publish (Event.order_cancelled order_id order.owner refunded_amount)

  unfoldable pub reclaim_expired : ℕ → Escrow W (Unit {0})
  reclaim_expired order_id = do
    stored ← load (λ s. lookup order_id s.orders)
    order ← unwrap_or_panic stored order_not_found
    require (is_open order.status) order_not_open
    sequence ← observe h.sequence
    require (ltb order.expires_ledger sequence) order_not_expired
    let refunded_amount = order.amount_in_remaining
    call_unit (h.transfer order.token_in escrow order.owner refunded_amount)
    modify (λ s. record s {
      orders =
          insert order_id (record order { amount_in_remaining = pos 0; status = expired }) s.orders;
    })
    publish (Event.order_expired order_id order.owner refunded_amount)

module _ {W : Type 0} (h : Host W) (client : AggregatorClient W) (escrow : Address) where
  unfoldable pub fill :
      (order_id : ℕ) (amount_in : ℤ) (sub_routes : List SubRoute) (min_amount_out : ℤ) → Escrow W ℤ
  fill order_id amount_in sub_routes min_amount_out = do
    stored ← load (λ s. lookup order_id s.orders)
    order ← unwrap_or_panic stored order_not_found
    require (is_open order.status) order_not_open
    sequence ← observe h.sequence
    require (ltb sequence order.expires_ledger) order_expired
    require (ltb_ℤ (pos 0) amount_in) invalid_amount
    require (leb_ℤ amount_in order.amount_in_remaining) amount_exceeds_remaining
    routed_amount ← sum_routes (pos 0) sub_routes
    require (routed_amount ==ℤ amount_in) invalid_route_amount
    require (leb_ℤ (required_min_out amount_in order.limit_out_per_in_e7) min_amount_out)
        minimum_out_below_limit
    stored_aggregator ← load (λ s. s.aggregator)
    aggregator ← unwrap_or_panic stored_aggregator not_initialized
    authorize_swap_as_current_contract h escrow aggregator order.token_in amount_in
    amount_out ← call (
        client.swap_restricted aggregator escrow order.token_in order.token_out sub_routes
          min_amount_out)
    call_unit (h.transfer order.token_out escrow order.owner amount_out)
    remaining ← expect (checked_sub order.amount_in_remaining amount_in)
    let status = if remaining ==ℤ pos 0 then filled else order.status
    modify (λ s. record s {
      orders =
          insert order_id (record order { amount_in_remaining = remaining; status = status })
            s.orders;
    })
    publish (Event.order_filled order_id order.owner amount_in amount_out remaining)
    pure amount_out
