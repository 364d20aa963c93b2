-- ===== src/Escrow/Orders/Limits.antt =====
-- contracts/order-escrow/src/lib.rs: what a new limit order and a change of one do to the stored orders
-- and to what is owed.
use stellar_dex_agg.Prelude.{
  ℕ, ◌+◌, ◌<◌, ◌≡◌, refl, sym, ◌∙◌, subst, arith, int_laws, add_right_shift, lookup, insert, List,
  All-insert, All-lookup, Below, Below-mono, lookup-Below, sum_by-insert, sum_by-insert_new, true,
  some, ℤ, ◌<ℤ◌, pos, ◌+ℤ◌, ◌≤ℤ◌, Evolve-refl, Evolve-insert, some-injective,
}
use stellar_dex_agg.Soroban.Host.{Address}
use stellar_dex_agg.Escrow.Storage.{
  OrderStatus, open_order, filled, cancelled, expired, is_open, LimitOrder, Event, Storage,
}
use stellar_dex_agg.Escrow.Orders.{Remains, IsValid, IsSoundLimit, next_or_zero, limit_in, locked}
use stellar_dex_agg.Escrow.Lifecycle.{LimitEvolves, LimitEvolves-refl, DcaEvolves-refl, Evolves}

-- A new limit order, under the next number, and a stored one replaced.
module _ (st : Storage) (id : ℕ) (o : LimitOrder) (events : List Event) (valid : IsValid st) where
  pub add_limit-IsValid :
      (next : ℕ)
      → st.next_order_id ≡ some id
      → next ≡ id + 1
      → IsSoundLimit (id, o)
      → IsValid
          (record st { next_order_id = some next; orders = insert id o st.orders; events = events })
  add_limit-IsValid next e e' sound = record {
    limit_ids =
        let below = subst (λ n. Below (next_or_zero n) st.orders) e valid.limit_ids in
        All-insert _ id o st.orders (Below-mono id next st.orders (omega arith) below)
          (omega arith);
    dca_ids = valid.dca_ids;
    limits = All-insert IsSoundLimit id o st.orders valid.limits sound;
    dcas = valid.dcas;
    uninitialized = λ none_stored. cc ((valid.uninitialized none_stored).0);
  }

  pub add_limit-locked :
      (next : ℕ) (t : Address)
      → st.next_order_id ≡ some id
      → locked t
          (record st { next_order_id = some next; orders = insert id o st.orders; events = events })
        ≡ locked t st +ℤ limit_in t o
  add_limit-locked next t e =
      let below = subst (λ n. Below (next_or_zero n) st.orders) e valid.limit_ids in
      rw
        (sum_by-insert_new (limit_in t) id o st.orders
          (lookup-Below id id st.orders below (omega arith)))
        (omega int_laws)

  pub set_limit-IsValid :
      (old : LimitOrder)
      → lookup id st.orders ≡ some old
      → IsSoundLimit (id, o)
      → IsValid (record st { orders = insert id o st.orders; events = events })
  set_limit-IsValid old e sound = record {
    limit_ids =
        All-insert _ id o st.orders valid.limit_ids (
          All-lookup (λ e. e.0 < next_or_zero st.next_order_id) id old st.orders valid.limit_ids e);
    dca_ids = valid.dca_ids;
    limits = All-insert IsSoundLimit id o st.orders valid.limits sound;
    dcas = valid.dcas;
    uninitialized = valid.uninitialized;
  }

pub set_limit-locked :
    (st : Storage) (id : ℕ) (o old : LimitOrder) (events : List Event) (t : Address)
    → lookup id st.orders ≡ some old
    → locked t (record st { orders = insert id o st.orders; events = events }) +ℤ limit_in t old
      ≡ locked t st +ℤ limit_in t o
set_limit-locked st id o old events t e =
    add_right_shift _ _ _ _ _ (sum_by-insert (limit_in t) id o old st.orders e)

pub add_limit-Evolves :
    (st : Storage) (id : ℕ) (o : LimitOrder) (next : ℕ) (events : List Event)
    → IsValid st
    → st.next_order_id ≡ some id
    → Evolves st
        (record st { next_order_id = some next; orders = insert id o st.orders; events = events })
add_limit-Evolves st id o next events valid e = record {
  limits = Evolve-insert LimitEvolves-refl id o st.orders λ old found.
      let below = subst (λ n. Below (next_or_zero n) st.orders) e valid.limit_ids in
      let fresh = lookup-Below id id st.orders below (omega arith) in cc;
  dcas = Evolve-refl DcaEvolves-refl st.dca_orders;
}

pub set_limit-Evolves :
    (st : Storage) (id : ℕ) (old o : LimitOrder) (events : List Event)
    → lookup id st.orders ≡ some old
    → LimitEvolves old o
    → Evolves st (record st { orders = insert id o st.orders; events = events })
set_limit-Evolves st id old o events e r = record {
  limits =
      Evolve-insert LimitEvolves-refl id o st.orders
        λ old' found. subst (λ x. LimitEvolves x o) (some-injective _ _ (sym e ∙ found)) r;
  dcas = Evolve-refl DcaEvolves-refl st.dca_orders;
}

-- An open order changes by a new status and a remainder that is no larger.
pub open_limit-Evolves :
    (old : LimitOrder) (x : ℤ) (status : OrderStatus)
    → is_open old.status ≡ true
    → x ≤ℤ old.amount_in_remaining
    → LimitEvolves old (record old { amount_in_remaining = x; status = status })
open_limit-Evolves old x status was_open le = record {
  same_terms = refl;
  shrinks = le;
  frozen = λ closed. cc;
}

-- In a valid storage nothing less than zero remains of an order.
pub Remains_nonneg : (status : OrderStatus) (x : ℤ) → Remains status x → pos 0 ≤ℤ x
Remains_nonneg open_order x h = omega arith
Remains_nonneg filled x h = rw h (omega arith)
Remains_nonneg cancelled x h = rw h (omega arith)
Remains_nonneg expired x h = rw h (omega arith)

pub remains_nonneg :
    (st : Storage) (id : ℕ) (o : LimitOrder)
    → IsValid st
    → lookup id st.orders ≡ some o
    → pos 0 ≤ℤ o.amount_in_remaining
remains_nonneg st id o valid e =
    Remains_nonneg o.status o.amount_in_remaining
      (All-lookup IsSoundLimit id o st.orders valid.limits e)

-- Something remains of an open order.
pub Remains_open :
    (status : OrderStatus) (x : ℤ) → is_open status ≡ true → Remains status x → pos 0 <ℤ x
Remains_open open_order x was_open h = h
Remains_open filled x was_open h = cc
Remains_open cancelled x was_open h = cc
Remains_open expired x was_open h = cc
