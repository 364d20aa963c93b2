-- ===== src/Escrow/Orders/Dcas.antt =====
-- contracts/order-escrow/src/lib.rs: what a new order for chunks and a change of one do to the
-- stored orders and to what is owed.
use stellar_dex_agg.Prelude.{
  ℕ, ◌+◌, ◌<◌, ◌≤◌, ◌≡◌, refl, sym, ◌∙◌, subst, arith, int_laws, parts_of_eq, lookup, insert, List,
  All-insert, All-lookup, Below, Below-mono, lookup-Below, sum_by-insert, sum_by-insert_new, true,
  some, ℤ, ◌+ℤ◌, ◌≤ℤ◌, Evolve-refl, Evolve-insert, some-injective,
}
use stellar_dex_agg.Soroban.Host.{Address}
use stellar_dex_agg.Escrow.Storage.{OrderStatus, is_open, DcaOrder, Event, Storage}
use stellar_dex_agg.Escrow.Orders.{IsValid, IsSoundDca, next_or_zero, dca_in, locked}
use stellar_dex_agg.Escrow.Lifecycle.{DcaEvolves, LimitEvolves-refl, DcaEvolves-refl, Evolves}

-- A new order, under the next number, and a stored one replaced.
module _ (st : Storage) (id : ℕ) (o : DcaOrder) (events : List Event) (valid : IsValid st) where
  pub add_dca-IsValid :
      (next : ℕ)
      → st.next_dca_order_id ≡ some id
      → next ≡ id + 1
      → IsSoundDca (id, o)
      → IsValid (record st {
        next_dca_order_id = some next;
        dca_orders = insert id o st.dca_orders;
        events = events;
      })
  add_dca-IsValid next e e' sound = record {
    dca_ids =
        let below = subst (λ n. Below (next_or_zero n) st.dca_orders) e valid.dca_ids in
        All-insert _ id o st.dca_orders (Below-mono id next st.dca_orders (omega arith) below)
          (omega arith);
    limit_ids = valid.limit_ids;
    dcas = All-insert IsSoundDca id o st.dca_orders valid.dcas sound;
    limits = valid.limits;
    uninitialized = λ none_stored. cc ((valid.uninitialized none_stored).1);
  }

  pub add_dca-locked :
      (next : ℕ) (t : Address)
      → st.next_dca_order_id ≡ some id
      → locked t (record st {
        next_dca_order_id = some next;
        dca_orders = insert id o st.dca_orders;
        events = events;
      })
        ≡ locked t st +ℤ dca_in t o
  add_dca-locked next t e =
      let below = subst (λ n. Below (next_or_zero n) st.dca_orders) e valid.dca_ids in
      rw
        (sum_by-insert_new (dca_in t) id o st.dca_orders
          (lookup-Below id id st.dca_orders below (omega arith)))
        (omega int_laws)

  pub set_dca-IsValid :
      (old : DcaOrder)
      → lookup id st.dca_orders ≡ some old
      → IsSoundDca (id, o)
      → IsValid (record st { dca_orders = insert id o st.dca_orders; events = events })
  set_dca-IsValid old e sound = record {
    dca_ids = All-insert _ id o st.dca_orders valid.dca_ids (
        All-lookup (λ e. e.0 < next_or_zero st.next_dca_order_id) id old st.dca_orders valid.dca_ids
          e);
    limit_ids = valid.limit_ids;
    dcas = All-insert IsSoundDca id o st.dca_orders valid.dcas sound;
    limits = valid.limits;
    uninitialized = valid.uninitialized;
  }

pub set_dca-locked :
    (st : Storage) (id : ℕ) (o old : DcaOrder) (events : List Event) (t : Address)
    → lookup id st.dca_orders ≡ some old
    → locked t (record st { dca_orders = insert id o st.dca_orders; events = events })
        +ℤ dca_in t old
      ≡ locked t st +ℤ dca_in t o
set_dca-locked st id o old events t e =
    omega (int_laws, parts_of_eq _ _ (sum_by-insert (dca_in t) id o old st.dca_orders e))

pub add_dca-Evolves :
    (st : Storage) (id : ℕ) (o : DcaOrder) (next : ℕ) (events : List Event)
    → IsValid st
    → st.next_dca_order_id ≡ some id
    → Evolves st (record st {
      next_dca_order_id = some next;
      dca_orders = insert id o st.dca_orders;
      events = events;
    })
add_dca-Evolves st id o next events valid e = record {
  limits = Evolve-refl LimitEvolves-refl st.orders;
  dcas = Evolve-insert DcaEvolves-refl id o st.dca_orders λ old found.
      let below = subst (λ n. Below (next_or_zero n) st.dca_orders) e valid.dca_ids in
      let fresh = lookup-Below id id st.dca_orders below (omega arith) in cc;
}

pub set_dca-Evolves :
    (st : Storage) (id : ℕ) (old o : DcaOrder) (events : List Event)
    → lookup id st.dca_orders ≡ some old
    → DcaEvolves old o
    → Evolves st (record st { dca_orders = insert id o st.dca_orders; events = events })
set_dca-Evolves st id old o events e r = record {
  limits = Evolve-refl LimitEvolves-refl st.orders;
  dcas =
      Evolve-insert DcaEvolves-refl id o st.dca_orders
        λ old' found. subst (λ x. DcaEvolves x o) (some-injective _ _ (sym e ∙ found)) r;
}

-- An open order changes by a new status, a remainder that is no larger and a later next fill.
pub open_dca-Evolves :
    (old : DcaOrder) (x : ℤ) (next : ℕ) (status : OrderStatus)
    → is_open old.status ≡ true
    → x ≤ℤ old.amount_in_remaining
    → old.next_executable_ledger ≤ next
    → DcaEvolves old
        (record old { amount_in_remaining = x; next_executable_ledger = next; status = status })
open_dca-Evolves old x next status was_open le later = record {
  same_terms = refl;
  shrinks = le;
  later = later;
  frozen = λ closed. cc;
}

-- In a valid storage an order has the parts that its entry in the map must have.
pub sound_dca :
    (st : Storage) (id : ℕ) (o : DcaOrder)
    → IsValid st
    → lookup id st.dca_orders ≡ some o
    → IsSoundDca (id, o)
sound_dca st id o valid e = All-lookup IsSoundDca id o st.dca_orders valid.dcas e
