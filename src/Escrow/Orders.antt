-- ===== src/Escrow/Orders.antt =====
-- contracts/order-escrow/src/lib.rs: what holds of the stored orders between two invocations, and what
-- the escrow owes for them.
pub mod Limits
pub mod Dcas
use stellar_dex_agg.Prelude.{
  ℕ, ◌+◌, ◌<◌, ◌≡◌, subst, arith, int_laws, add_right_shift, lookup, insert, List, All-insert,
  All-lookup, Below-mono, lookup-Below, sum_by-insert, sum_by-insert_new, Bool, Bool-cases, true,
  ◌==ℤ◌, inl, inr, if◌then◌else◌, eq_of_parts, ==→eq, false, Option, none, some, [], Dict, All,
  Below, sum_by, ℤ, pos, ◌+ℤ◌, ◌≤ℤ◌, ◌<ℤ◌,
}
use stellar_dex_agg.Soroban.Action.{Env}
use stellar_dex_agg.Soroban.Host.{Address, Host}
use stellar_dex_agg.Soroban.Laws.{on}
use stellar_dex_agg.Escrow.Storage.{
  is_open, OrderStatus, open_order, filled, cancelled, expired, LimitOrder, DcaOrder, Event,
  Storage,
}

-- An open order has something left to fill, a closed one nothing.
abbrev pub Remains : OrderStatus → ℤ → Type 0
Remains open_order x = pos 0 <ℤ x
Remains filled x = x ≡ pos 0
Remains cancelled x = x ≡ pos 0
Remains expired x = x ≡ pos 0

abbrev pub IsSoundLimit : ℕ × LimitOrder → Type 0
IsSoundLimit (_, o) = Remains o.status o.amount_in_remaining

abbrev pub IsSoundDca : ℕ × DcaOrder → Type 0
IsSoundDca (_, o) =
    Remains o.status o.amount_in_remaining × (pos 0 <ℤ o.chunk_amount) × (0 < o.interval_ledgers)

-- the number that the next order gets, 0 before `initialize`
abbrev pub next_or_zero : Option ℕ → ℕ
next_or_zero none = 0
next_or_zero (some n) = n

pub record IsValid (s : Storage) : Type 0 where
  pub limit_ids : Below (next_or_zero s.next_order_id) s.orders
  pub dca_ids : Below (next_or_zero s.next_dca_order_id) s.dca_orders
  pub limits : All IsSoundLimit s.orders
  pub dcas : All IsSoundDca s.dca_orders
  pub uninitialized : s.admin ≡ none → (s.next_order_id ≡ none) × (s.next_dca_order_id ≡ none)

-- What the escrow holds in the token for the order, and for all orders.
abbrev pub limit_in : Address → LimitOrder → ℤ
limit_in t o = on o.token_in t o.amount_in_remaining

abbrev pub dca_in : Address → DcaOrder → ℤ
dca_in t o = on o.token_in t o.amount_in_remaining

abbrev pub locked : Address → Storage → ℤ
locked t s = sum_by (limit_in t) s.orders +ℤ sum_by (dca_in t) s.dca_orders

module _ {W : Type 0} (h : Host W) (escrow : Address) where
  -- The escrow holds at least what its orders still have to fill.
  pub record IsSolvent (s : Env Storage W) : Type 0 where
    pub in_token : (t : Address) → locked t s.storage ≤ℤ h.balance t escrow s.world

  -- What is owed has risen by no more, or fallen by no less, than what is held.
  pub record Covers (s s' : Env Storage W) : Type 0 where
    pub in_token :
        (t : Address)
        → locked t s'.storage +ℤ h.balance t escrow s.world
          ≤ℤ locked t s.storage +ℤ h.balance t escrow s'.world

-- An order that a fill has left with something stays open, one with nothing is closed.
pub Remains-after :
    (status : OrderStatus) (left : ℤ)
    → is_open status ≡ true
    → pos 0 ≤ℤ left
    → Remains (if left ==ℤ pos 0 then filled else status) left
Remains-after open_order left was_open nonneg =
    elim (Bool-cases (left ==ℤ pos 0))
      as (λ _. Remains (if left ==ℤ pos 0 then filled else open_order) left) [
        | inl e ↦ rw e (eq_of_parts left (pos 0) (==→eq _ _ e))
        | inr e ↦ rw e (ground arith)
      ]
Remains-after filled left was_open nonneg = cc
Remains-after cancelled left was_open nonneg = cc
Remains-after expired left was_open nonneg = cc
