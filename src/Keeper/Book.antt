-- ===== src/Keeper/Book.antt =====
-- crates/limit-keeper/src/book.rs.
use stellar_dex_agg.Prelude.{
  ℕ, Bool, true, false, Option, none, some, List, [], ◌∷◌, ℤ, pos, ◌==◌, ◌==ℤ◌, ◌&&◌, if◌then◌else◌,
}
use stellar_dex_agg.Soroban.Host.{Address}

pub data OrderKind : Type 0 where
  limit dca : OrderKind

pub record OpenOrder : Type 0 where
  pub kind : OrderKind
  pub order_id : ℕ
  pub owner : Address
  pub token_in : Address
  pub token_out : Address
  pub amount_in_remaining : ℤ
  pub limit_out_per_in_e7 : ℤ
  pub expires_ledger : ℕ
  pub chunk_amount : Option ℤ
  pub next_executable_ledger : Option ℕ

pub data OrderEvent : Type 0 where
  created : OpenOrder → OrderEvent
  -- kind, order_id, amount_in_remaining, next_executable_ledger
  filled : OrderKind → ℕ → ℤ → Option ℕ → OrderEvent
  cancelled expired : OrderKind → ℕ → OrderEvent

-- `orders: BTreeMap<(OrderKind, u64), OpenOrder>`
abbrev pub OpenOrderBook : Type 0
OpenOrderBook = OrderKind → ℕ → Option OpenOrder

abbrev same_kind : OrderKind → OrderKind → Bool
same_kind limit limit = true
same_kind dca dca = true
same_kind _ _ = false

abbrev pub empty : OpenOrderBook
empty kind order_id = none

abbrev pub get : OpenOrderBook → OrderKind → ℕ → Option OpenOrder
get book kind order_id = book kind order_id

-- `insert` and `remove` of the map, and a value written through `get_mut`
abbrev pub put : OrderKind → ℕ → Option OpenOrder → OpenOrderBook → OpenOrderBook
put kind order_id entry book k i = if same_kind k kind && i == order_id then entry else book k i

abbrev apply_created : OpenOrder → OpenOrderBook → OpenOrderBook
apply_created order book = put order.kind order.order_id (some order) book

-- the order in place after a fill that has left something of it
abbrev pub refilled : ℤ → Option ℕ → OpenOrder → OpenOrder
refilled amount_in_remaining none order = record order { amount_in_remaining = amount_in_remaining }
refilled amount_in_remaining (some next) order = record order {
  amount_in_remaining = amount_in_remaining;
  next_executable_ledger = some next;
}

abbrev pub refilled_entry : ℤ → Option ℕ → Option OpenOrder → Option OpenOrder
refilled_entry amount_in_remaining next none = none
refilled_entry amount_in_remaining next (some order) =
    some (refilled amount_in_remaining next order)

abbrev apply_filled : OrderKind → ℕ → ℤ → Option ℕ → OpenOrderBook → OpenOrderBook
apply_filled kind order_id amount_in_remaining next book =
    put kind order_id
      (if amount_in_remaining ==ℤ pos 0
        then none
        else refilled_entry amount_in_remaining next (book kind order_id))
      book

abbrev apply_cancelled : OrderKind → ℕ → OpenOrderBook → OpenOrderBook
apply_cancelled kind order_id book = put kind order_id none book

abbrev apply_expired : OrderKind → ℕ → OpenOrderBook → OpenOrderBook
apply_expired kind order_id book = put kind order_id none book

abbrev pub apply : OrderEvent → OpenOrderBook → OpenOrderBook
apply (created order) book = apply_created order book
apply (filled kind order_id amount_in_remaining next) book =
    apply_filled kind order_id amount_in_remaining next book
apply (cancelled kind order_id) book = apply_cancelled kind order_id book
apply (expired kind order_id) book = apply_expired kind order_id book

-- the loop of `from_orders`
abbrev add_orders : List OpenOrder → OpenOrderBook → OpenOrderBook
add_orders [] book = book
add_orders (order ∷ rest) book = add_orders rest (apply_created order book)

abbrev pub from_orders : List OpenOrder → OpenOrderBook
from_orders orders = add_orders orders empty
