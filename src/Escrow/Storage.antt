-- ===== src/Escrow/Storage.antt =====
-- contracts/order-escrow/src/lib.rs: the orders, the storage by its keys, the constants, and the events
-- that were published, the newest first.
use stellar_dex_agg.Prelude.{ℕ, ◌*◌, Bool, true, false, Option, none, List, [], ◌∷◌, Dict, ℤ}
use stellar_dex_agg.Soroban.Action.{Env, Action, modify}
use stellar_dex_agg.Soroban.Host.{Address}
use stellar_dex_agg.Escrow.Errors.{EscrowError}

abbrev pub ledgers_per_day : ℕ
ledgers_per_day = 17_280

abbrev pub max_order_lifetime : ℕ
max_order_lifetime = 30 * ledgers_per_day

abbrev pub rate_scale_e7 : ℕ
rate_scale_e7 = 10_000_000

pub data OrderStatus : Type 0 where
  open_order filled cancelled expired : OrderStatus

-- `status == OrderStatus::Open`
abbrev pub is_open : OrderStatus → Bool
is_open open_order = true
is_open _ = false

pub record LimitOrder : Type 0 where
  pub owner : Address
  pub token_in : Address
  pub token_out : Address
  pub amount_in_remaining : ℤ
  pub limit_out_per_in_e7 : ℤ
  pub expires_ledger : ℕ
  pub status : OrderStatus

pub record DcaOrder : Type 0 where
  pub owner : Address
  pub token_in : Address
  pub token_out : Address
  pub amount_in_remaining : ℤ
  pub chunk_amount : ℤ
  pub interval_ledgers : ℕ
  pub next_executable_ledger : ℕ
  pub min_out_per_in_e7 : ℤ
  pub expires_ledger : ℕ
  pub status : OrderStatus

pub data Event : Type 0 where
  -- order_id, owner, token_in, token_out, amount_in, limit_out_per_in_e7, expires_ledger
  order_created : ℕ → Address → Address → Address → ℤ → ℤ → ℕ → Event
  -- order_id, owner, refunded_amount
  order_cancelled order_expired : ℕ → Address → ℤ → Event
  -- order_id, owner, amount_in, amount_out, amount_in_remaining
  order_filled : ℕ → Address → ℤ → ℤ → ℤ → Event
  -- order_id, owner, token_in, token_out, amount_in, chunk_amount, interval_ledgers, start_ledger,
  -- min_out_per_in_e7, expires_ledger
  dca_created : ℕ → Address → Address → Address → ℤ → ℤ → ℕ → ℕ → ℤ → ℕ → Event
  -- order_id, owner, amount_in, amount_out, amount_in_remaining, next_executable_ledger
  dca_filled : ℕ → Address → ℤ → ℤ → ℤ → ℕ → Event
  dca_cancelled dca_expired : ℕ → Address → ℤ → Event

pub record Storage : Type 0 where
  pub admin : Option Address
  pub aggregator : Option Address
  pub next_order_id : Option ℕ
  pub next_dca_order_id : Option ℕ
  -- `DataKey::Order(id)` and `DataKey::DcaOrder(id)`
  pub orders : Dict LimitOrder
  pub dca_orders : Dict DcaOrder
  pub wasm_hash : ℕ
  pub events : List Event

abbrev pub new : ℕ → Storage
new hash = record {
  admin = none;
  aggregator = none;
  next_order_id = none;
  next_dca_order_id = none;
  orders = [];
  dca_orders = [];
  wasm_hash = hash;
  events = [];
}

abbrev pub Escrow : Type 0 → Type 0 → Type 0
Escrow W A = Action (Env Storage W) EscrowError A

-- `env.events().publish`
abbrev pub publish : {W : Type 0} → Event → Escrow W (Unit {0})
publish e = modify (λ s. record s { events = e ∷ s.events })
