-- ===== src/Keeper/Events.antt =====
-- crates/limit-keeper/src/events.rs, of events whose base64 and XDR are decoded, and the events that
-- contracts/order-escrow/src/lib.rs publishes, in that form.
use stellar_dex_agg.Prelude.{
  ℕ, zero, suc, Bool, true, false, not, Option, none, some, List, [], ◌∷◌, ℤ, pos, length, leb,
  ◌||◌, u32_max, if◌then◌else◌,
}
use stellar_dex_agg.Soroban.Host.{Address}
use stellar_dex_agg.Escrow.Storage.{Event}
use stellar_dex_agg.Keeper.Book.{OrderEvent, limit, dca}

-- The topics that are told apart.
pub data Kind : Type 0 where
  order_created order_filled order_cancelled order_expired : Kind
  dca_created dca_filled dca_cancelled dca_expired : Kind
  another : Kind

pub data ScVal : Type 0 where
  symbol : Kind → ScVal
  address : Address → ScVal
  i128 : ℤ → ScVal
  u64 u32 : ℕ → ScVal
  other : ScVal

pub record ContractEvent : Type 0 where
  -- `event_type == "contract"`
  pub is_contract : Bool
  pub in_successful_contract_call : Option Bool
  pub topic : Option (List ScVal)
  -- the data, if it is a vector
  pub value : Option (List ScVal)

-- Rust's `Result`, whose errors are only passed on.
pub data Outcome (A : Type 0) : Type 0 where
  done : A → Outcome A
  failed : Outcome A

infixl 5 ◌>>=◌ ◌>>◌
abbrev ◌>>=◌ : {A B : Type 0} → Outcome A → (A → Outcome B) → Outcome B
done a >>= f = f a
failed >>= f = failed

abbrev ◌>>◌ : {A B : Type 0} → Outcome A → Outcome B → Outcome B
m >> k = m >>= λ _. k

abbrev topic_id : ScVal → Option ℕ
topic_id (u64 value) = some value
topic_id (u32 value) = some value
topic_id _ = none

abbrev topic_of : ScVal → ScVal → Option (Kind × ℕ)
topic_of (symbol kind) second = elim (topic_id second) [ none ↦ none | some id ↦ some (kind, id) ]
topic_of _ second = none

abbrev event_topic : ContractEvent → Option (Kind × ℕ)
event_topic event = elim event.topic [ none ↦ none | some topics ↦ two topics ]
  where
    two : List ScVal → Option (Kind × ℕ)
    two (first ∷ second ∷ _) = topic_of first second
    two _ = none

abbrev event_data_fields : ContractEvent → Outcome (List ScVal)
event_data_fields event = elim event.value [ none ↦ failed | some fields ↦ done fields ]

abbrev require_fields : List ScVal → ℕ → Outcome (Unit {0})
require_fields fields count = if leb count (length fields) then done tt else failed

abbrev scval_address : ScVal → Outcome Address
scval_address (address a) = done a
scval_address _ = failed

abbrev scval_i128 : ScVal → Outcome ℤ
scval_i128 (i128 value) = done value
scval_i128 (u64 value) = done (pos value)
scval_i128 (u32 value) = done (pos value)
scval_i128 _ = failed

abbrev scval_u32 : ScVal → Outcome ℕ
scval_u32 (u32 value) = done value
scval_u32 (u64 value) = if leb value u32_max then done value else failed
scval_u32 _ = failed

-- `fields[i]`, whose panic out of range `require_fields` has ruled out
abbrev pub field : List ScVal → ℕ → ScVal
field [] i = other
field (v ∷ rest) zero = v
field (v ∷ rest) (suc i) = field rest i

abbrev parse_created : ℕ → List ScVal → Outcome (Option OrderEvent)
parse_created order_id fields = do
  require_fields fields 6
  owner ← scval_address (field fields 0)
  token_in ← scval_address (field fields 1)
  token_out ← scval_address (field fields 2)
  amount ← scval_i128 (field fields 3)
  rate ← scval_i128 (field fields 4)
  expires ← scval_u32 (field fields 5)
  done (
      some (
        OrderEvent.created (record {
          kind = limit;
          order_id = order_id;
          owner = owner;
          token_in = token_in;
          token_out = token_out;
          amount_in_remaining = amount;
          limit_out_per_in_e7 = rate;
          expires_ledger = expires;
          chunk_amount = none;
          next_executable_ledger = none;
        })))

abbrev parse_dca_created : ℕ → List ScVal → Outcome (Option OrderEvent)
parse_dca_created order_id fields = do
  require_fields fields 9
  owner ← scval_address (field fields 0)
  token_in ← scval_address (field fields 1)
  token_out ← scval_address (field fields 2)
  amount ← scval_i128 (field fields 3)
  chunk ← scval_i128 (field fields 4)
  start ← scval_u32 (field fields 6)
  rate ← scval_i128 (field fields 7)
  expires ← scval_u32 (field fields 8)
  done (
      some (
        OrderEvent.created (record {
          kind = dca;
          order_id = order_id;
          owner = owner;
          token_in = token_in;
          token_out = token_out;
          amount_in_remaining = amount;
          limit_out_per_in_e7 = rate;
          expires_ledger = expires;
          chunk_amount = some chunk;
          next_executable_ledger = some start;
        })))

abbrev parse_kind : Kind → ℕ → List ScVal → Outcome (Option OrderEvent)
parse_kind order_created order_id fields = parse_created order_id fields
parse_kind order_filled order_id fields = do
  require_fields fields 4
  remaining ← scval_i128 (field fields 3)
  done (some (OrderEvent.filled limit order_id remaining none))
parse_kind order_cancelled order_id fields = do
  require_fields fields 2
  done (some (OrderEvent.cancelled limit order_id))
parse_kind order_expired order_id fields = do
  require_fields fields 2
  done (some (OrderEvent.expired limit order_id))
parse_kind dca_created order_id fields = parse_dca_created order_id fields
parse_kind dca_filled order_id fields = do
  require_fields fields 5
  remaining ← scval_i128 (field fields 3)
  next ← scval_u32 (field fields 4)
  done (some (OrderEvent.filled dca order_id remaining (some next)))
parse_kind dca_cancelled order_id fields = done (some (OrderEvent.cancelled dca order_id))
parse_kind dca_expired order_id fields = done (some (OrderEvent.expired dca order_id))
parse_kind another order_id fields = done none

-- `in_successful_contract_call == Some(false)`
abbrev is_unsuccessful : Option Bool → Bool
is_unsuccessful none = false
is_unsuccessful (some successful) = not successful

abbrev pub parse_escrow_event : ContractEvent → Outcome (Option OrderEvent)
parse_escrow_event event =
    if not event.is_contract || is_unsuccessful event.in_successful_contract_call
    then done none
    else elim (event_topic event) [
      | none ↦ done none
      | some (kind, order_id) ↦ do fields ← event_data_fields event; parse_kind kind order_id fields
    ]

-- The event as the escrow publishes it.
abbrev pub published : Kind → ℕ → List ScVal → ContractEvent
published kind order_id fields = record {
  is_contract = true;
  in_successful_contract_call = some true;
  topic = some (symbol kind ∷ u64 order_id ∷ []);
  value = some fields;
}

abbrev pub encode : Event → ContractEvent
encode (Event.order_created id owner token_in token_out amount rate expires) =
    published order_created id (
      address owner
      ∷ address token_in
      ∷ address token_out
      ∷ i128 amount
      ∷ i128 rate
      ∷ u32 expires
      ∷ [])
encode (Event.order_cancelled id owner refunded) =
    published order_cancelled id (address owner ∷ i128 refunded ∷ [])
encode (Event.order_expired id owner refunded) =
    published order_expired id (address owner ∷ i128 refunded ∷ [])
encode (Event.order_filled id owner amount_in amount_out remaining) =
    published order_filled id
      (address owner ∷ i128 amount_in ∷ i128 amount_out ∷ i128 remaining ∷ [])
encode (Event.dca_created id owner token_in token_out amount chunk interval start rate expires) =
    published dca_created id (
      address owner
      ∷ address token_in
      ∷ address token_out
      ∷ i128 amount
      ∷ i128 chunk
      ∷ u32 interval
      ∷ u32 start
      ∷ i128 rate
      ∷ u32 expires
      ∷ [])
encode (Event.dca_filled id owner amount_in amount_out remaining next) =
    published dca_filled id
      (address owner ∷ i128 amount_in ∷ i128 amount_out ∷ i128 remaining ∷ u32 next ∷ [])
encode (Event.dca_cancelled id owner refunded) =
    published dca_cancelled id (address owner ∷ i128 refunded ∷ [])
encode (Event.dca_expired id owner refunded) =
    published dca_expired id (address owner ∷ i128 refunded ∷ [])
