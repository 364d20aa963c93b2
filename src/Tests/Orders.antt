-- ===== src/Tests/Orders.antt =====
-- A state of the escrow, with the aggregator behind its client: a limit order and a DCA order of one
-- user.
use stellar_dex_agg.Prelude.{
  ℕ, ◌≡◌, ◌≢◌, refl, ap, none, arith, List, [], ◌∷◌, true, if◌then◌else◌, ◌&&◌, ◌==◌, ℤ, pos, ◌≤ℤ◌,
  ◌+ℤ◌, ◌-ℤ◌, ◌*ℤ◌, ◌/ℤ◌, checked, some, lookup, Option,
}
use stellar_dex_agg.Soroban.Action.{Env, settle, ◌>>=◌}
use stellar_dex_agg.Soroban.Host.{Address, Host, require_auth}
use stellar_dex_agg.Soroban.Laws.{TokenLaws, LedgerLaws, TransferLaws}
use stellar_dex_agg.SharedTypes.{aquarius, SwapStep, SubRoute}
use stellar_dex_agg.Aggregator
use stellar_dex_agg.Escrow.Storage.{Storage, new, LimitOrder, DcaOrder, open_order}
use stellar_dex_agg.Escrow.Client.{AggregatorClient, ClientLaws}
use stellar_dex_agg.Escrow.Admin.{initialize}
use stellar_dex_agg.Escrow.Orders.{IsValid, IsSolvent}
use stellar_dex_agg.Escrow.Limit.{create_limit}
use stellar_dex_agg.Escrow.Dca.{create_dca}
use stellar_dex_agg.Escrow.Calls.{
  initialize_call, create_limit_call, create_dca_call, run, Reach, here, next, invoked,
}
use stellar_dex_agg.Escrow.Custody.Reach.{escrow_stays-IsSolvent}
use stellar_dex_agg.Composition.{
  host_with_aggregator, escrow_client, escrow_client-ClientLaws, host_with_aggregator-TokenLaws,
  host_with_aggregator-LedgerLaws,
}
use stellar_dex_agg.Tests.World.{World, host, pools, tokens, transfers, ledger, honest}

abbrev pub State : Type 0
State = Env Storage (Env Aggregator.Storage.Storage World)

abbrev pub chain : Host (Env Aggregator.Storage.Storage World)
chain = host_with_aggregator host

abbrev pub client : AggregatorClient (Env Aggregator.Storage.Storage World)
client = escrow_client host pools 10 20

-- The aggregator is at 10, the escrow at 20; user 1 has 1000 of the first token.
abbrev pub deployed : State
deployed = record {
  storage = new 0;
  world = record {
    storage = Aggregator.Storage.set_venue 0 50 true (Aggregator.Storage.new 0);
    world = record { now = 5; holds = λ t a. if t == 1 && a == 1 then pos 1000 else pos 0 };
  };
}

abbrev pub initialized : State
initialized = run chain client 20 (initialize_call 2 10) deployed

abbrev pub one_limit : State
one_limit =
    run chain client 20 (create_limit_call 1 1 2 (pos 100) (pos 10_000_000) 1000) initialized

abbrev pub two_orders : State
two_orders =
    run chain client 20 (create_dca_call 1 1 2 (pos 90) (pos 40) 50 5 (pos 0) 1000) one_limit

pub reached : Reach chain client 20 deployed two_orders
reached = next (next (next here (invoked _ _)) (invoked _ _)) (invoked _ _)

abbrev pub at_ledger : ℕ → State → State
at_ledger n s = record {
  storage = s.storage;
  world = record { storage = s.world.storage; world = record s.world.world { now = n } };
}

abbrev pub order : LimitOrder
order = record {
  owner = 1;
  token_in = 1;
  token_out = 2;
  amount_in_remaining = pos 100;
  limit_out_per_in_e7 = pos 10_000_000;
  expires_ledger = 1000;
  status = open_order;
}

abbrev pub dca : DcaOrder
dca = record {
  owner = 1;
  token_in = 1;
  token_out = 2;
  amount_in_remaining = pos 90;
  chunk_amount = pos 40;
  interval_ledgers = 50;
  next_executable_ledger = 5;
  min_out_per_in_e7 = pos 0;
  expires_ledger = 1000;
  status = open_order;
}

pub order_stored : lookup 0 two_orders.storage.orders ≡ some order
unfolding run settle ◌>>=◌ require_auth checked ◌+ℤ◌ ◌-ℤ◌ ◌*ℤ◌ ◌/ℤ◌ initialize create_limit
    create_dca
order_stored = refl

pub dca_stored : lookup 0 two_orders.storage.dca_orders ≡ some dca
unfolding run settle ◌>>=◌ require_auth checked ◌+ℤ◌ ◌-ℤ◌ ◌*ℤ◌ ◌/ℤ◌ initialize create_limit
    create_dca
dca_stored = refl

pub apart : ◌≢◌ {A = ℕ} 10 20
apart = λ e. cc

pub laws : ClientLaws chain client 20
laws = escrow_client-ClientLaws host pools 10 20 tokens (honest 10 20 apart) apart

pub chain_tokens : TokenLaws chain
chain_tokens = host_with_aggregator-TokenLaws host pools 10 20 tokens (honest 10 20 apart) apart

pub chain_ledger : LedgerLaws chain 20
chain_ledger =
    host_with_aggregator-LedgerLaws host pools 10 20 tokens (honest 10 20 apart) apart
      (ledger 20 (omega arith))

pub nonneg : (t : Address) → pos 0 ≤ℤ chain.balance t 20 deployed.world
nonneg t = ground arith

pub chain_transfers : TransferLaws chain
chain_transfers = record {
  transfer_succeeds = λ t f g x s n c.
      let paid = transfers.transfer_succeeds t f g x s.world n c in
      (
        record { storage = s.storage; world = paid.0 },
        ap
            (λ (o : Option World). elim o [
              | none ↦ none
              | some w ↦ some (record { storage = s.storage; world = w })
            ])
            paid.1,
      );
}

abbrev step : SwapStep
step = record {
  dex_id = 50;
  dex_type = aquarius;
  token_in = 1;
  token_out = 2;
  in_idx = 1;
  out_idx = 2;
}

abbrev pub route : ℤ → List SubRoute
route x = record { amount_in = x; steps = step ∷ [] } ∷ []

pub solvent : IsValid two_orders.storage × IsSolvent chain 20 two_orders
solvent =
    escrow_stays-IsSolvent chain client 20 chain_tokens chain_ledger laws 0 deployed.world
      two_orders nonneg reached
