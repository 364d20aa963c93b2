-- ===== src/Escrow/Calls.antt =====
-- contracts/order-escrow/src/lib.rs: the entry points together, in any order, with other contracts'
-- invocations between them.
use stellar_dex_agg.Prelude.{ℕ, ◌≤◌, List, ℤ}
use stellar_dex_agg.Soroban.Action.{Env, settle}
use stellar_dex_agg.Soroban.Host.{Address, Host}
use stellar_dex_agg.Soroban.Laws.{Kept}
use stellar_dex_agg.SharedTypes.{SubRoute}
use stellar_dex_agg.Escrow.Storage.{Storage}
use stellar_dex_agg.Escrow.Client.{AggregatorClient}
use stellar_dex_agg.Escrow.Admin.{initialize, upgrade}
use stellar_dex_agg.Escrow.Limit.{create_limit, fill, cancel, reclaim_expired}
use stellar_dex_agg.Escrow.Dca.{create_dca, fill_dca, cancel_dca, reclaim_expired_dca}

-- An invocation with its arguments.
pub data Call : Type 0 where
  initialize_call : (admin aggregator : Address) → Call
  upgrade_call : ℕ → Call
  create_limit_call :
      (owner token_in token_out : Address) → (amount_in limit_out_per_in_e7 : ℤ) → ℕ → Call
  fill_call : ℕ → ℤ → List SubRoute → ℤ → Call
  cancel_call reclaim_expired_call : ℕ → Call
  create_dca_call :
      (owner token_in token_out : Address)
      → (amount_in chunk_amount : ℤ) → (interval_ledgers start_ledger : ℕ) → ℤ
      → ℕ
      → Call
  fill_dca_call : ℕ → List SubRoute → ℤ → Call
  cancel_dca_call reclaim_expired_dca_call : ℕ → Call

module _ {W : Type 0} (h : Host W) (client : AggregatorClient W) (escrow : Address) where
  -- The state after an invocation. An upgrade records the hash; what other code would do from then on is
  -- not modelled, so the later invocations of a history run this code.
  unfoldable pub run : Call → Env Storage W → Env Storage W
  run (initialize_call admin aggregator) s = settle (initialize h admin aggregator) s
  run (upgrade_call hash) s = settle (upgrade h hash) s
  run (create_limit_call owner token_in token_out amount_in limit expires) s =
      settle (create_limit h escrow owner token_in token_out amount_in limit expires) s
  run (fill_call id amount_in routes min_out) s =
      settle (fill h client escrow id amount_in routes min_out) s
  run (cancel_call id) s = settle (cancel h escrow id) s
  run (reclaim_expired_call id) s = settle (reclaim_expired h escrow id) s
  run (create_dca_call owner token_in token_out amount_in chunk interval start rate expires) s =
      settle
        (create_dca h escrow owner token_in token_out amount_in chunk interval start rate expires) s
  run (fill_dca_call id routes min_out) s = settle (fill_dca h client escrow id routes min_out) s
  run (cancel_dca_call id) s = settle (cancel_dca h escrow id) s
  run (reclaim_expired_dca_call id) s = settle (reclaim_expired_dca h escrow id) s

  -- One invocation of the escrow, or others, which take nothing from it.
  pub data Step : Env Storage W → Env Storage W → Type 0 where
    invoked : (c : Call) (s : Env Storage W) → Step s (run c s)
    passed :
        (s : Env Storage W) (w : W)
        → Kept h escrow s.world w
        → h.sequence s.world ≤ h.sequence w
        → Step s (record { storage = s.storage; world = w })

  pub data Reach (s : Env Storage W) : Env Storage W → Type 0 where
    here : Reach s s
    next : {t u : Env Storage W} → Reach s t → Step t u → Reach s u
