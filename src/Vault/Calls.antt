-- ===== src/Vault/Calls.antt =====
-- contracts/vault/src/lib.rs: the entry points that change state, together.
use stellar_dex_agg.Prelude.{ℕ, List, ℤ}
use stellar_dex_agg.Soroban.Action.{Env, settle}
use stellar_dex_agg.Soroban.Host.{Address, Host}
use stellar_dex_agg.SharedTypes.{SubRoute}
use stellar_dex_agg.Vault.Storage.{Storage}
use stellar_dex_agg.Vault.Admin.{initialize, upgrade, add_caller, remove_caller, admin_withdraw}
use stellar_dex_agg.Vault.Execute.{AggregatorClient, deposit, execute_round_trip}

-- An invocation with its arguments.
pub data Call : Type 0 where
  initialize_call add_caller_call remove_caller_call : Address → Call
  upgrade_call : ℕ → Call
  deposit_call : (from token : Address) → ℤ → Call
  admin_withdraw_call : (token to : Address) → ℤ → Call
  execute_round_trip_call :
      (caller aggregator base_token bridge_token : Address)
      → ℤ
      → (leg_out leg_back : List SubRoute) → ℤ
      → ℕ
      → Call

module _ {W : Type 0} (h : Host W) (client : AggregatorClient W) (vault : Address) where
  -- The state after an invocation. An upgrade records the hash; what other code would do from then on is
  -- not modelled, so the later invocations of a history run this code.
  unfoldable pub run : Call → Env Storage W → Env Storage W
  run (initialize_call admin) s = settle (initialize h admin) s
  run (add_caller_call caller) s = settle (add_caller h caller) s
  run (remove_caller_call caller) s = settle (remove_caller h caller) s
  run (upgrade_call hash) s = settle (upgrade h hash) s
  run (deposit_call from token amount) s = settle (deposit h vault from token amount) s
  run (admin_withdraw_call token to amount) s = settle (admin_withdraw h vault token to amount) s
  run (execute_round_trip_call caller aggregator base bridge x leg_out leg_back min_out expiry) s =
      settle
        (execute_round_trip h client vault caller aggregator base bridge x leg_out leg_back min_out
          expiry)
        s
