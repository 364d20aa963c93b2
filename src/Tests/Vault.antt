-- ===== src/Tests/Vault.antt =====
-- Runs of the vault with the aggregator behind its client.
use stellar_dex_agg.Prelude.{
  ℕ, ◌≡◌, ◌≢◌, refl, arith, List, [], ◌∷◌, true, if◌then◌else◌, ◌&&◌, ◌==◌, pos, ◌≤ℤ◌, ◌<ℤ◌, ◌+ℤ◌,
  ◌-ℤ◌, ◌*ℤ◌, ◌/ℤ◌, checked, some, none, Bool-cases, inl, inr, ap, subst, some-injective,
}
use stellar_dex_agg.Soroban.Action.{Env, settle, answer, answer-ok, ◌>>=◌}
use stellar_dex_agg.Soroban.Host.{Address, Host, require_auth}
use stellar_dex_agg.Soroban.Laws.{TokenLaws, AllowanceLaws, LedgerLaws, Kept, Kept-refl, Traded}
use stellar_dex_agg.SharedTypes.{aquarius, SubRoute}
use stellar_dex_agg.Aggregator
use stellar_dex_agg.Aggregator.Validate.{validate_sub_routes}
use stellar_dex_agg.Aggregator.Math.{scale_sub_routes_to_total}
use stellar_dex_agg.Aggregator.RoundTrip.{round_trip_swap}
use stellar_dex_agg.Aggregator.Invoke.{
  swap_aquarius, execute_step_inner, execute_step, execute_steps, execute_path,
}
use stellar_dex_agg.Aggregator.Swap.{run_sub_routes, execute_sub_routes}
use stellar_dex_agg.Vault.Storage.{Storage, is_caller}
use stellar_dex_agg.Vault.Admin.{require_admin, require_caller, add_caller, admin_withdraw}
use stellar_dex_agg.Vault.Execute.{AggregatorClient, CallLaws, execute_round_trip}
use stellar_dex_agg.Vault.Calls.{Call, execute_round_trip_call, run}
use stellar_dex_agg.Vault.Safety.{
  at_risk, execute_round_trip_safe, vault_keeps, admin_withdraw_safe,
}
use stellar_dex_agg.Composition.{
  host_with_aggregator, vault_client, vault_client-CallLaws, vault_client-HonoursMinimum,
  host_with_aggregator-TokenLaws, host_with_aggregator-LedgerLaws,
  host_with_aggregator-AllowanceLaws, vault_over_aggregator_keeps,
}
use stellar_dex_agg.Tests.World.{World, host, pools, tokens, allowances, ledger, honest}

abbrev State : Type 0
State = Env Storage (Env Aggregator.Storage.Storage World)

abbrev chain : Host (Env Aggregator.Storage.Storage World)
chain = host_with_aggregator host

-- At address 99 stands a contract that pays nothing, takes nothing and returns 1.
abbrev others : AggregatorClient (Env Aggregator.Storage.Storage World)
others = record {
  round_trip_swap = λ aggregator user base bridge x leg_out leg_back min_out w.
      if aggregator == 99 then some (pos 1, w) else none;
}

abbrev client : AggregatorClient (Env Aggregator.Storage.Storage World)
client = vault_client host pools 10 30 others

-- The administrator is 2, the registered caller 1; the vault at 30 has 500 of the first token.
abbrev funded : State
funded = record {
  storage = record {
    admin = some 2;
    caller = λ a. if a == 1 then some true else none;
    wasm_hash = 0;
  };
  world = record {
    storage = Aggregator.Storage.new 0;
    world = record { now = 5; holds = λ t a. if t == 1 && a == 30 then pos 500 else pos 0 };
  };
}

abbrev leg : ℕ → ℕ → List SubRoute
leg i o =
    record {
      amount_in = pos 100;
      steps =
          record {
            dex_id = 50;
            dex_type = aquarius;
            token_in = i;
            token_out = o;
            in_idx = i;
            out_idx = o;
          }
          ∷ [];
    }
    ∷ []

apart : ◌≢◌ {A = ℕ} 10 30
apart = λ e. cc

others_kept : CallLaws chain others 30
others_kept = record {
  call_kept = λ aggregator user base bridge x leg_out leg_back min_out out w w' other e.
      elim (Bool-cases (aggregator == 99)) [
        | inl same ↦
            let unchanged : w ≡ w' = ap (λ z. z.1) (some-injective _ _ (rw same at e)) in
            subst (λ z. Kept chain 30 w z) unchanged (Kept-refl chain 30 w)
        | inr nobody ↦ let no = rw nobody at e in cc
      ];
}

laws : CallLaws chain client 30
laws = vault_client-CallLaws host pools 10 30 tokens (honest 10 30 apart) apart others others_kept

chain_tokens : TokenLaws chain
chain_tokens = host_with_aggregator-TokenLaws host pools 10 30 tokens (honest 10 30 apart) apart

chain_ledger : LedgerLaws chain 30
chain_ledger =
    host_with_aggregator-LedgerLaws host pools 10 30 tokens (honest 10 30 apart) apart
      (ledger 30 (omega arith))

chain_allowances : AllowanceLaws chain
chain_allowances =
    host_with_aggregator-AllowanceLaws host pools 10 30 tokens (honest 10 30 apart) apart allowances

abbrev after_trip : State
after_trip =
    settle (execute_round_trip chain client 30 1 10 1 2 (pos 100) (leg 1 2) (leg 2 1) (pos 100) 90)
      funded

trip_answer :
    answer
      (execute_round_trip chain client 30 1 10 1 2 (pos 100) (leg 1 2) (leg 2 1) (pos 100) 90)
      funded
    ≡ some (pos 100)
unfolding execute_round_trip require_admin require_caller add_caller ◌>>=◌ require_auth checked ◌+ℤ◌
    ◌-ℤ◌ ◌*ℤ◌ ◌/ℤ◌ answer round_trip_swap scale_sub_routes_to_total validate_sub_routes
    execute_sub_routes run_sub_routes execute_path execute_steps execute_step execute_step_inner
    swap_aquarius
trip_answer = refl

execute_round_trip_safe_example :
    (is_caller 1 funded.storage ≡ true)
    × (chain.has_auth 1 funded.world ≡ true)
    × (pos 0 <ℤ pos 100)
    × (pos 100 ≤ℤ pos 100)
    × (pos 0 ≤ℤ pos 100)
    × Traded chain 30 1 1 (pos 100) (pos 100) funded.world after_trip.world
    × (after_trip.storage ≡ funded.storage)
execute_round_trip_safe_example =
    execute_round_trip_safe chain client 30 chain_tokens chain_allowances chain_ledger laws 1 10 1 2
      (pos 100) (leg 1 2) (leg 2 1) (pos 100) (pos 100) 90 funded after_trip
      (answer-ok
        (execute_round_trip chain client 30 1 10 1 2 (pos 100) (leg 1 2) (leg 2 1) (pos 100) 90)
        funded (pos 100) trip_answer)

abbrev trip : Call
trip = execute_round_trip_call 1 10 1 2 (pos 100) (leg 1 2) (leg 2 1) (pos 100) 90

vault_keeps_example :
    chain.balance 1 30 funded.world
    ≤ℤ chain.balance 1 30 (run chain client 30 trip funded).world +ℤ at_risk 10 1 trip
vault_keeps_example =
    vault_keeps chain client 30 chain_tokens chain_allowances chain_ledger laws 10 trip funded 1
      (vault_client-HonoursMinimum host pools 10 30 others)

vault_over_aggregator_keeps_example :
    host.balance 1 30 funded.world.world
    ≤ℤ host.balance 1 30 (run chain client 30 trip funded).world.world +ℤ at_risk 10 1 trip
vault_over_aggregator_keeps_example =
    vault_over_aggregator_keeps host pools 10 30 tokens (honest 10 30 apart) apart others trip
      funded 1 (ledger 30 (omega arith)) allowances others_kept

-- Nothing is at risk by a trip through the aggregator, and the amount lent by one through another contract.
nothing_at_risk : at_risk 10 1 trip ≡ pos 0
nothing_at_risk = refl

-- The vault's caller names the contract at 99 as the aggregator, with a minimum of 100, and the vault accepts
-- the 1 that is returned: 99 of the 100 lent stay with the caller.
foreign_answer :
    answer
      (execute_round_trip chain client 30 1 99 1 2 (pos 100) (leg 1 2) (leg 2 1) (pos 100) 90)
      funded
    ≡ some (pos 1)
unfolding execute_round_trip require_caller ◌>>=◌ require_auth ◌+ℤ◌ ◌-ℤ◌ answer
foreign_answer = refl

foreign_loss :
    host.balance 1 30
      (run chain client 30
        (execute_round_trip_call 1 99 1 2 (pos 100) (leg 1 2) (leg 2 1) (pos 100) 90)
        funded).world.world
    ≡ pos 401
unfolding run settle execute_round_trip require_caller ◌>>=◌ require_auth ◌+ℤ◌ ◌-ℤ◌
foreign_loss = refl

abbrev withdrawn : State
withdrawn = settle (admin_withdraw chain 30 1 2 (pos 70)) funded

withdrawal_answer : answer (admin_withdraw chain 30 1 2 (pos 70)) funded ≡ some tt
unfolding admin_withdraw require_admin require_caller add_caller ◌>>=◌ require_auth checked ◌+ℤ◌
    ◌-ℤ◌ ◌*ℤ◌ ◌/ℤ◌ answer
withdrawal_answer = refl

admin_withdraw_safe_example :
    (a : Address) × (funded.storage.admin ≡ some a)
    × (chain.has_auth a funded.world ≡ true)
    × (pos 0 <ℤ pos 70)
    × (chain.transfer 1 30 2 (pos 70) funded.world ≡ some withdrawn.world)
    × (withdrawn.storage ≡ funded.storage)
admin_withdraw_safe_example =
    admin_withdraw_safe chain 30 1 2 (pos 70) funded withdrawn
      (answer-ok (admin_withdraw chain 30 1 2 (pos 70)) funded tt withdrawal_answer)
