-- ===== src/Vault/Safety.antt =====
-- contracts/vault: the vault's float, over all its entry points.
use stellar_dex_agg.Prelude.{
  ℕ, ◌≡◌, refl, subst, some, true, arith, int_laws, List, ℤ, pos, ◌+ℤ◌, ◌≤ℤ◌, ◌<ℤ◌, ltb→lt,
  pos_part, ◌==◌, ==→eq, if◌then◌else◌, Bool-cases, inl, inr, sym,
}
use stellar_dex_agg.Soroban.Action.{Env, ok, Action, settle}
use stellar_dex_agg.Soroban.Ensures.{
  Ensures, Ensures-called_unit, Ensures-expected, Ensures-pure, Ensures-bind_reads, Ensures-weaken,
  Ensures-require, Ensures-require_auth, Ensures-assert, Ensures-load, Ensures-self,
  Ensures-modified, settle-holds,
}
use stellar_dex_agg.Soroban.Host.{Address, Host}
use stellar_dex_agg.Soroban.Laws.{
  LedgerLaws, TokenLaws, AllowanceLaws, Kept, Kept-refl, transfer-Kept, Traded, on, transfer-least,
}
use stellar_dex_agg.SharedTypes.{SubRoute}
use stellar_dex_agg.Vault.Storage
use stellar_dex_agg.Vault.Storage.{VaultError, is_caller, get_admin}
use stellar_dex_agg.Vault.Admin.{
  require_admin, initialize, upgrade, add_caller, remove_caller, admin_withdraw,
}
use stellar_dex_agg.Vault.Calls.{
  Call, initialize_call, add_caller_call, remove_caller_call, upgrade_call, deposit_call,
  admin_withdraw_call, execute_round_trip_call, run,
}
use stellar_dex_agg.Vault.Execute.{
  AggregatorClient, CallLaws, HonoursMinimum, deposit, execute_round_trip,
}
use stellar_dex_agg.Vault.Trips.{
  on_nonneg, on_mono, apart_from, execute_round_trip-Traded, Traded-Kept,
}

module _ {W : Type 0} (h : Host W) (vault : Address) where
  require_admin-reads :
      (s : Env Storage.Storage W)
      → Ensures
          (λ a s'. ((h.has_auth a s.world ≡ true) × (s.storage.admin ≡ some a)) × (s' ≡ s))
          (require_admin h)
          s
  unfolding require_admin
  require_admin-reads s =
      Ensures-bind_reads _ _ stored
        λ admin e. Ensures-require_auth _ _ _ λ auth. Ensures-pure _ ((auth, e), refl)
    where
      stored : Ensures (λ a s'. (s.storage.admin ≡ some a) × (s' ≡ s)) (get_admin {W = W}) s
      stored = Ensures-load _ _ (Ensures-expected _ λ a e. (e, refl))

  -- A withdrawal that succeeds has the administrator's authorization, and moves exactly the amount.
  pub admin_withdraw_safe :
      (token to : Address) (x : ℤ) (s s' : Env Storage.Storage W)
      → admin_withdraw h vault token to x s ≡ ok (tt, s')
      → (a : Address) × (s.storage.admin ≡ some a)
        × (h.has_auth a s.world ≡ true)
        × (pos 0 <ℤ x)
        × (h.transfer token vault to x s.world ≡ some s'.world)
        × (s'.storage ≡ s.storage)
  unfolding admin_withdraw
  admin_withdraw_safe token to x s s' = goal.on_success tt s'
    where
      goal :
          Ensures
            (λ _ s'.
              (a : Address) × (s.storage.admin ≡ some a)
              × (h.has_auth a s.world ≡ true)
              × (pos 0 <ℤ x)
              × (h.transfer token vault to x s.world ≡ some s'.world)
              × (s'.storage ≡ s.storage))
            (admin_withdraw h vault token to x)
            s
      goal = Ensures-bind_reads _ _ (require_admin-reads s) λ a q.
          Ensures-require _ _ _
            λ positive. Ensures-called_unit _ λ w p. (a, q.1, q.0, ltb→lt _ _ positive, p, refl)

-- How much of a token an invocation may take out of the vault, where the contract at one address is
-- trusted: what the administrator withdraws, and what a round trip lends that names another contract as the
-- aggregator.
abbrev pub at_risk : (trusted t : Address) → Call → ℤ
at_risk trusted t (admin_withdraw_call token _ x) = on token t (pos (pos_part x))
at_risk trusted t (execute_round_trip_call _ aggregator base _ x _ _ _ _) =
    if aggregator == trusted then pos 0 else on base t (pos (pos_part x))
at_risk trusted t _ = pos 0

module _ {W : Type 0} (h : Host W) (client : AggregatorClient W) (vault : Address)
    (tokens : TokenLaws h) (allowances : AllowanceLaws h) (ledger : LedgerLaws h vault)
    (laws : CallLaws h client vault) where
  -- Over a ledger, tokens and allowances that keep their rules, a round trip of the vault that succeeds,
  -- whatever contract its caller has named as the aggregator and whatever that contract returns, as long as
  -- the vault loses nothing by the call of it (CallLaws): the caller is registered and has authorized it,
  -- the amount lent is positive, the minimum asked for is at least that amount, and what is returned is not
  -- negative and is paid back to the vault. So the vault loses at most the amount lent, less what is
  -- returned; no other balance of it falls, and nothing stored changes.
  pub execute_round_trip_safe :
      (caller aggregator base bridge : Address) (x : ℤ) (leg_out leg_back : List SubRoute)
      (min_out total : ℤ) (expiry : ℕ) (s s' : Env Storage.Storage W)
      → execute_round_trip h client vault caller aggregator base bridge x leg_out leg_back min_out
          expiry s
        ≡ ok (total, s')
      → (is_caller caller s.storage ≡ true)
        × (h.has_auth caller s.world ≡ true)
        × (pos 0 <ℤ x)
        × (x ≤ℤ min_out)
        × (pos 0 ≤ℤ total)
        × Traded h vault base base x total s.world s'.world
        × (s'.storage ≡ s.storage)
  execute_round_trip_safe caller aggregator base bridge x leg_out leg_back min_out total expiry s s'
        e =
      let f =
        (execute_round_trip-Traded h client vault tokens allowances ledger laws caller aggregator
            base bridge x leg_out leg_back min_out expiry s).on_success
          total s' e in
      (f.0, f.1, f.2, f.3, f.4, f.5, f.6)

  -- What an invocation that takes nothing from the vault leaves.
  abbrev Holds : Env Storage.Storage W → Env Storage.Storage W → Type 0
  Holds s s' = Kept h vault s.world s'.world

  initialize-Holds :
      (a : Address) (s : Env Storage.Storage W) → Ensures (λ _ s'. Holds s s') (initialize h a) s
  unfolding initialize
  initialize-Holds a s =
      Ensures-require_auth _ _ _ λ _.
        Ensures-load _ _ (Ensures-assert _ _ λ _. Ensures-modified _ (Kept-refl h vault s.world))

  upgrade-Holds :
      (hash : ℕ) (s : Env Storage.Storage W) → Ensures (λ _ s'. Holds s s') (upgrade h hash) s
  unfolding upgrade
  upgrade-Holds hash s =
      Ensures-bind_reads _ _ (require_admin-reads h vault s)
        λ _ _. Ensures-modified _ (Kept-refl h vault s.world)

  add_caller-Holds :
      (a : Address) (s : Env Storage.Storage W) → Ensures (λ _ s'. Holds s s') (add_caller h a) s
  unfolding add_caller
  add_caller-Holds a s =
      Ensures-bind_reads _ _ (require_admin-reads h vault s)
        λ _ _. Ensures-modified _ (Kept-refl h vault s.world)

  remove_caller-Holds :
      (a : Address) (s : Env Storage.Storage W) → Ensures (λ _ s'. Holds s s') (remove_caller h a) s
  unfolding remove_caller
  remove_caller-Holds a s =
      Ensures-bind_reads _ _ (require_admin-reads h vault s)
        λ _ _. Ensures-modified _ (Kept-refl h vault s.world)

  deposit-Holds :
      (from token : Address) (x : ℤ) (s : Env Storage.Storage W)
      → Ensures (λ _ s'. Holds s s') (deposit h vault from token x) s
  unfolding deposit
  deposit-Holds from token x s = Ensures-require_auth _ _ _ λ auth. Ensures-require _ _ _ λ _.
      Ensures-called_unit _ λ w p.
        transfer-Kept h tokens token from vault vault x p
          (apart_from h client vault tokens allowances ledger laws from s.world auth)

  settled :
      {E A : Type 0} {m : Action (Env Storage.Storage W) E A} (s : Env Storage.Storage W)
      → Ensures (λ _ s'. Holds s s') m s
      → (t : Address) → h.balance t vault s.world ≤ℤ h.balance t vault (settle m s).world +ℤ pos 0
  settled {m = m} s kept t =
      let k : Kept h vault s.world (settle m s).world =
        settle-holds {P = Holds s} (Kept-refl h vault s.world) kept in
      omega (int_laws, k.in_token t)

  -- What an invocation that takes at most an amount from the vault leaves.
  abbrev Loses : Address → ℤ → Env Storage.Storage W → Env Storage.Storage W → Type 0
  Loses token x s s' =
      (t : Address)
      → h.balance t vault s.world ≤ℤ h.balance t vault s'.world +ℤ on token t (pos (pos_part x))

  Loses-refl : (token : Address) (x : ℤ) (s : Env Storage.Storage W) → Loses token x s s
  Loses-refl token x s t = omega (int_laws, on_nonneg token t (pos (pos_part x)) (omega arith))

  admin_withdraw-Loses :
      (token to : Address) (x : ℤ) (s : Env Storage.Storage W)
      → Ensures (λ _ s'. Loses token x s s') (admin_withdraw h vault token to x) s
  admin_withdraw-Loses token to x s = Ensures-self λ _ s' e t.
      let (_, _, _, _, moved, _) = admin_withdraw_safe h vault token to x s s' e in
      omega (
        int_laws,
        transfer-least h tokens token vault to x moved t,
        on_mono token t x (pos (pos_part x)) (omega int_laws),
      )

  execute_round_trip-Loses :
      (caller aggregator base bridge : Address) (x : ℤ) (leg_out leg_back : List SubRoute)
      (min_out : ℤ) (expiry : ℕ) (s : Env Storage.Storage W)
      → Ensures
          (λ _ s'. Loses base x s s')
          (execute_round_trip h client vault caller aggregator base bridge x leg_out leg_back
            min_out expiry)
          s
  execute_round_trip-Loses caller aggregator base bridge x leg_out leg_back min_out expiry s =
      Ensures-weaken
        (execute_round_trip-Traded h client vault tokens allowances ledger laws caller aggregator
          base bridge x leg_out leg_back min_out expiry s)
        λ total s' f t. omega (
          int_laws,
          f.5.in_token t,
          on_nonneg base t total f.4,
          on_mono base t x (pos (pos_part x)) (omega int_laws),
        )

  execute_round_trip-Holds :
      (caller aggregator base bridge : Address) (x : ℤ) (leg_out leg_back : List SubRoute)
      (min_out : ℤ) (expiry : ℕ) (s : Env Storage.Storage W)
      → HonoursMinimum client aggregator
      → Ensures
          (λ _ s'. Holds s s')
          (execute_round_trip h client vault caller aggregator base bridge x leg_out leg_back
            min_out expiry)
          s
  execute_round_trip-Holds caller aggregator base bridge x leg_out leg_back min_out expiry s
        honours =
      Ensures-weaken
        (execute_round_trip-Traded h client vault tokens allowances ledger laws caller aggregator
          base bridge x leg_out leg_back min_out expiry s)
        λ total s' f.
          Traded-Kept h client vault tokens allowances ledger laws base x total
            (omega (arith, f.3, f.7 honours)) f.5

  -- Over a ledger, tokens and allowances that keep their rules, where the vault loses nothing by the call of
  -- any contract (CallLaws), and with one address whose contract returns at least the minimum that it is
  -- asked for, whatever entry point of the vault is called, by whom and with which
  -- arguments, and whether or not it succeeds: no balance of the vault falls, but by at most the amount that
  -- the administrator withdraws, or by at most the amount lent to a round trip that names another contract
  -- as the aggregator.
  pub vault_keeps :
      (trusted : Address) (c : Call) (s : Env Storage.Storage W) (t : Address)
      → HonoursMinimum client trusted
      → h.balance t vault s.world
        ≤ℤ h.balance t vault (run h client vault c s).world +ℤ at_risk trusted t c
  unfolding run
  vault_keeps trusted (initialize_call a) s t honours = settled s (initialize-Holds a s) t
  vault_keeps trusted (add_caller_call a) s t honours = settled s (add_caller-Holds a s) t
  vault_keeps trusted (remove_caller_call a) s t honours = settled s (remove_caller-Holds a s) t
  vault_keeps trusted (upgrade_call hash) s t honours = settled s (upgrade-Holds hash s) t
  vault_keeps trusted (deposit_call from token x) s t honours =
      settled s (deposit-Holds from token x s) t
  vault_keeps trusted (admin_withdraw_call token to x) s t honours =
      settle-holds {P = Loses token x s} (Loses-refl token x s) (admin_withdraw-Loses token to x s)
        t
  vault_keeps trusted
        (execute_round_trip_call caller aggregator base bridge x leg_out leg_back min_out expiry) s
        t honours =
      elim (Bool-cases (aggregator == trusted)) [
        | inl same ↦ rw same (
            settled s
              (execute_round_trip-Holds caller aggregator base bridge x leg_out leg_back min_out
                expiry s
                (subst (HonoursMinimum client) (sym (==→eq aggregator trusted same)) honours))
              t)
        | inr other ↦ rw other (
            settle-holds {P = Loses base x s} (Loses-refl base x s)
              (execute_round_trip-Loses caller aggregator base bridge x leg_out leg_back min_out
                expiry s)
              t)
      ]
