-- ===== src/Composition.antt =====
-- contracts/order-escrow and contracts/vault with contracts/aggregator behind their clients: the
-- world of a caller is the aggregator's storage and the world outside.
use stellar_dex_agg.Prelude.{
  ℕ, ◌≡◌, ◌≢◌, ap, subst, some-injective, Option, none, some, pos, ◌≤ℤ◌, ◌==◌, ◌||◌, if◌then◌else◌,
  true, false, Bool, Bool-cases, inl, inr, ==_self, ◌+ℤ◌,
}
use stellar_dex_agg.Soroban.Action.{Result, ok, err, trap, Env}
use stellar_dex_agg.Soroban.Host.{Address, Host, Pools}
use stellar_dex_agg.Soroban.Laws.{LedgerLaws, AllowanceLaws, TokenLaws, PoolLaws, Kept}
use stellar_dex_agg.Aggregator.Errors.{AggregatorError}
use stellar_dex_agg.Aggregator.Storage.{Storage}
use stellar_dex_agg.Aggregator.Swap.{swap_restricted}
use stellar_dex_agg.Aggregator.RoundTrip.{round_trip_swap}
use stellar_dex_agg.Aggregator.Swap.Safety.{swap_restricted_safe}
use stellar_dex_agg.Aggregator.RoundTrip.Safety.{round_trip_swap-minimum, round_trip_swap-Kept}
use stellar_dex_agg.Escrow.Client
use stellar_dex_agg.Vault.Execute
use stellar_dex_agg.Escrow
use stellar_dex_agg.Vault
use stellar_dex_agg.Vault.Safety.{vault_keeps, at_risk}
use stellar_dex_agg.Escrow.Orders.{IsValid, IsSolvent}
use stellar_dex_agg.Escrow.Calls.{Reach}
use stellar_dex_agg.Escrow.Custody.Reach.{escrow_stays-IsSolvent}

-- What a call returns to another contract: a failure takes the caller's invocation with it.
abbrev pub returned : {S A : Type 0} → Result AggregatorError (A × S) → Option (A × S)
returned (ok r) = some r
returned (err _) = none
returned trap = none

returned-ok :
    {S A : Type 0} (r : Result AggregatorError (A × S)) (a : A) (s : S)
    → returned r ≡ some (a, s)
    → r ≡ ok (a, s)
returned-ok (ok (b, t)) a s e = cc
returned-ok (err _) a s e = cc
returned-ok trap a s e = cc

module _ {W : Type 0} where
  abbrev pub outside : (W → Option W) → Env Storage W → Option (Env Storage W)
  outside f s = elim (f s.world) [
    | none ↦ none
    | some w ↦ some (record { storage = s.storage; world = w })
  ]

  -- The host as a caller sees it, with the aggregator's storage in its world.
  abbrev pub host_with_aggregator : Host W → Host (Env Storage W)
  host_with_aggregator h = record {
    sequence = λ s. h.sequence s.world;
    has_auth = λ a s. h.has_auth a s.world;
    authorize_as_current_contract =
        λ i s. record { storage = s.storage; world = h.authorize_as_current_contract i s.world };
    balance = λ t a s. h.balance t a s.world;
    transfer = λ t f g x. outside (h.transfer t f g x);
    approve = λ t f g x n. outside (h.approve t f g x n);
    transfer_from = λ t p f g x. outside (h.transfer_from t p f g x);
  }

-- The host as a contract sees it that another contract has called: the caller authorizes its own call.
abbrev pub invoked_by : {W : Type 0} → Address → Host W → Host W
invoked_by caller h = record h { has_auth = λ a w. a == caller || h.has_auth a w }

-- The authorization does not enter the laws on balances.
invoked_by-TokenLaws :
    {W : Type 0} (caller : Address) (h : Host W) → TokenLaws h → TokenLaws (invoked_by caller h)
invoked_by-TokenLaws caller h tokens = record {
  transfer_balance = tokens.transfer_balance;
  transfer_nonneg = tokens.transfer_nonneg;
  transfer_covered = tokens.transfer_covered;
  transfer_sequence = tokens.transfer_sequence;
  authorize_balance = tokens.authorize_balance;
  authorize_sequence = tokens.authorize_sequence;
}

module _ {W : Type 0} (h : Host W) (caller : Address) {a : Address} where
  Kept-for : {w w' : W} → Kept h a w w' → Kept (invoked_by caller h) a w w'
  Kept-for k = record { in_token = k.in_token }

  invoked_by-PoolLaws :
      (pools : Pools W) (self : Address)
      → PoolLaws h pools self a
      → PoolLaws (invoked_by caller h) pools self a
  invoked_by-PoolLaws pools self laws = record {
    aquarius_kept = λ id i o n m r w w' e. Kept-for (laws.aquarius_kept id i o n m r w w' e);
    get_reserves_kept = λ id r w w' e. Kept-for (laws.get_reserves_kept id r w w' e);
    pair_kept = λ id x y w w' e. Kept-for (laws.pair_kept id x y w w' e);
    phoenix_kept = λ id t x w w' e. Kept-for (laws.phoenix_kept id t x w w' e);
    hints_kept = λ id hints w w' e. Kept-for (laws.hints_kept id hints w w' e);
    sushi_kept = λ id z x limit hints w w' e. Kept-for (laws.sushi_kept id z x limit hints w w' e);
    comet_kept = λ id t u x y z r w w' e. Kept-for (laws.comet_kept id t u x y z r w w' e);
  }

module _ {W : Type 0} (h : Host W) (pools : Pools W) (self caller : Address) where
  -- The aggregator is at one address, and is called by the contract at the other. The escrow calls no third
  -- contract, since it keeps the aggregator's address from its initialization.
  abbrev pub escrow_client : Client.AggregatorClient (Env Storage W)
  escrow_client = record {
    swap_restricted = λ aggregator user token_in token_out routes min_out s.
        if aggregator == self
        then returned (
            swap_restricted (invoked_by caller h) pools self user token_in token_out routes min_out
              s)
        else none;
  }

  -- The vault calls whatever contract its caller names: this aggregator, or one of the others.
  abbrev pub vault_client :
      Execute.AggregatorClient (Env Storage W) → Execute.AggregatorClient (Env Storage W)
  vault_client others = record {
    round_trip_swap = λ aggregator user base bridge x leg_out leg_back min_out s.
        if aggregator == self
        then returned (
            round_trip_swap (invoked_by caller h) pools self user base bridge x leg_out leg_back
              min_out s)
        else others.round_trip_swap aggregator user base bridge x leg_out leg_back min_out s;
  }

  -- The aggregator returns at least the minimum that it is asked for.
  pub vault_client-HonoursMinimum :
      (others : Execute.AggregatorClient (Env Storage W))
      → Execute.HonoursMinimum (vault_client others) self
  vault_client-HonoursMinimum others = record {
    at_least = λ user base bridge x leg_out leg_back min_out out s s' e.
        (round_trip_swap-minimum (invoked_by caller h) pools self user base bridge x leg_out
            leg_back min_out s).on_success
          out s' (returned-ok _ _ _ (rw (==_self self) at e));
  }

  there :
      {A : Type 0} (b : Bool) (r : Option A) (a : A) → (if b then r else none) ≡ some a → r ≡ some a
  there true r a e = e
  there false r a e = cc

module _ {W : Type 0} (h : Host W) (pools : Pools W) (self account : Address) (tokens : TokenLaws h)
    (laws : PoolLaws h pools self account) (apart : self ≢ account) where
  -- What the escrow relies on is true of the aggregator: a swap for an escrow at another address, with
  -- pools that obey the host's rules, pays at least the minimum and takes at most the routes' inputs.
  pub escrow_client-ClientLaws :
      Client.ClientLaws (host_with_aggregator h) (escrow_client h pools self account) account
  escrow_client-ClientLaws = record {
    swap_traded = λ aggregator token_in token_out routes min_out out s s' e.
        let swapped = returned-ok _ _ _ (there h pools self account (aggregator == self) _ _ e) in
        let safe =
          swap_restricted_safe (invoked_by account h) pools self account
            (invoked_by-TokenLaws account h tokens) (invoked_by-PoolLaws h account pools self laws)
            apart token_in token_out routes min_out s swapped in
        (safe.1, safe.2, record { in_token = λ t. safe.3.in_token t });
  }

  -- What the vault relies on is true of the aggregator, if it is true of the others: a round trip of
  -- another user that succeeds takes nothing from the vault.
  pub vault_client-CallLaws :
      (others : Execute.AggregatorClient (Env Storage W))
      → Execute.CallLaws (host_with_aggregator h) others account
      → Execute.CallLaws (host_with_aggregator h) (vault_client h pools self account others) account
  vault_client-CallLaws others others_kept = record {
    call_kept = λ aggregator user base bridge x leg_out leg_back min_out out s s' other e.
        elim (Bool-cases (aggregator == self)) [
          | inl same ↦
              let done = returned-ok _ _ _ (rw same at e) in
              let kept =
                (round_trip_swap-Kept (invoked_by account h) pools self user account
                    (invoked_by-TokenLaws account h tokens)
                    (invoked_by-PoolLaws h account pools self laws) apart other base bridge x
                    leg_out leg_back min_out s).on_success
                  out s' done in
              record { in_token = λ t. kept.in_token t }
          | inr foreign ↦
              others_kept.call_kept aggregator user base bridge x leg_out leg_back min_out out s s'
                other (rw foreign at e)
        ];
  }

  outside-some :
      (f : W → Option W) (s s' : Env Storage W) → outside f s ≡ some s' → f s.world ≡ some s'.world
  outside-some f s s' e = go (f s.world) e
    where
      go :
          (o : Option W)
          → ◌≡◌ {A = Option (Env Storage W)}
              (elim o [ none ↦ none | some w ↦ some (record { storage = s.storage; world = w }) ])
              (some s')
          → o ≡ some s'.world
      go none e = cc
      go (some w) e = ap (λ z. some (z.world)) (some-injective _ _ e)

  pub host_with_aggregator-TokenLaws : TokenLaws (host_with_aggregator h)
  host_with_aggregator-TokenLaws = record {
    transfer_balance = λ t f g x s s' e.
        tokens.transfer_balance t f g x s.world s'.world (outside-some (h.transfer t f g x) s s' e);
    transfer_nonneg = λ t f g x s s' e.
        tokens.transfer_nonneg t f g x s.world s'.world (outside-some (h.transfer t f g x) s s' e);
    transfer_covered = λ t f g x s s' e.
        tokens.transfer_covered t f g x s.world s'.world (outside-some (h.transfer t f g x) s s' e);
    transfer_sequence = λ t f g x s s' e.
        tokens.transfer_sequence t f g x s.world s'.world
          (outside-some (h.transfer t f g x) s s' e);
    authorize_balance = λ i s. tokens.authorize_balance i s.world;
    authorize_sequence = λ i s. tokens.authorize_sequence i s.world;
  }

  pub host_with_aggregator-LedgerLaws :
      LedgerLaws h account → LedgerLaws (host_with_aggregator h) account
  host_with_aggregator-LedgerLaws ledger = record {
    clock = λ s. ledger.clock s.world;
    silent = λ s. ledger.silent s.world;
  }

  -- The escrow with the real aggregator behind it, over tokens and pools that keep their rules: from
  -- its deployment on, through all invocations of the escrow by anyone, any other changes of the
  -- aggregator's storage and any other transactions, its stored orders are sound and it holds of every
  -- token at least the sum of what its orders still have to fill.
  pub escrow_over_aggregator-IsSolvent :
      (hash : ℕ) (s u : Env Escrow.Storage.Storage (Env Storage W))
      → LedgerLaws h account
      → s.storage ≡ Escrow.Storage.new hash
      → ((t : Address) → pos 0 ≤ℤ h.balance t account s.world.world)
      → Reach (host_with_aggregator h) (escrow_client h pools self account) account s u
      → IsValid u.storage × IsSolvent (host_with_aggregator h) account u
  escrow_over_aggregator-IsSolvent hash s u ledger deployed nonneg r =
      escrow_stays-IsSolvent (host_with_aggregator h) (escrow_client h pools self account) account
        host_with_aggregator-TokenLaws (host_with_aggregator-LedgerLaws ledger)
        escrow_client-ClientLaws hash s.world u nonneg
        (subst
          (λ st.
            Reach (host_with_aggregator h) (escrow_client h pools self account) account
              (record { storage = st; world = s.world }) u)
          deployed r)

  pub host_with_aggregator-AllowanceLaws : AllowanceLaws h → AllowanceLaws (host_with_aggregator h)
  host_with_aggregator-AllowanceLaws allowances = record {
    approve_balance = λ t f p x n s s' e.
        allowances.approve_balance t f p x n s.world s'.world
          (outside-some (h.approve t f p x n) s s' e);
    transfer_from_balance = λ t p f g x s s' e.
        allowances.transfer_from_balance t p f g x s.world s'.world
          (outside-some (h.transfer_from t p f g x) s s' e);
    transfer_from_nonneg = λ t p f g x s s' e.
        allowances.transfer_from_nonneg t p f g x s.world s'.world
          (outside-some (h.transfer_from t p f g x) s s' e);
  }

  -- The vault, where the real aggregator is at one address and any contracts at the others: whoever calls
  -- whichever entry point, over a ledger, tokens, allowances and pools that keep their rules and other
  -- contracts that take nothing from the vault by being called, where the aggregator is not the vault, no balance of the vault falls, but by at most the amount
  -- that the administrator withdraws, or by at most the amount lent to a round trip that names another
  -- contract than the real aggregator.
  pub vault_over_aggregator_keeps :
      (others : Execute.AggregatorClient (Env Storage W)) (c : Vault.Calls.Call)
      (s : Env Vault.Storage.Storage (Env Storage W)) (t : Address)
      → LedgerLaws h account
      → AllowanceLaws h
      → Execute.CallLaws (host_with_aggregator h) others account
      → h.balance t account s.world.world
        ≤ℤ h.balance t account
            (Vault.Calls.run
              (host_with_aggregator h)
              (vault_client h pools self account others)
              account
              c
              s).world.world
          +ℤ at_risk self t c
  vault_over_aggregator_keeps others c s t ledger allowances others_kept =
      vault_keeps (host_with_aggregator h) (vault_client h pools self account others) account
        host_with_aggregator-TokenLaws (host_with_aggregator-AllowanceLaws allowances)
        (host_with_aggregator-LedgerLaws ledger) (vault_client-CallLaws others others_kept) self c s
        t (vault_client-HonoursMinimum h pools self account others)
