-- ===== src/Soroban/Host.antt =====
-- The calls that leave a contract. Addresses are only compared, so they are numbers; `W` is the world
-- outside the contract: the ledger, the token contracts and the pools.
use stellar_dex_agg.Prelude.{ℕ, Bool, Option, ℤ}
use stellar_dex_agg.Soroban.Action.{Env, Action, ◌>>=◌, observe, assert}

abbrev pub Address : Type 0
Address = ℕ

-- An entry of `authorize_as_current_contract`: a call of the named token, made further down.
pub data SubInvocation : Type 0 where
  transfer : (token from to : Address) → ℤ → SubInvocation
  approve : (token from spender : Address) → ℤ → ℕ → SubInvocation

pub record Host (W : Type 0) : Type 0 where
  -- `env.ledger().sequence()`
  pub sequence : W → ℕ
  -- `Address::require_auth`: has the address authorized this invocation?
  pub has_auth : Address → W → Bool
  pub authorize_as_current_contract : SubInvocation → W → W
  -- `token::Client`: each call names the token first. `none` is a call that fails.
  pub balance : Address → Address → W → ℤ
  pub transfer : Address → Address → Address → ℤ → W → Option W
  pub approve : Address → Address → Address → ℤ → ℕ → W → Option W
  -- token, spender, from, to
  pub transfer_from : Address → Address → Address → Address → ℤ → W → Option W

-- The entry points of the pools, by the kind of pool; each call names the pool first, and `self`, the
-- calling contract, second.
pub record Pools (W : Type 0) : Type 0 where
  -- user, in_idx, out_idx, in_amount (u128), out_min (u128)
  pub aquarius_swap : Address → Address → Address → ℕ → ℕ → ℕ → ℕ → W → Option (ℕ × W)
  pub get_reserves : Address → Address → W → Option ((ℤ × ℤ) × W)
  -- amount0_out, amount1_out, to
  pub pair_swap : Address → Address → ℤ → ℤ → Address → W → Option W
  -- sender, offer_asset, offer_amount
  pub phoenix_swap : Address → Address → Address → Address → ℤ → W → Option W
  -- the hints are a value that is only passed on
  pub get_oracle_hints : Address → Address → W → Option (ℕ × W)
  -- sender, recipient, zero_for_one, amount_specified, sqrt_price_limit_x96, hints
  pub sushi_swap : Address → Address → Address → Address → Bool → ℤ → ℕ → ℕ → W → Option W
  -- token_in, amount_in, token_out, min_out, max_price, user; returns the amount and the new price
  pub swap_exact_amount_in :
      Address → Address → Address → ℤ → Address → ℤ → ℤ → Address → W → Option ((ℤ × ℤ) × W)

-- `Address::require_auth`, which traps without the authorization
unfoldable pub require_auth : {S W E : Type 0} → Host W → Address → Action (Env S W) E (Unit {0})
unfolding ◌>>=◌
require_auth h a = do authorized ← observe (h.has_auth a); assert authorized
