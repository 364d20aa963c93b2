-- ===== src/Vault/Execute.antt =====
-- contracts/vault/src/execute.rs, and the client of types.rs.
use stellar_dex_agg.Prelude.{
  ℕ, Option, some, ◌≡◌, ◌≢◌, List, ℤ, pos, ◌≤ℤ◌, ltb_ℤ, leb_ℤ, leb, i128_max,
}
use stellar_dex_agg.Soroban.Action.{◌>>=◌, ◌>>◌, pure, require, observe, call, call_unit}
use stellar_dex_agg.Soroban.Host.{Address, Host, require_auth}
use stellar_dex_agg.Soroban.Laws.{Kept}
use stellar_dex_agg.SharedTypes.{SubRoute}
use stellar_dex_agg.Vault.Storage.{
  Vault, invalid_amount, invalid_minimum_out, invalid_allowance_expiry,
}
use stellar_dex_agg.Vault.Admin.{require_caller}

pub record AggregatorClient (W : Type 0) : Type 0 where
  -- the aggregator's address, user, base_token, bridge_token, amount_in, leg_out, leg_back,
  -- min_amount_out
  pub round_trip_swap :
      Address
      → Address
      → Address
      → Address
      → ℤ
      → List SubRoute
      → List SubRoute
      → ℤ
      → W
      → Option (ℤ × W)

-- What the host promises of the call, whatever contract the caller has named and whatever code that runs:
-- the vault, which authorizes nothing below the call and has given no allowance, loses nothing by it. What
-- the contract returns is left open.
pub record CallLaws {W : Type 0} (h : Host W) (client : AggregatorClient W) (vault : Address)
    : Type 0 where
  pub call_kept :
      (aggregator user base bridge : Address) (x : ℤ) (leg_out leg_back : List SubRoute)
      (min_out out : ℤ) (w w' : W)
      → user ≢ vault
      → client.round_trip_swap aggregator user base bridge x leg_out leg_back min_out w
        ≡ some (out, w')
      → Kept h vault w w'

-- The contract at one address returns at least the minimum that it is asked for.
pub record HonoursMinimum {W : Type 0} (client : AggregatorClient W) (aggregator : Address)
    : Type 0 where
  pub at_least :
      (user base bridge : Address) (x : ℤ) (leg_out leg_back : List SubRoute) (min_out out : ℤ)
      (w w' : W)
      → client.round_trip_swap aggregator user base bridge x leg_out leg_back min_out w
        ≡ some (out, w')
      → min_out ≤ℤ out

module _ {W : Type 0} (h : Host W) (vault : Address) where
  unfoldable pub deposit : (from token : Address) → ℤ → Vault W (Unit {0})
  deposit from token amount = do
    require_auth h from
    require (ltb_ℤ (pos 0) amount) invalid_amount
    call_unit (h.transfer token from vault amount)

module _ {W : Type 0} (h : Host W) (client : AggregatorClient W) (vault : Address) where
  unfoldable pub execute_round_trip :
      (caller aggregator base_token bridge_token : Address) (amount_in : ℤ)
      (leg_out leg_back : List SubRoute) (min_amount_out : ℤ) (allowance_expiration_ledger : ℕ)
      → Vault W ℤ
  execute_round_trip caller aggregator base_token bridge_token amount_in leg_out leg_back
        min_amount_out allowance_expiration_ledger =
      do
        require_caller h caller
        require (ltb_ℤ (pos 0) amount_in) invalid_amount
        require (leb_ℤ amount_in min_amount_out) invalid_minimum_out
        sequence ← observe h.sequence
        require (leb sequence allowance_expiration_ledger) invalid_allowance_expiry
        call_unit (h.approve base_token caller vault i128_max allowance_expiration_ledger)
        call_unit (h.transfer base_token vault caller amount_in)
        base_total ← call (
            client.round_trip_swap aggregator caller base_token bridge_token amount_in leg_out
              leg_back min_amount_out)
        call_unit (h.transfer_from base_token vault caller vault base_total)
        pure base_total
