-- ===== src/Escrow/Client.antt =====
-- contracts/order-escrow/src/lib.rs, `AggregatorContractClient`: the aggregator as the escrow calls it,
-- and what the escrow relies on. `Composition` fills both from the aggregator's own development.
use stellar_dex_agg.Prelude.{◌≡◌, Option, some, List, ℤ, pos, ◌≤ℤ◌, ◌<ℤ◌}
use stellar_dex_agg.Soroban.Host.{Address, Host}
use stellar_dex_agg.Soroban.Laws.{Traded}
use stellar_dex_agg.SharedTypes.{SubRoute}
use stellar_dex_agg.Aggregator.Routes.{total_amount}

pub record AggregatorClient (W : Type 0) : Type 0 where
  -- the aggregator's address, user, token_in, token_out, sub_routes, min_amount_out
  pub swap_restricted :
      Address → Address → Address → Address → List SubRoute → ℤ → W → Option (ℤ × W)

-- A swap for the account that succeeds gives at least the minimum, and takes at most the inputs.
pub record ClientLaws {W : Type 0} (h : Host W) (client : AggregatorClient W) (user : Address)
    : Type 0 where
  pub swap_traded :
      (aggregator token_in token_out : Address) (routes : List SubRoute) (min_out out : ℤ)
      (w w' : W)
      → client.swap_restricted aggregator user token_in token_out routes min_out w ≡ some (out, w')
      → (min_out ≤ℤ out)
        × (pos 0 <ℤ out)
        × Traded h user token_in token_out (total_amount routes) out w w'
