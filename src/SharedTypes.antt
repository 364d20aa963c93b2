-- ===== src/SharedTypes.antt =====
-- contracts/shared-types/src/lib.rs: the routes that the contracts exchange.
use stellar_dex_agg.Prelude.{ℕ, List, ℤ}
use stellar_dex_agg.Soroban.Host.{Address}

pub data DexType : Type 0 where
  aquarius soroswap_pair phoenix sushi comet_dex : DexType

pub record SwapStep : Type 0 where
  pub dex_id : Address
  pub dex_type : DexType
  pub token_in : Address
  pub token_out : Address
  pub in_idx : ℕ
  pub out_idx : ℕ

pub record SubRoute : Type 0 where
  pub amount_in : ℤ
  pub steps : List SwapStep
