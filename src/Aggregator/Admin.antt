-- ===== src/Aggregator/Admin.antt =====
-- contracts/aggregator/src/admin.rs and auth.rs
use stellar_dex_agg.Prelude.{ℕ, Bool, not}
use stellar_dex_agg.Soroban.Action.{◌>>=◌, ◌>>◌, pure, assert, load, modify}
use stellar_dex_agg.Soroban.Host.{Address, Host, require_auth}
use stellar_dex_agg.SharedTypes.{DexType, aquarius, soroswap_pair, phoenix, sushi, comet_dex}
use stellar_dex_agg.Aggregator.Storage
use stellar_dex_agg.Aggregator.Storage.{Agg, has_admin, get_admin, set_admin}

abbrev pub dex_tag : DexType → ℕ
dex_tag aquarius = 0
dex_tag soroswap_pair = 1
dex_tag phoenix = 2
dex_tag sushi = 3
dex_tag comet_dex = 4

module _ {W : Type 0} (h : Host W) where
  unfoldable pub require_admin : Agg W Address
  require_admin = do admin ← get_admin; require_auth h admin; pure admin

  unfoldable pub initialize : Address → Agg W (Unit {0})
  initialize admin = do
    require_auth h admin
    initialized ← load has_admin
    assert (not initialized)
    modify (set_admin admin)

  unfoldable pub upgrade : ℕ → Agg W (Unit {0})
  unfolding require_admin
  upgrade hash = do require_admin; modify (λ s. record s { wasm_hash = hash })

  unfoldable pub admin : Agg W Address
  admin = get_admin

  unfoldable pub set_venue : DexType → Address → Bool → Agg W (Unit {0})
  unfolding require_admin
  set_venue dex_type dex_id allowed = do
    require_admin
    modify (Storage.set_venue (dex_tag dex_type) dex_id allowed)

  unfoldable pub is_venue : DexType → Address → Agg W Bool
  is_venue dex_type dex_id = load (Storage.is_venue (dex_tag dex_type) dex_id)
