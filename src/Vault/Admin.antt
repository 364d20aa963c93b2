-- ===== src/Vault/Admin.antt =====
-- contracts/vault/src/admin.rs and auth.rs.
use stellar_dex_agg.Prelude.{ℕ, Bool, true, false, not, ℤ, pos, ltb_ℤ}
use stellar_dex_agg.Soroban.Action.{◌>>=◌, ◌>>◌, pure, assert, require, load, modify, call_unit}
use stellar_dex_agg.Soroban.Host.{Address, Host, require_auth}
use stellar_dex_agg.Vault.Storage
use stellar_dex_agg.Vault.Storage.{
  Vault, has_admin, get_admin, set_admin, set_caller, invalid_amount, unauthorized_caller,
}

module _ {W : Type 0} (h : Host W) where
  unfoldable pub require_admin : Vault W Address
  require_admin = do admin ← get_admin; require_auth h admin; pure admin

  unfoldable pub require_caller : Address → Vault W (Unit {0})
  require_caller caller = do
    require_auth h caller
    allowed ← load (Storage.is_caller caller)
    require allowed unauthorized_caller

  unfoldable pub initialize : Address → Vault W (Unit {0})
  initialize admin = do
    require_auth h admin
    initialized ← load has_admin
    assert (not initialized)
    modify (set_admin admin)

  unfoldable pub upgrade : ℕ → Vault W (Unit {0})
  upgrade hash = do require_admin; modify (λ s. record s { wasm_hash = hash })

  unfoldable pub admin : Vault W Address
  admin = get_admin

  unfoldable pub add_caller : Address → Vault W (Unit {0})
  add_caller caller = do require_admin; modify (set_caller caller true)

  unfoldable pub remove_caller : Address → Vault W (Unit {0})
  remove_caller caller = do require_admin; modify (set_caller caller false)

  unfoldable pub is_caller : Address → Vault W Bool
  is_caller caller = load (Storage.is_caller caller)

  unfoldable pub admin_withdraw : Address → (token to : Address) → ℤ → Vault W (Unit {0})
  admin_withdraw vault token to amount = do
    require_admin
    require (ltb_ℤ (pos 0) amount) invalid_amount
    call_unit (h.transfer token vault to amount)
