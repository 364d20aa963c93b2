-- ===== src/Escrow/Admin.antt =====
-- contracts/order-escrow/src/lib.rs: `initialize` and `upgrade`
use stellar_dex_agg.Prelude.{ℕ, Bool, true, false, not, Option, none, some}
use stellar_dex_agg.Soroban.Action.{◌>>=◌, ◌>>◌, require, unwrap_or_panic, load, modify}
use stellar_dex_agg.Soroban.Host.{Address, Host, require_auth}
use stellar_dex_agg.Escrow.Errors.{already_initialized, not_initialized}
use stellar_dex_agg.Escrow.Storage.{Escrow}

abbrev pub is_some : Option Address → Bool
is_some none = false
is_some (some _) = true

module _ {W : Type 0} (h : Host W) where
  unfoldable pub initialize : Address → Address → Escrow W (Unit {0})
  initialize admin aggregator = do
    initialized ← load (λ s. is_some s.admin)
    require (not initialized) already_initialized
    require_auth h admin
    modify (λ s. record s {
      admin = some admin;
      aggregator = some aggregator;
      next_order_id = some 0;
      next_dca_order_id = some 0;
    })

  unfoldable pub upgrade : ℕ → Escrow W (Unit {0})
  upgrade new_wasm_hash = do
    stored ← load (λ s. s.admin)
    admin ← unwrap_or_panic stored not_initialized
    require_auth h admin
    modify (λ s. record s { wasm_hash = new_wasm_hash })
