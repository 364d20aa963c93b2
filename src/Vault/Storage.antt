-- ===== src/Vault/Storage.antt =====
-- contracts/vault/src/storage.rs and errors.rs.
use stellar_dex_agg.Prelude.{ℕ, Bool, true, false, Option, none, some, ◌==◌, if◌then◌else◌}
use stellar_dex_agg.Soroban.Action.{Env, Action, load, expect, ◌>>=◌}
use stellar_dex_agg.Soroban.Host.{Address}

pub data VaultError : Type 0 where
  invalid_amount invalid_minimum_out invalid_allowance_expiry unauthorized_caller : VaultError

pub record Storage : Type 0 where
  pub admin : Option Address
  -- `DataKey::Caller(address)`, which is removed rather than set to false
  pub caller : Address → Option Bool
  pub wasm_hash : ℕ

abbrev pub Vault : Type 0 → Type 0 → Type 0
Vault W A = Action (Env Storage W) VaultError A

abbrev pub has_admin : Storage → Bool
has_admin s = elim s.admin [ none ↦ false | some _ ↦ true ]

abbrev pub set_admin : Address → Storage → Storage
set_admin a s = record s { admin = some a }

abbrev pub get_admin : {W : Type 0} → Vault W Address
get_admin = do admin ← load (λ s. s.admin); expect admin

abbrev pub set_caller : Address → Bool → Storage → Storage
set_caller a allowed s = record s {
  caller = λ b. if b == a then (if allowed then some true else none) else s.caller b;
}

abbrev pub is_caller : Address → Storage → Bool
is_caller a s = elim (s.caller a) [ none ↦ false | some allowed ↦ allowed ]
