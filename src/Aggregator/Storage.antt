-- ===== src/Aggregator/Storage.antt =====
-- contracts/aggregator/src/storage.rs and events.rs: the instance and persistent storage, the code
-- that is deployed, and the events that were published, the newest first.
use stellar_dex_agg.Prelude.{
  ℕ, Bool, true, false, Option, none, some, List, [], ◌∷◌, ◌&&◌, ◌==◌, if◌then◌else◌, ℤ,
}
use stellar_dex_agg.Soroban.Action.{Env, Action, load, modify, expect, ◌>>=◌}
use stellar_dex_agg.Soroban.Host.{Address}
use stellar_dex_agg.Aggregator.Errors.{AggregatorError}

pub data Event : Type 0 where
  -- hop_idx, dex_tag, dex_id, token_in, amount_in
  leg : ℕ → ℕ → Address → Address → ℤ → Event
  -- user, token_in, token_out, total_in, total_output, sub_route_count
  swap : Address → Address → Address → ℤ → ℤ → ℕ → Event
  -- user, base_token, bridge_token, amount_in, base_total, leg_counter, is_split
  rt : Address → Address → Address → ℤ → ℤ → ℕ → Bool → Event

pub record Storage : Type 0 where
  pub admin : Option Address
  -- `DataKey::Venue(dex_tag, dex_id)`
  pub venue : ℕ → Address → Option Bool
  pub wasm_hash : ℕ
  pub events : List Event

abbrev pub new : ℕ → Storage
new hash = record { admin = none; venue = λ _ _. none; wasm_hash = hash; events = [] }

abbrev pub Agg : Type 0 → Type 0 → Type 0
Agg W A = Action (Env Storage W) AggregatorError A

abbrev pub has_admin : Storage → Bool
has_admin s = elim s.admin [ none ↦ false | some _ ↦ true ]

abbrev pub set_admin : Address → Storage → Storage
set_admin a s = record s { admin = some a }

abbrev pub get_admin : {W : Type 0} → Agg W Address
get_admin = do admin ← load (λ s. s.admin); expect admin

abbrev pub set_venue : ℕ → Address → Bool → Storage → Storage
set_venue tag id allowed s = record s {
  venue = λ t i. if t == tag && i == id then (if allowed then some true else none) else s.venue t i;
}

abbrev pub is_venue : ℕ → Address → Storage → Bool
is_venue tag id s = elim (s.venue tag id) [ none ↦ false | some b ↦ b ]

-- `env.events().publish`
abbrev pub publish : {W : Type 0} → Event → Agg W (Unit {0})
publish e = modify (λ s. record s { events = e ∷ s.events })
