-- ===== src/Escrow/Custody/Covers.antt =====
-- contracts/order-escrow/src/lib.rs: what a deposit, a refund and a fill move, for both kinds of
-- orders.
use stellar_dex_agg.Prelude.{◌≡◌, ◌≢◌, subst, true, some, ℤ, pos, ◌+ℤ◌, ◌-ℤ◌, int_laws, parts_of_eq}
use stellar_dex_agg.Soroban.Action.{Env}
use stellar_dex_agg.Soroban.Host.{Address, Host}
use stellar_dex_agg.Soroban.Laws.{
  LedgerLaws, TokenLaws, transfer-to, transfer-least, on, on_zero, on_sub, Traded,
}
use stellar_dex_agg.Escrow.Storage.{Storage}
use stellar_dex_agg.Escrow.Lifecycle.{Evolves}
use stellar_dex_agg.Escrow.Orders.{IsValid, locked, Covers}

module _ {W : Type 0} (h : Host W) (escrow : Address) where
  -- The storage stays valid, the escrow owes no more than it holds more, and the orders only evolve.
  abbrev pub Preserves : Env Storage W → Env Storage W → Type 0
  Preserves s s' = IsValid s'.storage × Covers h escrow s s' × Evolves s.storage s'.storage

  abbrev pub Keeps : {A : Type 0} → Env Storage W → A → Env Storage W → Type 0
  Keeps s _ s' = Preserves s s'

module _ {W : Type 0} (h : Host W) (escrow : Address) (tokens : TokenLaws h) where
  -- A refund pays out what the order had left, and the order is owed nothing any more.
  pub refund-Covers :
      (owner token_in : Address) (x : ℤ) {s s' : Env Storage W}
      → h.transfer token_in escrow owner x s.world ≡ some s'.world
      → ((t : Address)
          → locked t s'.storage +ℤ on token_in t x ≡ locked t s.storage +ℤ on token_in t (pos 0))
      → Covers h escrow s s'
  refund-Covers owner token_in x p e = record {
    in_token = λ t. omega (
      int_laws,
      parts_of_eq _ _ (e t),
      parts_of_eq _ _ (on_zero token_in t),
      transfer-least h tokens token_in escrow owner x p t,
    );
  }

  -- A swap takes the fill's input at most, and its output goes to the owner.
  pub fill-Covers :
      (owner token_in token_out : Address) (left x out : ℤ) (w : W) {s s' : Env Storage W}
      → Traded h escrow token_in token_out x out s.world w
      → h.transfer token_out escrow owner out w ≡ some s'.world
      → ((t : Address)
          → locked t s'.storage +ℤ on token_in t left
            ≡ locked t s.storage +ℤ on token_in t (left -ℤ x))
      → Covers h escrow s s'
  fill-Covers owner token_in token_out left x out w traded p e = record {
    in_token = λ t. omega (
      int_laws,
      parts_of_eq _ _ (e t),
      parts_of_eq _ _ (on_sub token_in t left x),
      traded.in_token t,
      transfer-least h tokens token_out escrow owner out p t,
    );
  }

  module _ (ledger : LedgerLaws h escrow) where
    -- Deposits are owed in full, and held in full.
    pub deposit-Covers :
        (owner token_in : Address) (x : ℤ) {s s' : Env Storage W}
        → h.has_auth owner s.world ≡ true
        → h.transfer token_in owner escrow x s.world ≡ some s'.world
        → ((t : Address) → locked t s'.storage ≡ locked t s.storage +ℤ on token_in t x)
        → Covers h escrow s s'
    deposit-Covers owner token_in x {s} {s'} auth p e = record {
      in_token = λ t.
          let apart : owner ≢ escrow = λ same.
            cc (subst (λ a. h.has_auth a s.world ≡ true) same auth, ledger.silent s.world) in
          let held = transfer-to h tokens token_in owner escrow x p apart t in
          omega (int_laws, parts_of_eq _ _ (e t), parts_of_eq _ _ held);
    }
