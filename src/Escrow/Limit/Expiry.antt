-- ===== src/Escrow/Limit/Expiry.antt =====
-- contracts/order-escrow/src/lib.rs: what `fill` and `reclaim_expired` allow around the expiry.
use stellar_dex_agg.Prelude.{
  ℕ, ◌<◌, ◌≡◌, ◌≢◌, ◌∙◌, sym, subst, some, some-injective, arith, lookup, List, ℤ, ltb→lt,
}
use stellar_dex_agg.Soroban.Action.{Env, ok}
use stellar_dex_agg.Soroban.Ensures.{
  Ensures, Ensures-require, Ensures-unwrap, Ensures-load, Ensures-observe, Ensures-modify,
  Ensures-modified, Ensures-call_unit,
}
use stellar_dex_agg.Soroban.Host.{Address, Host}
use stellar_dex_agg.Soroban.Laws.{TokenLaws}
use stellar_dex_agg.SharedTypes.{SubRoute}
use stellar_dex_agg.Escrow.Storage.{LimitOrder, Storage}
use stellar_dex_agg.Escrow.Client.{AggregatorClient, ClientLaws}
use stellar_dex_agg.Escrow.Limit.{fill, reclaim_expired}
use stellar_dex_agg.Escrow.Limit.Filling.{fill-LimitFill}

module _ {W : Type 0} (h : Host W) (escrow : Address) where
  reclaim_expired-late :
      (id : ℕ) (s : Env Storage W)
      → Ensures
          (λ _ s'.
            (o : LimitOrder) × (lookup id s.storage.orders ≡ some o)
            × (o.expires_ledger < h.sequence s.world)
            × (h.transfer o.token_in escrow o.owner o.amount_in_remaining s.world ≡ some s'.world))
          (reclaim_expired h escrow id)
          s
  unfolding reclaim_expired
  reclaim_expired-late id s = Ensures-load _ _ (
      Ensures-unwrap _ _ _ λ order e. Ensures-require _ _ _ λ _. Ensures-observe _ _ (
        Ensures-require _ _ _ λ late.
          Ensures-call_unit _ _
            λ w p. Ensures-modify _ _ (Ensures-modified _ (order, e, ltb→lt _ _ late, p))))

module _ {W : Type 0} (h : Host W) (client : AggregatorClient W) (escrow : Address)
    (tokens : TokenLaws h) (laws : ClientLaws h client escrow) where
  -- No order is both fillable and reclaimable; in the ledger of its expiry it is neither, so only its
  -- owner can close it.
  fill_or_reclaim :
      (id : ℕ) (o : LimitOrder) (x : ℤ) (routes : List SubRoute) (min_out out : ℤ)
      (s s₁ s₂ : Env Storage W)
      → lookup id s.storage.orders ≡ some o
      → (fill h client escrow id x routes min_out s ≡ ok (out, s₁)
          → h.sequence s.world < o.expires_ledger)
        × (reclaim_expired h escrow id s ≡ ok (tt, s₂) → o.expires_ledger < h.sequence s.world)
  fill_or_reclaim id o x routes min_out out s s₁ s₂ e = (
    λ filled.
        let f =
          (fill-LimitFill h escrow client tokens laws id x routes min_out s).on_success out s₁
            filled in
        subst (λ (z : LimitOrder). h.sequence s.world < z.expires_ledger)
          (some-injective _ _ (sym f.found ∙ e)) f.in_time,
    λ reclaimed.
        let r = (reclaim_expired-late h escrow id s).on_success tt s₂ reclaimed in
        subst (λ (z : LimitOrder). z.expires_ledger < h.sequence s.world)
          (some-injective _ _ (sym r.1 ∙ e)) r.2,
  )

  -- Over tokens and an aggregator that keep their rules: in the ledger in which a limit order
  -- expires it can be neither filled nor reclaimed.
  pub expiry_ledger_closed :
      (id : ℕ) (o : LimitOrder) (x : ℤ) (routes : List SubRoute) (min_out out : ℤ)
      (s s₁ s₂ : Env Storage W)
      → lookup id s.storage.orders ≡ some o
      → h.sequence s.world ≡ o.expires_ledger
      → (fill h client escrow id x routes min_out s ≢ ok (out, s₁))
        × (reclaim_expired h escrow id s ≢ ok (tt, s₂))
  expiry_ledger_closed id o x routes min_out out s s₁ s₂ e now =
      let either = fill_or_reclaim id o x routes min_out out s s₁ s₂ e in
      (λ filled. omega (arith, either.0 filled), λ reclaimed. omega (arith, either.1 reclaimed))
