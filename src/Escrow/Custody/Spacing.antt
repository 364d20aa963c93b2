-- ===== src/Escrow/Custody/Spacing.antt =====
-- contracts/order-escrow/src/lib.rs, `fill_dca`: two fills of one order, whatever comes between them.
use stellar_dex_agg.Prelude.{
  ℕ, ◌≤◌, ◌≡◌, ◌∙◌, refl, sym, subst, true, false, some, some-injective, arith, lookup,
  lookup-insert, List, ℤ, pos, ◌-ℤ◌, ◌==ℤ◌, ==_self, saturating_add_u32, Bool-cases, inl, inr,
}
use stellar_dex_agg.Soroban.Action.{Env, ok}
use stellar_dex_agg.Soroban.Host.{Address, Host}
use stellar_dex_agg.Soroban.Laws.{LedgerLaws, TokenLaws}
use stellar_dex_agg.SharedTypes.{SubRoute}
use stellar_dex_agg.Escrow.Storage.{Storage, is_open, DcaOrder}
use stellar_dex_agg.Escrow.Client.{AggregatorClient, ClientLaws}
use stellar_dex_agg.Escrow.Dca.{chunk_of, fill_dca}
use stellar_dex_agg.Escrow.Dca.Filling.{filled_at, fill_dca-DcaFill}
use stellar_dex_agg.Escrow.Lifecycle.{DcaEvolves}
use stellar_dex_agg.Escrow.Orders.{IsValid}
use stellar_dex_agg.Escrow.Calls.{Reach}
use stellar_dex_agg.Escrow.Custody.Dcas.{fill_dca-Keeps}
use stellar_dex_agg.Escrow.Custody.Reach.{Reach-Preserves}

-- An order that has evolved from one that was just filled, and is open and due, is an interval older.
filled_at-due :
    (o o' : DcaOrder) (filled_on now : ℕ)
    → DcaEvolves (filled_at o filled_on) o'
    → is_open o'.status ≡ true
    → o'.next_executable_ledger ≤ now
    → saturating_add_u32 filled_on o.interval_ledgers ≤ now
filled_at-due o o' filled_on now evolved live due =
    elim (Bool-cases (o.amount_in_remaining -ℤ chunk_of o ==ℤ pos 0)) [
      | inl done ↦
          let closed : is_open (filled_at o filled_on).status ≡ false = rw done refl in
          let still : is_open o'.status ≡ false =
            subst (λ x. is_open x.status ≡ false) (sym (evolved.frozen closed)) closed in
          cc
      | inr more ↦
          let later : saturating_add_u32 filled_on o.interval_ledgers ≤ o'.next_executable_ledger =
            rw more at evolved.later in
          omega (arith, later)
    ]

module _ {W : Type 0} (h : Host W) (client : AggregatorClient W) (escrow : Address)
    (tokens : TokenLaws h) (ledger : LedgerLaws h escrow) (laws : ClientLaws h client escrow) where
  -- From a valid storage, over tokens and an aggregator that keep their rules: if a DCA order is
  -- filled, and filled again after any further invocations, at least its interval lies between the
  -- ledgers of the two fills, unless the sum leaves the range of a u32.
  pub fill_dca_spaced :
      (id : ℕ) (routes routes' : List SubRoute) (min_out min_out' out out' : ℤ)
      (s s' u u' : Env Storage W)
      → IsValid s.storage
      → fill_dca h client escrow id routes min_out s ≡ ok (out, s')
      → Reach h client escrow s' u
      → fill_dca h client escrow id routes' min_out' u ≡ ok (out', u')
      → (o : DcaOrder) × (lookup id s.storage.dca_orders ≡ some o)
        × (saturating_add_u32 (h.sequence s.world) o.interval_ledgers ≤ h.sequence u.world)
  fill_dca_spaced id routes routes' min_out min_out' out out' s s' u u' v e r e' =
      let f =
        (fill_dca-DcaFill h escrow client tokens laws id routes min_out s).on_success out s' e in
      let f' =
        (fill_dca-DcaFill h escrow client tokens laws id routes' min_out' u).on_success out' u'
          e' in
      let kept =
        (fill_dca-Keeps h escrow tokens ledger client laws id routes min_out s v).on_success out s'
          e in
      let now = h.sequence s.world in
      let stored : lookup id s'.storage.dca_orders ≡ some (filled_at f.order now) =
        rw f.stored (
          lookup-insert id id (filled_at f.order now) s.storage.dca_orders
          ∙ rw (==_self id) refl) in
      let evolved =
        (Reach-Preserves h client escrow tokens ledger laws r kept.0).2.dcas.entry id
          (filled_at f.order now) stored in
      let same : evolved.0 ≡ f'.order = some-injective _ _ (sym evolved.1 ∙ f'.found) in
      (
        f.order,
        f.found,
        filled_at-due f.order f'.order now (h.sequence u.world)
            (subst (λ o'. DcaEvolves (filled_at f.order now) o') same evolved.2) f'.was_open f'.due,
      )
