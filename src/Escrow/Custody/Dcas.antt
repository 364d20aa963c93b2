-- ===== src/Escrow/Custody/Dcas.antt =====
-- contracts/order-escrow/src/lib.rs: custody of the orders for chunks.
use stellar_dex_agg.Prelude.{
  ℕ, ◌≡◌, ◌≤◌, ◌<◌, Bool, ltb_ℤ, ◌&&◌, not, ◌==◌, u32_max, refl, true, arith, ℤ, pos, ◌-ℤ◌, ◌≤ℤ◌,
  ◌<ℤ◌, int_laws, ltb→lt, List,
}
use stellar_dex_agg.Soroban.Action.{Env}
use stellar_dex_agg.Soroban.Ensures.{
  Ensures, Ensures-pure, Ensures-weaken, Ensures-require, Ensures-require_auth, Ensures-unwrap,
  Ensures-load, Ensures-observe, Ensures-modify, Ensures-modified, Ensures-call_unit,
}
use stellar_dex_agg.Soroban.Host.{Address, Host}
use stellar_dex_agg.Soroban.Laws.{LedgerLaws, TokenLaws}
use stellar_dex_agg.Escrow.Storage.{is_open, DcaOrder, Storage}
use stellar_dex_agg.Escrow.Client.{AggregatorClient, ClientLaws}
use stellar_dex_agg.Escrow.Dca.Filling.{filled_at, fill_dca-DcaFill}
use stellar_dex_agg.SharedTypes.{SubRoute}
use stellar_dex_agg.Escrow.Limit.{next_id_lem}
use stellar_dex_agg.Escrow.Dca.{fill_dca, chunk_of, create_dca, cancel_dca, reclaim_expired_dca}
use stellar_dex_agg.Escrow.Orders.Dcas.{
  add_dca-IsValid, add_dca-locked, add_dca-Evolves, set_dca-IsValid, set_dca-locked,
  set_dca-Evolves, open_dca-Evolves, sound_dca,
}
use stellar_dex_agg.Escrow.Orders.Limits.{Remains_nonneg, Remains_open}
use stellar_dex_agg.Escrow.Orders.{IsValid, Remains-after, IsSoundDca}
use stellar_dex_agg.Escrow.Custody.Covers.{Keeps, deposit-Covers, refund-Covers, fill-Covers}

module _ {W : Type 0} (h : Host W) (escrow : Address) (tokens : TokenLaws h)
    (ledger : LedgerLaws h escrow) where
  chunk_positive : (chunk : ℤ) (rest : Bool) → (ltb_ℤ (pos 0) chunk && rest) ≡ true → pos 0 <ℤ chunk
  chunk_positive chunk rest tested = ground arith

  interval_positive : (interval : ℕ) → not (interval == 0) ≡ true → 0 < interval
  interval_positive interval tested = ground arith

  pub create_dca-Keeps :
      (owner token_in token_out : Address) (x chunk : ℤ) (interval start : ℕ) (rate : ℤ)
      (expires : ℕ) (s : Env Storage W)
      → IsValid s.storage
      → Ensures
          (Keeps h escrow s)
          (create_dca h escrow owner token_in token_out x chunk interval start rate expires)
          s
  unfolding create_dca
  create_dca-Keeps owner token_in token_out x chunk interval start rate expires s v =
      Ensures-require_auth _ _ _ λ auth. Ensures-observe _ _ (
        Ensures-require _ _ _ λ positive. Ensures-require _ _ _ λ chunked.
          Ensures-require _ _ _ λ spaced. Ensures-require _ _ _ λ _. Ensures-require _ _ _ λ _.
            Ensures-require _ _ _ λ _. Ensures-require _ _ _ λ _. Ensures-require _ _ _ λ _.
              Ensures-load _ _ (
                Ensures-unwrap _ _ _ λ id e. Ensures-call_unit _ _ λ w p. Ensures-modify _ _ (
                  Ensures-unwrap _ _ _ λ next e'. Ensures-modify _ _ (
                    Ensures-modify _ _ (
                      Ensures-pure _ (
                        add_dca-IsValid s.storage id _ _ v next e (next_id_lem id next e') (
                          ltb→lt _ _ positive,
                          chunk_positive chunk _ chunked,
                          interval_positive interval spaced,
                        ),
                        deposit-Covers h escrow tokens ledger owner token_in x auth p
                            (λ t. add_dca-locked s.storage id _ s.storage.events v next t e),
                        add_dca-Evolves s.storage id _ next _ v e,
                      ))))))

  pub cancel_dca-Keeps :
      (id : ℕ) (s : Env Storage W)
      → IsValid s.storage
      → Ensures (Keeps h escrow s) (cancel_dca h escrow id) s
  unfolding cancel_dca
  cancel_dca-Keeps id s v = Ensures-load _ _ (
      Ensures-unwrap _ _ _ λ order e. Ensures-require_auth _ _ _ λ _.
        Ensures-require _ _ _ λ was_open. Ensures-call_unit _ _ λ w p.
          let sound = sound_dca s.storage id order v e in
          Ensures-modify _ _ (
            Ensures-modified _ (
              set_dca-IsValid s.storage id _ _ v order e (refl, sound.1, sound.2),
              refund-Covers h escrow tokens order.owner order.token_in order.amount_in_remaining p
                  (λ t. set_dca-locked s.storage id _ order s.storage.events t e),
              set_dca-Evolves s.storage id order _ _ e (
                  open_dca-Evolves order (pos 0) _ _ was_open
                    (Remains_nonneg order.status order.amount_in_remaining sound.0) (omega arith)),
            )))

  pub reclaim_expired_dca-Keeps :
      (id : ℕ) (s : Env Storage W)
      → IsValid s.storage
      → Ensures (Keeps h escrow s) (reclaim_expired_dca h escrow id) s
  unfolding reclaim_expired_dca
  reclaim_expired_dca-Keeps id s v = Ensures-load _ _ (
      Ensures-unwrap _ _ _ λ order e. Ensures-require _ _ _ λ was_open. Ensures-observe _ _ (
        Ensures-require _ _ _ λ _. Ensures-call_unit _ _ λ w p.
          let sound = sound_dca s.storage id order v e in
          Ensures-modify _ _ (
            Ensures-modified _ (
              set_dca-IsValid s.storage id _ _ v order e (refl, sound.1, sound.2),
              refund-Covers h escrow tokens order.owner order.token_in order.amount_in_remaining p
                  (λ t. set_dca-locked s.storage id _ order s.storage.events t e),
              set_dca-Evolves s.storage id order _ _ e (
                  open_dca-Evolves order (pos 0) _ _ was_open
                    (Remains_nonneg order.status order.amount_in_remaining sound.0) (omega arith)),
            ))))

  -- The next chunk of a sound open order is positive and no larger than what is left.
  chunk_of-bounds :
      (order : DcaOrder) (id : ℕ)
      → is_open order.status ≡ true
      → IsSoundDca (id, order)
      → (pos 0 <ℤ chunk_of order) × (chunk_of order ≤ℤ order.amount_in_remaining)
  chunk_of-bounds order id was_open sound =
      ground (arith, Remains_open order.status order.amount_in_remaining was_open sound.0, sound.1)

  -- A fill never brings the next one forward.
  filled_at-later :
      (order : DcaOrder) (current : ℕ)
      → current ≤ u32_max
      → order.next_executable_ledger ≤ current
      → order.next_executable_ledger ≤ (filled_at order current).next_executable_ledger
  filled_at-later order current clock due = ground arith

  module _ (client : AggregatorClient W) (laws : ClientLaws h client escrow) where
    pub fill_dca-Keeps :
        (id : ℕ) (routes : List SubRoute) (min_out : ℤ) (s : Env Storage W)
        → IsValid s.storage
        → Ensures (Keeps h escrow s) (fill_dca h client escrow id routes min_out) s
    fill_dca-Keeps id routes min_out s v =
        Ensures-weaken (fill_dca-DcaFill h escrow client tokens laws id routes min_out s)
          λ out s' f.
            let after = filled_at f.order (h.sequence s.world) in
            let sound = sound_dca s.storage id f.order v f.found in
            let bounds = chunk_of-bounds f.order id f.was_open sound in
            (
              rw f.stored (
                  set_dca-IsValid s.storage id after _ v f.order f.found (
                    Remains-after f.order.status (f.order.amount_in_remaining -ℤ chunk_of f.order)
                        f.was_open (omega (int_laws, bounds.1)),
                    sound.1,
                    sound.2,
                  )),
              fill-Covers h escrow tokens f.order.owner f.order.token_in f.order.token_out
                  f.order.amount_in_remaining (chunk_of f.order) out f.swapped f.traded f.payment
                  (λ t.
                    rw f.stored
                      (set_dca-locked s.storage id after f.order s.storage.events t f.found)),
              rw f.stored (
                  set_dca-Evolves s.storage id f.order after _ f.found (
                    open_dca-Evolves f.order _ _ _ f.was_open (omega (int_laws, bounds.0))
                      (filled_at-later f.order _ (ledger.clock s.world) f.due))),
            )
