-- ===== src/Escrow/Custody/Limits.antt =====
-- contracts/order-escrow/src/lib.rs: custody of the limit orders.
use stellar_dex_agg.Prelude.{ℕ, refl, ℤ, pos, ◌-ℤ◌, int_laws, ltb→lt, List}
use stellar_dex_agg.Soroban.Action.{Env}
use stellar_dex_agg.Soroban.Ensures.{
  Ensures, Ensures-pure, Ensures-weaken, Ensures-require, Ensures-require_auth, Ensures-unwrap,
  Ensures-load, Ensures-observe, Ensures-modify, Ensures-modified, Ensures-call_unit,
}
use stellar_dex_agg.Soroban.Host.{Address, Host}
use stellar_dex_agg.Soroban.Laws.{LedgerLaws, TokenLaws}
use stellar_dex_agg.Escrow.Storage.{Storage}
use stellar_dex_agg.Escrow.Client.{AggregatorClient, ClientLaws}
use stellar_dex_agg.Escrow.Limit.Filling.{filled_by, fill-LimitFill}
use stellar_dex_agg.SharedTypes.{SubRoute}
use stellar_dex_agg.Escrow.Limit.{next_id_lem, create_limit, cancel, reclaim_expired, fill}
use stellar_dex_agg.Escrow.Orders.Limits.{
  add_limit-IsValid, add_limit-locked, add_limit-Evolves, set_limit-IsValid, set_limit-locked,
  set_limit-Evolves, open_limit-Evolves, remains_nonneg,
}
use stellar_dex_agg.Escrow.Orders.{IsValid, Remains-after}
use stellar_dex_agg.Escrow.Custody.Covers.{Keeps, deposit-Covers, refund-Covers, fill-Covers}

module _ {W : Type 0} (h : Host W) (escrow : Address) (tokens : TokenLaws h)
    (ledger : LedgerLaws h escrow) where
  pub create_limit-Keeps :
      (owner token_in token_out : Address) (x limit : ℤ) (expires : ℕ) (s : Env Storage W)
      → IsValid s.storage
      → Ensures
          (Keeps h escrow s)
          (create_limit h escrow owner token_in token_out x limit expires)
          s
  unfolding create_limit
  create_limit-Keeps owner token_in token_out x limit expires s v =
      Ensures-require_auth _ _ _ λ auth. Ensures-require _ _ _ λ positive.
        Ensures-require _ _ _ λ _. Ensures-require _ _ _ λ _. Ensures-observe _ _ (
          Ensures-require _ _ _ λ _. Ensures-require _ _ _ λ _. Ensures-load _ _ (
            Ensures-unwrap _ _ _ λ id e. Ensures-call_unit _ _ λ w p. Ensures-modify _ _ (
              Ensures-unwrap _ _ _ λ next e'. Ensures-modify _ _ (
                Ensures-modify _ _ (
                  Ensures-pure _ (
                    add_limit-IsValid s.storage id _ _ v next e (next_id_lem id next e')
                        (ltb→lt _ _ positive),
                    deposit-Covers h escrow tokens ledger owner token_in x auth p
                        (λ t. add_limit-locked s.storage id _ s.storage.events v next t e),
                    add_limit-Evolves s.storage id _ next _ v e,
                  ))))))

  pub cancel-Keeps :
      (id : ℕ) (s : Env Storage W)
      → IsValid s.storage
      → Ensures (Keeps h escrow s) (cancel h escrow id) s
  unfolding cancel
  cancel-Keeps id s v = Ensures-load _ _ (
      Ensures-unwrap _ _ _ λ order e. Ensures-require_auth _ _ _ λ _.
        Ensures-require _ _ _ λ was_open. Ensures-call_unit _ _ λ w p. Ensures-modify _ _ (
          Ensures-modified _ (
            set_limit-IsValid s.storage id _ _ v order e refl,
            refund-Covers h escrow tokens order.owner order.token_in order.amount_in_remaining p
                (λ t. set_limit-locked s.storage id _ order s.storage.events t e),
            set_limit-Evolves s.storage id order _ _ e (
                open_limit-Evolves order (pos 0) _ was_open
                  (remains_nonneg s.storage id order v e)),
          )))

  pub reclaim_expired-Keeps :
      (id : ℕ) (s : Env Storage W)
      → IsValid s.storage
      → Ensures (Keeps h escrow s) (reclaim_expired h escrow id) s
  unfolding reclaim_expired
  reclaim_expired-Keeps id s v = Ensures-load _ _ (
      Ensures-unwrap _ _ _ λ order e. Ensures-require _ _ _ λ was_open. Ensures-observe _ _ (
        Ensures-require _ _ _ λ _. Ensures-call_unit _ _ λ w p. Ensures-modify _ _ (
          Ensures-modified _ (
            set_limit-IsValid s.storage id _ _ v order e refl,
            refund-Covers h escrow tokens order.owner order.token_in order.amount_in_remaining p
                (λ t. set_limit-locked s.storage id _ order s.storage.events t e),
            set_limit-Evolves s.storage id order _ _ e (
                open_limit-Evolves order (pos 0) _ was_open
                  (remains_nonneg s.storage id order v e)),
          ))))

  module _ (client : AggregatorClient W) (laws : ClientLaws h client escrow) where
    pub fill-Keeps :
        (id : ℕ) (x : ℤ) (routes : List SubRoute) (min_out : ℤ) (s : Env Storage W)
        → IsValid s.storage
        → Ensures (Keeps h escrow s) (fill h client escrow id x routes min_out) s
    fill-Keeps id x routes min_out s v =
        Ensures-weaken (fill-LimitFill h escrow client tokens laws id x routes min_out s)
          λ out s' f.
            let left = f.order.amount_in_remaining -ℤ x in
            (
              rw f.stored (
                  set_limit-IsValid s.storage id (filled_by f.order x) _ v f.order f.found
                    (Remains-after _ left f.was_open (omega (int_laws, f.within)))),
              fill-Covers h escrow tokens f.order.owner f.order.token_in f.order.token_out
                  f.order.amount_in_remaining x out f.swapped f.traded f.payment
                  (λ t. rw f.stored (
                    set_limit-locked s.storage id (filled_by f.order x) f.order s.storage.events t
                      f.found)),
              rw f.stored (
                  set_limit-Evolves s.storage id f.order (filled_by f.order x) _ f.found
                    (open_limit-Evolves f.order left _ f.was_open (omega (int_laws, f.positive)))),
            )
