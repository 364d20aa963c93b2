-- ===== src/Escrow/Custody/Refunds.antt =====
-- contracts/order-escrow/src/lib.rs: an owner gets the rest of an order back.
use stellar_dex_agg.Prelude.{
  ℕ, ◌<◌, ◌≡◌, true, some, arith, int_laws, All-map, lookup, insert, lt→ltb, ◌∷◌, ℤ, pos, ◌≤ℤ◌,
  sum_by-nonneg, lookup-sum_by, parts_of_eq,
}
use stellar_dex_agg.Soroban.Action.{Env, ok, ◌>>=◌}
use stellar_dex_agg.Soroban.Host.{Address, Host, require_auth}
use stellar_dex_agg.Soroban.Laws.{TransferLaws, on}
use stellar_dex_agg.Escrow.Storage.{
  is_open, cancelled, expired, LimitOrder, DcaOrder, Event, Storage,
}
use stellar_dex_agg.Escrow.Orders.{IsValid, IsSolvent, IsSoundLimit, IsSoundDca, limit_in, dca_in}
use stellar_dex_agg.Escrow.Orders.Limits.{Remains_nonneg, remains_nonneg}
use stellar_dex_agg.Escrow.Orders.Dcas.{sound_dca}
use stellar_dex_agg.Escrow.Limit.{cancel, reclaim_expired}
use stellar_dex_agg.Escrow.Dca.{cancel_dca, reclaim_expired_dca}

on_nonneg : (t t' : Address) (x : ℤ) → pos 0 ≤ℤ x → pos 0 ≤ℤ on t t' x
on_nonneg t t' x n = ground arith

on_self : (t : Address) (x : ℤ) → on t t x ≡ x
on_self t x = ground arith

limit_in-nonneg : (t : Address) (e : ℕ × LimitOrder) → IsSoundLimit e → pos 0 ≤ℤ limit_in t e.1
limit_in-nonneg t (_, o) sound =
    on_nonneg o.token_in t _ (Remains_nonneg o.status o.amount_in_remaining sound)

dca_in-nonneg : (t : Address) (e : ℕ × DcaOrder) → IsSoundDca e → pos 0 ≤ℤ dca_in t e.1
dca_in-nonneg t (_, o) sound =
    on_nonneg o.token_in t _ (Remains_nonneg o.status o.amount_in_remaining sound.0)

module _ {W : Type 0} (h : Host W) (escrow : Address) (s : Env Storage W) (v : IsValid s.storage)
    (held : IsSolvent h escrow s) where
  -- The escrow holds what one order has left.
  limit_covered :
      (id : ℕ) (o : LimitOrder)
      → lookup id s.storage.orders ≡ some o
      → o.amount_in_remaining ≤ℤ h.balance o.token_in escrow s.world
  limit_covered id o e =
      let t = o.token_in in
      let least =
        lookup-sum_by (limit_in t) id o s.storage.orders
          (All-map (limit_in-nonneg t) s.storage.orders v.limits) e in
      let others =
        sum_by-nonneg (dca_in t) s.storage.dca_orders
          (All-map (dca_in-nonneg t) s.storage.dca_orders v.dcas) in
      omega (
        int_laws,
        held.in_token t,
        least,
        others,
        parts_of_eq _ _ (on_self t o.amount_in_remaining),
      )

  dca_covered :
      (id : ℕ) (o : DcaOrder)
      → lookup id s.storage.dca_orders ≡ some o
      → o.amount_in_remaining ≤ℤ h.balance o.token_in escrow s.world
  dca_covered id o e =
      let t = o.token_in in
      let least =
        lookup-sum_by (dca_in t) id o s.storage.dca_orders
          (All-map (dca_in-nonneg t) s.storage.dca_orders v.dcas) e in
      let others =
        sum_by-nonneg (limit_in t) s.storage.orders
          (All-map (limit_in-nonneg t) s.storage.orders v.limits) in
      omega (
        int_laws,
        held.in_token t,
        least,
        others,
        parts_of_eq _ _ (on_self t o.amount_in_remaining),
      )

  module _ (transfers : TransferLaws h) where
    -- If covered transfers go through: in a sound and solvent state the owner of an open limit order
    -- can cancel it: the call succeeds, pays all that is left of the order to the owner, and closes
    -- it.
    pub cancel_refunds :
        (id : ℕ) (o : LimitOrder)
        → lookup id s.storage.orders ≡ some o
        → is_open o.status ≡ true
        → h.has_auth o.owner s.world ≡ true
        → (w : W) × (h.transfer o.token_in escrow o.owner o.amount_in_remaining s.world ≡ some w)
          × (cancel h escrow id s
              ≡ ok (
                tt,
                record {
                  storage = record s.storage {
                    orders =
                        insert id
                          (record o { amount_in_remaining = pos 0; status = cancelled })
                          s.storage.orders;
                    events =
                        Event.order_cancelled id o.owner o.amount_in_remaining ∷ s.storage.events;
                  };
                  world = w;
                },
              ))
    unfolding cancel require_auth ◌>>=◌
    cancel_refunds id o e was_open auth =
        let paid =
          transfers.transfer_succeeds o.token_in escrow o.owner o.amount_in_remaining s.world
            (remains_nonneg s.storage id o v e) (limit_covered id o e) in
        (paid.0, paid.1, ground (arith, e, auth, was_open, paid.1))

    -- If covered transfers go through: in a sound and solvent state anyone can reclaim an open limit
    -- order behind its expiry: the call succeeds, pays all that is left of the order to the owner,
    -- and closes it.
    pub reclaim_expired_refunds :
        (id : ℕ) (o : LimitOrder)
        → lookup id s.storage.orders ≡ some o
        → is_open o.status ≡ true
        → o.expires_ledger < h.sequence s.world
        → (w : W) × (h.transfer o.token_in escrow o.owner o.amount_in_remaining s.world ≡ some w)
          × (reclaim_expired h escrow id s
              ≡ ok (
                tt,
                record {
                  storage = record s.storage {
                    orders =
                        insert id
                          (record o { amount_in_remaining = pos 0; status = expired })
                          s.storage.orders;
                    events =
                        Event.order_expired id o.owner o.amount_in_remaining ∷ s.storage.events;
                  };
                  world = w;
                },
              ))
    unfolding reclaim_expired require_auth ◌>>=◌
    reclaim_expired_refunds id o e was_open late =
        let paid =
          transfers.transfer_succeeds o.token_in escrow o.owner o.amount_in_remaining s.world
            (remains_nonneg s.storage id o v e) (limit_covered id o e) in
        (paid.0, paid.1, ground (arith, e, lt→ltb _ _ late, was_open, paid.1))

    -- If covered transfers go through: in a sound and solvent state the owner of an open DCA order
    -- can cancel it: the call succeeds, pays all that is left of the order to the owner, and closes
    -- it.
    pub cancel_dca_refunds :
        (id : ℕ) (o : DcaOrder)
        → lookup id s.storage.dca_orders ≡ some o
        → is_open o.status ≡ true
        → h.has_auth o.owner s.world ≡ true
        → (w : W) × (h.transfer o.token_in escrow o.owner o.amount_in_remaining s.world ≡ some w)
          × (cancel_dca h escrow id s
              ≡ ok (
                tt,
                record {
                  storage = record s.storage {
                    dca_orders =
                        insert id
                          (record o { amount_in_remaining = pos 0; status = cancelled })
                          s.storage.dca_orders;
                    events =
                        Event.dca_cancelled id o.owner o.amount_in_remaining ∷ s.storage.events;
                  };
                  world = w;
                },
              ))
    unfolding cancel_dca require_auth ◌>>=◌
    cancel_dca_refunds id o e was_open auth =
        let paid =
          transfers.transfer_succeeds o.token_in escrow o.owner o.amount_in_remaining s.world
            (Remains_nonneg o.status o.amount_in_remaining (sound_dca s.storage id o v e).0)
            (dca_covered id o e) in
        (paid.0, paid.1, ground (arith, e, auth, was_open, paid.1))

    -- If covered transfers go through: in a sound and solvent state anyone can reclaim an open DCA
    -- order behind its expiry: the call succeeds, pays all that is left of the order to the owner,
    -- and closes it.
    pub reclaim_expired_dca_refunds :
        (id : ℕ) (o : DcaOrder)
        → lookup id s.storage.dca_orders ≡ some o
        → is_open o.status ≡ true
        → o.expires_ledger < h.sequence s.world
        → (w : W) × (h.transfer o.token_in escrow o.owner o.amount_in_remaining s.world ≡ some w)
          × (reclaim_expired_dca h escrow id s
              ≡ ok (
                tt,
                record {
                  storage = record s.storage {
                    dca_orders =
                        insert id
                          (record o { amount_in_remaining = pos 0; status = expired })
                          s.storage.dca_orders;
                    events = Event.dca_expired id o.owner o.amount_in_remaining ∷ s.storage.events;
                  };
                  world = w;
                },
              ))
    unfolding reclaim_expired_dca require_auth ◌>>=◌
    reclaim_expired_dca_refunds id o e was_open late =
        let paid =
          transfers.transfer_succeeds o.token_in escrow o.owner o.amount_in_remaining s.world
            (Remains_nonneg o.status o.amount_in_remaining (sound_dca s.storage id o v e).0)
            (dca_covered id o e) in
        (paid.0, paid.1, ground (arith, e, lt→ltb _ _ late, was_open, paid.1))
