-- ===== src/Escrow/Custody/Reach.antt =====
-- contracts/order-escrow/src/lib.rs: custody over all invocations in any order.
use stellar_dex_agg.Prelude.{
  ℕ, ◌≡◌, refl, subst, true, not, Option, Below, none, some, arith, int_laws, lookup, pos, ◌≤ℤ◌,
}
use stellar_dex_agg.Soroban.Action.{Env, Action, settle}
use stellar_dex_agg.Soroban.Ensures.{
  Ensures, Ensures-require, Ensures-require_auth, Ensures-unwrap, Ensures-load, Ensures-modified,
  settle-holds,
}
use stellar_dex_agg.Soroban.Host.{Address, Host}
use stellar_dex_agg.Soroban.Laws.{Kept, LedgerLaws, TokenLaws}
use stellar_dex_agg.Escrow.Storage.{Storage, new, LimitOrder, DcaOrder}
use stellar_dex_agg.Escrow.Client.{AggregatorClient, ClientLaws}
use stellar_dex_agg.Escrow.Admin.{is_some, initialize, upgrade}
use stellar_dex_agg.Escrow.Orders.{next_or_zero, IsValid, IsSolvent, Covers}
use stellar_dex_agg.Escrow.Lifecycle.{LimitEvolves, DcaEvolves, Evolves-refl, Evolves-trans}
use stellar_dex_agg.Escrow.Calls.{
  Call, initialize_call, upgrade_call, create_limit_call, fill_call, cancel_call,
  reclaim_expired_call, create_dca_call, fill_dca_call, cancel_dca_call, reclaim_expired_dca_call,
  run, invoked, passed, Reach, here, next,
}
use stellar_dex_agg.Escrow.Custody.Covers.{Preserves, Keeps}
use stellar_dex_agg.Escrow.Custody.Limits.{
  create_limit-Keeps, fill-Keeps, cancel-Keeps, reclaim_expired-Keeps,
}
use stellar_dex_agg.Escrow.Custody.Dcas.{
  create_dca-Keeps, fill_dca-Keeps, cancel_dca-Keeps, reclaim_expired_dca-Keeps,
}

-- before the first initialization there are no orders, so counting starts at 0 again
IsValid-initialized :
    (st : Storage) (admin aggregator : Address)
    → st.admin ≡ none
    → IsValid st
    → IsValid (record st {
      admin = some admin;
      aggregator = some aggregator;
      next_order_id = some 0;
      next_dca_order_id = some 0;
    })
IsValid-initialized st admin aggregator fresh v =
    let unset = v.uninitialized fresh in
    record {
      limit_ids = subst (λ n. Below (next_or_zero n) st.orders) unset.0 v.limit_ids;
      dca_ids = subst (λ n. Below (next_or_zero n) st.dca_orders) unset.1 v.dca_ids;
      limits = v.limits;
      dcas = v.dcas;
      uninitialized = λ stored. cc;
    }

IsValid-upgraded : (st : Storage) (hash : ℕ) → IsValid st → IsValid (record st { wasm_hash = hash })
IsValid-upgraded st hash v = record {
  limit_ids = v.limit_ids;
  dca_ids = v.dca_ids;
  limits = v.limits;
  dcas = v.dcas;
  uninitialized = v.uninitialized;
}

not_some : (o : Option Address) → not (is_some o) ≡ true → o ≡ none
not_some none e = refl
not_some (some a) e = cc

module _ {W : Type 0} (h : Host W) (escrow : Address) where
  -- A call that only moves the stored administration.
  Covers-refl : (s : Env Storage W) → Covers h escrow s s
  Covers-refl s = record { in_token = λ t. omega arith }

  initialize-Keeps :
      (admin aggregator : Address) (s : Env Storage W)
      → IsValid s.storage
      → Ensures (Keeps h escrow s) (initialize h admin aggregator) s
  unfolding initialize
  initialize-Keeps admin aggregator s v = Ensures-load _ _ (
      Ensures-require _ _ _ λ fresh. Ensures-require_auth _ _ _ λ _. Ensures-modified _ (
        IsValid-initialized s.storage admin aggregator (not_some s.storage.admin fresh) v,
        record { in_token = λ t. omega arith },
        record { limits = (Evolves-refl s.storage).limits; dcas = (Evolves-refl s.storage).dcas },
      ))

  upgrade-Keeps :
      (hash : ℕ) (s : Env Storage W)
      → IsValid s.storage
      → Ensures (Keeps h escrow s) (upgrade h hash) s
  unfolding upgrade
  upgrade-Keeps hash s v = Ensures-load _ _ (
      Ensures-unwrap _ _ _ λ admin _. Ensures-require_auth _ _ _ λ _. Ensures-modified _ (
        IsValid-upgraded s.storage hash v,
        record { in_token = λ t. omega arith },
        record { limits = (Evolves-refl s.storage).limits; dcas = (Evolves-refl s.storage).dcas },
      ))

module _ {W : Type 0} (h : Host W) (client : AggregatorClient W) (escrow : Address)
    (tokens : TokenLaws h) (ledger : LedgerLaws h escrow) (laws : ClientLaws h client escrow) where
  settle-Preserves :
      {E A : Type 0} {m : Action (Env Storage W) E A} (s : Env Storage W)
      → IsValid s.storage
      → Ensures (Keeps h escrow s) m s
      → Preserves h escrow s (settle m s)
  settle-Preserves s v kept =
      settle-holds {P = Preserves h escrow s} (v, Covers-refl h escrow s, Evolves-refl s.storage)
        kept

  -- Every invocation, refused ones included, keeps the orders sound, covers what it makes the escrow
  -- owe, and changes stored orders only as their lifecycle allows.
  run-Preserves :
      (c : Call) (s : Env Storage W)
      → IsValid s.storage
      → Preserves h escrow s (run h client escrow c s)
  unfolding run
  run-Preserves (initialize_call admin aggregator) s v =
      settle-Preserves s v (initialize-Keeps h escrow admin aggregator s v)
  run-Preserves (upgrade_call hash) s v = settle-Preserves s v (upgrade-Keeps h escrow hash s v)
  run-Preserves (create_limit_call owner token_in token_out amount_in limit expires) s v =
      settle-Preserves s v (
        create_limit-Keeps h escrow tokens ledger owner token_in token_out amount_in limit expires s
          v)
  run-Preserves (fill_call id amount_in routes min_out) s v =
      settle-Preserves s v
        (fill-Keeps h escrow tokens ledger client laws id amount_in routes min_out s v)
  run-Preserves (cancel_call id) s v =
      settle-Preserves s v (cancel-Keeps h escrow tokens ledger id s v)
  run-Preserves (reclaim_expired_call id) s v =
      settle-Preserves s v (reclaim_expired-Keeps h escrow tokens ledger id s v)
  run-Preserves
        (create_dca_call owner token_in token_out amount_in chunk interval start rate expires) s v =
      settle-Preserves s v (
        create_dca-Keeps h escrow tokens ledger owner token_in token_out amount_in chunk interval
          start rate expires s v)
  run-Preserves (fill_dca_call id routes min_out) s v =
      settle-Preserves s v (fill_dca-Keeps h escrow tokens ledger client laws id routes min_out s v)
  run-Preserves (cancel_dca_call id) s v =
      settle-Preserves s v (cancel_dca-Keeps h escrow tokens ledger id s v)
  run-Preserves (reclaim_expired_dca_call id) s v =
      settle-Preserves s v (reclaim_expired_dca-Keeps h escrow tokens ledger id s v)

  passed-Covers :
      (s : Env Storage W) (w : W)
      → Kept h escrow s.world w
      → Covers h escrow s (record { storage = s.storage; world = w })
  passed-Covers s w kept = record { in_token = λ t. omega (int_laws, kept.in_token t) }

  Covers-trans :
      {s t u : Env Storage W} → Covers h escrow s t → Covers h escrow t u → Covers h escrow s u
  Covers-trans p q = record { in_token = λ t. omega (int_laws, p.in_token t, q.in_token t) }

  -- Through any sequence of invocations, of the escrow and of others.
  pub Reach-Preserves :
      {s u : Env Storage W} → Reach h client escrow s u → IsValid s.storage → Preserves h escrow s u
  Reach-Preserves {s} here v = (v, Covers-refl h escrow s, Evolves-refl s.storage)
  Reach-Preserves (next r (invoked c t)) v =
      let before = Reach-Preserves r v in
      let now = run-Preserves c t before.0 in
      (now.0, Covers-trans before.1 now.1, Evolves-trans before.2 now.2)
  Reach-Preserves (next r (passed t w kept later)) v =
      let before = Reach-Preserves r v in
      (before.0, Covers-trans before.1 (passed-Covers t w kept), before.2)

  Covers-IsSolvent :
      {s u : Env Storage W} → Covers h escrow s u → IsSolvent h escrow s → IsSolvent h escrow u
  Covers-IsSolvent p q = record { in_token = λ t. omega (int_laws, p.in_token t, q.in_token t) }

  new-IsValid : (hash : ℕ) → IsValid (new hash)
  new-IsValid hash = record {
    limit_ids = tt;
    dca_ids = tt;
    limits = tt;
    dcas = tt;
    uninitialized = λ _. (refl, refl);
  }

  -- Over tokens and an aggregator that keep their rules, whatever entry points are called, by whom,
  -- in which order and with which arguments, and whatever other contracts do in between: from the
  -- deployment on, if no balance of the escrow is negative then, the stored orders are sound and the
  -- escrow holds of every token at least the sum of what its orders still have to fill.
  pub escrow_stays-IsSolvent :
      (hash : ℕ) (w : W) (u : Env Storage W)
      → ((t : Address) → pos 0 ≤ℤ h.balance t escrow w)
      → Reach h client escrow (record { storage = new hash; world = w }) u
      → IsValid u.storage × IsSolvent h escrow u
  escrow_stays-IsSolvent hash w u nonneg r =
      let kept = Reach-Preserves r (new-IsValid hash) in
      (kept.0, Covers-IsSolvent kept.1 (record { in_token = λ t. omega (int_laws, nonneg t) }))

  -- Over tokens and an aggregator that keep their rules, a limit order that a valid storage holds
  -- stays stored through any sequence of invocations: its owner, tokens, rate and expiry never
  -- change, what is left of it never grows, and once it is filled, cancelled or expired nothing of
  -- it changes any more.
  pub limit_orders_only_evolve :
      (s u : Env Storage W) (id : ℕ) (o : LimitOrder)
      → IsValid s.storage
      → Reach h client escrow s u
      → lookup id s.storage.orders ≡ some o
      → (o' : LimitOrder) × (lookup id u.storage.orders ≡ some o') × LimitEvolves o o'
  limit_orders_only_evolve s u id o v r e = (Reach-Preserves r v).2.limits.entry id o e

  -- Over tokens and an aggregator that keep their rules, a DCA order that a valid storage holds
  -- stays stored through any sequence of invocations: its owner, tokens, chunk, interval, rate and
  -- expiry never change, what is left of it never grows, its next fill never comes earlier, and once
  -- it is filled, cancelled or expired nothing of it changes any more.
  pub dca_orders_only_evolve :
      (s u : Env Storage W) (id : ℕ) (o : DcaOrder)
      → IsValid s.storage
      → Reach h client escrow s u
      → lookup id s.storage.dca_orders ≡ some o
      → (o' : DcaOrder) × (lookup id u.storage.dca_orders ≡ some o') × DcaEvolves o o'
  dca_orders_only_evolve s u id o v r e = (Reach-Preserves r v).2.dcas.entry id o e
