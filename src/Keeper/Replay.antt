-- ===== src/Keeper/Replay.antt =====
-- crates/limit-keeper: the book after all events of the escrow, whatever has happened there.
use stellar_dex_agg.Prelude.{ℕ, refl, sym, subst, none, List, ℤ}
use stellar_dex_agg.Soroban.Action.{Env, Action, settle}
use stellar_dex_agg.Soroban.Ensures.{
  Ensures, Ensures-pure, Ensures-weaken, Ensures-self, Ensures-require, Ensures-require_auth,
  Ensures-unwrap, Ensures-load, Ensures-observe, Ensures-modify, Ensures-modified,
  Ensures-call_unit, settle-holds,
}
use stellar_dex_agg.Soroban.Host.{Address, Host}
use stellar_dex_agg.Soroban.Laws.{TokenLaws}
use stellar_dex_agg.SharedTypes.{SubRoute}
use stellar_dex_agg.Escrow.Storage.{Storage, new}
use stellar_dex_agg.Escrow.Client.{AggregatorClient, ClientLaws}
use stellar_dex_agg.Escrow.Admin.{initialize, upgrade}
use stellar_dex_agg.Escrow.Limit.{create_limit, fill, cancel, reclaim_expired}
use stellar_dex_agg.Escrow.Limit.Creation.{create_limit_checked}
use stellar_dex_agg.Escrow.Limit.Filling.{filled_by, fill-LimitFill}
use stellar_dex_agg.Escrow.Dca.{create_dca, fill_dca, cancel_dca, reclaim_expired_dca}
use stellar_dex_agg.Escrow.Dca.Filling.{filled_at, fill_dca-DcaFill}
use stellar_dex_agg.Escrow.Calls.{
  Call, initialize_call, upgrade_call, create_limit_call, fill_call, cancel_call,
  reclaim_expired_call, create_dca_call, fill_dca_call, cancel_dca_call, reclaim_expired_dca_call,
  run, invoked, passed, Reach, here, next,
}
use stellar_dex_agg.Keeper.Tracks.{
  Tracks, replay, put-limit-Tracks, put-dca-Tracks, filled_limit-shown, filled_dca-shown,
}

-- The book that the events give shows the orders that are stored.
abbrev pub Follows : Storage → Type 0
Follows st = Tracks (replay st.events) st.orders st.dca_orders

module _ {W : Type 0} (h : Host W) (escrow : Address) where
  initialize-Follows :
      (admin aggregator : Address) (s : Env Storage W)
      → Follows s.storage
      → Ensures (λ _ s'. Follows s'.storage) (initialize h admin aggregator) s
  unfolding initialize
  initialize-Follows admin aggregator s t =
      Ensures-load _ _
        (Ensures-require _ _ _ λ _. Ensures-require_auth _ _ _ λ _. Ensures-modified _ t)

  upgrade-Follows :
      (hash : ℕ) (s : Env Storage W)
      → Follows s.storage
      → Ensures (λ _ s'. Follows s'.storage) (upgrade h hash) s
  unfolding upgrade
  upgrade-Follows hash s t =
      Ensures-load _ _
        (Ensures-unwrap _ _ _ λ admin _. Ensures-require_auth _ _ _ λ _. Ensures-modified _ t)

  create_limit-Follows :
      (owner token_in token_out : Address) (x limit : ℤ) (expires : ℕ) (s : Env Storage W)
      → Follows s.storage
      → Ensures
          (λ _ s'. Follows s'.storage)
          (create_limit h escrow owner token_in token_out x limit expires)
          s
  create_limit-Follows owner token_in token_out x limit expires s t = Ensures-self λ id s' e.
      let made = create_limit_checked h escrow owner token_in token_out x limit expires s id s' e in
      subst Follows (sym made.3) (
        put-limit-Tracks (replay s.storage.events) s.storage.orders s.storage.dca_orders t id _ _
          refl)

  create_dca-Follows :
      (owner token_in token_out : Address) (x chunk : ℤ) (interval start : ℕ) (rate : ℤ)
      (expires : ℕ) (s : Env Storage W)
      → Follows s.storage
      → Ensures
          (λ _ s'. Follows s'.storage)
          (create_dca h escrow owner token_in token_out x chunk interval start rate expires)
          s
  unfolding create_dca
  create_dca-Follows owner token_in token_out x chunk interval start rate expires s t =
      Ensures-require_auth _ _ _ λ _. Ensures-observe _ _ (
        Ensures-require _ _ _ λ _. Ensures-require _ _ _ λ _. Ensures-require _ _ _ λ _.
          Ensures-require _ _ _ λ _. Ensures-require _ _ _ λ _. Ensures-require _ _ _ λ _.
            Ensures-require _ _ _ λ _. Ensures-require _ _ _ λ _. Ensures-load _ _ (
              Ensures-unwrap _ _ _ λ id _. Ensures-call_unit _ _ λ w p. Ensures-modify _ _ (
                Ensures-unwrap _ _ _ λ following _. Ensures-modify _ _ (
                  Ensures-modify _ _ (
                    Ensures-pure _ (
                      put-dca-Tracks (replay s.storage.events) s.storage.orders s.storage.dca_orders
                        t id _ _ refl))))))

  cancel-Follows :
      (id : ℕ) (s : Env Storage W)
      → Follows s.storage
      → Ensures (λ _ s'. Follows s'.storage) (cancel h escrow id) s
  unfolding cancel
  cancel-Follows id s t = Ensures-load _ _ (
      Ensures-unwrap _ _ _ λ order e. Ensures-require_auth _ _ _ λ _. Ensures-require _ _ _ λ _.
        Ensures-call_unit _ _ λ w p. Ensures-modify _ _ (
          Ensures-modified _ (
            put-limit-Tracks (replay s.storage.events) s.storage.orders s.storage.dca_orders t id _
              none refl)))

  reclaim_expired-Follows :
      (id : ℕ) (s : Env Storage W)
      → Follows s.storage
      → Ensures (λ _ s'. Follows s'.storage) (reclaim_expired h escrow id) s
  unfolding reclaim_expired
  reclaim_expired-Follows id s t = Ensures-load _ _ (
      Ensures-unwrap _ _ _ λ order e. Ensures-require _ _ _ λ _. Ensures-observe _ _ (
        Ensures-require _ _ _ λ _. Ensures-call_unit _ _ λ w p. Ensures-modify _ _ (
          Ensures-modified _ (
            put-limit-Tracks (replay s.storage.events) s.storage.orders s.storage.dca_orders t id _
              none refl))))

  cancel_dca-Follows :
      (id : ℕ) (s : Env Storage W)
      → Follows s.storage
      → Ensures (λ _ s'. Follows s'.storage) (cancel_dca h escrow id) s
  unfolding cancel_dca
  cancel_dca-Follows id s t = Ensures-load _ _ (
      Ensures-unwrap _ _ _ λ order e. Ensures-require_auth _ _ _ λ _. Ensures-require _ _ _ λ _.
        Ensures-call_unit _ _ λ w p. Ensures-modify _ _ (
          Ensures-modified _ (
            put-dca-Tracks (replay s.storage.events) s.storage.orders s.storage.dca_orders t id _
              none refl)))

  reclaim_expired_dca-Follows :
      (id : ℕ) (s : Env Storage W)
      → Follows s.storage
      → Ensures (λ _ s'. Follows s'.storage) (reclaim_expired_dca h escrow id) s
  unfolding reclaim_expired_dca
  reclaim_expired_dca-Follows id s t = Ensures-load _ _ (
      Ensures-unwrap _ _ _ λ order e. Ensures-require _ _ _ λ _. Ensures-observe _ _ (
        Ensures-require _ _ _ λ _. Ensures-call_unit _ _ λ w p. Ensures-modify _ _ (
          Ensures-modified _ (
            put-dca-Tracks (replay s.storage.events) s.storage.orders s.storage.dca_orders t id _
              none refl))))

module _ {W : Type 0} (h : Host W) (client : AggregatorClient W) (escrow : Address)
    (tokens : TokenLaws h) (laws : ClientLaws h client escrow) where
  fill-Follows :
      (id : ℕ) (x : ℤ) (routes : List SubRoute) (min_out : ℤ) (s : Env Storage W)
      → Follows s.storage
      → Ensures (λ _ s'. Follows s'.storage) (fill h client escrow id x routes min_out) s
  fill-Follows id x routes min_out s t =
      Ensures-weaken (fill-LimitFill h escrow client tokens laws id x routes min_out s) λ out s' f.
        let book = replay s.storage.events in
        subst Follows (sym f.stored) (
          put-limit-Tracks book s.storage.orders s.storage.dca_orders t id (filled_by f.order x) _ (
            filled_limit-shown book s.storage.orders s.storage.dca_orders t id f.order x f.found
              f.was_open))

  fill_dca-Follows :
      (id : ℕ) (routes : List SubRoute) (min_out : ℤ) (s : Env Storage W)
      → Follows s.storage
      → Ensures (λ _ s'. Follows s'.storage) (fill_dca h client escrow id routes min_out) s
  fill_dca-Follows id routes min_out s t =
      Ensures-weaken (fill_dca-DcaFill h escrow client tokens laws id routes min_out s) λ out s' f.
        let book = replay s.storage.events in
        let now = h.sequence s.world in
        subst Follows (sym f.stored) (
          put-dca-Tracks book s.storage.orders s.storage.dca_orders t id (filled_at f.order now) _ (
            filled_dca-shown book s.storage.orders s.storage.dca_orders t id f.order now f.found
              f.was_open))

  settled :
      {E A : Type 0} {m : Action (Env Storage W) E A} (s : Env Storage W)
      → Follows s.storage
      → Ensures (λ _ s'. Follows s'.storage) m s
      → Follows (settle m s).storage
  settled s t kept = settle-holds {P = λ (z : Env Storage W). Follows z.storage} t kept

  run-Follows :
      (c : Call) (s : Env Storage W) → Follows s.storage → Follows (run h client escrow c s).storage
  unfolding run
  run-Follows (initialize_call admin aggregator) s t =
      settled s t (initialize-Follows h escrow admin aggregator s t)
  run-Follows (upgrade_call hash) s t = settled s t (upgrade-Follows h escrow hash s t)
  run-Follows (create_limit_call owner token_in token_out x limit expires) s t =
      settled s t (create_limit-Follows h escrow owner token_in token_out x limit expires s t)
  run-Follows (fill_call id x routes min_out) s t =
      settled s t (fill-Follows id x routes min_out s t)
  run-Follows (cancel_call id) s t = settled s t (cancel-Follows h escrow id s t)
  run-Follows (reclaim_expired_call id) s t = settled s t (reclaim_expired-Follows h escrow id s t)
  run-Follows (create_dca_call owner token_in token_out x chunk interval start rate expires) s t =
      settled s t (
        create_dca-Follows h escrow owner token_in token_out x chunk interval start rate expires s
          t)
  run-Follows (fill_dca_call id routes min_out) s t =
      settled s t (fill_dca-Follows id routes min_out s t)
  run-Follows (cancel_dca_call id) s t = settled s t (cancel_dca-Follows h escrow id s t)
  run-Follows (reclaim_expired_dca_call id) s t =
      settled s t (reclaim_expired_dca-Follows h escrow id s t)

  -- Over tokens and an aggregator that keep their rules, a keeper that starts with an empty book and
  -- applies every event that the escrow has published, in order, has in its book exactly the open
  -- orders of the escrow, each with the owner, the tokens, the amount left, the rate, the expiry and
  -- the next ledger that are stored, after any invocations of the escrow and any transactions
  -- between them.
  pub book_follows_escrow :
      (hash : ℕ) (w : W) {u : Env Storage W}
      → Reach h client escrow (record { storage = new hash; world = w }) u
      → Tracks (replay u.storage.events) u.storage.orders u.storage.dca_orders
  book_follows_escrow hash w here = record { limits = λ id. refl; dcas = λ id. refl }
  book_follows_escrow hash w (next r (invoked c t)) = run-Follows c t (book_follows_escrow hash w r)
  book_follows_escrow hash w (next r (passed t w' kept later)) = book_follows_escrow hash w r
