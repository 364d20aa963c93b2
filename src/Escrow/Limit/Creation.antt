-- ===== src/Escrow/Limit/Creation.antt =====
-- contracts/order-escrow/src/lib.rs, `create_limit`: which orders are taken, and what is stored.
use stellar_dex_agg.Prelude.{
  ℕ, ◌+◌, ◌≤◌, ◌<◌, ◌≡◌, ◌≢◌, refl, true, not, arith, some, ◌∷◌, insert, ℤ, pos, ◌<ℤ◌, u64_max,
  ◌==◌, lt→ltb, ltb→lt, le→leb, leb→le, ==_ne, saturating_add_u32,
}
use stellar_dex_agg.Soroban.Action.{Env, ok, ◌>>=◌}
use stellar_dex_agg.Soroban.Ensures.{
  Ensures, Ensures-pure, Ensures-require, Ensures-require_auth, Ensures-unwrap, Ensures-load,
  Ensures-observe, Ensures-modify, Ensures-call_unit,
}
use stellar_dex_agg.Soroban.Host.{Address, Host, require_auth}
use stellar_dex_agg.Escrow.Storage.{max_order_lifetime, open_order, LimitOrder, Event, Storage}
use stellar_dex_agg.Escrow.Limit.{next_id_lem, create_limit}

-- The order that is stored for the arguments.
abbrev pub new_limit :
    (owner token_in token_out : Address) (amount_in limit : ℤ) (expires : ℕ) → LimitOrder
new_limit owner token_in token_out amount_in limit expires = record {
  owner = owner;
  token_in = token_in;
  token_out = token_out;
  amount_in_remaining = amount_in;
  limit_out_per_in_e7 = limit;
  expires_ledger = expires;
  status = open_order;
}

-- The storage with one more order, under the number.
abbrev pub with_limit : ℕ → LimitOrder → Storage → Storage
with_limit id o st = record st {
  next_order_id = some (id + 1);
  orders = insert id o st.orders;
  events =
      Event.order_created id o.owner o.token_in o.token_out o.amount_in_remaining
        o.limit_out_per_in_e7 o.expires_ledger
      ∷ st.events;
}

module _ {W : Type 0} (h : Host W) (escrow owner token_in token_out : Address) (amount_in limit : ℤ)
    (expires : ℕ) (s : Env Storage W) where
  -- What the arguments have to satisfy at a ledger.
  pub record IsAcceptable : Type 0 where
    pub authorized : h.has_auth owner s.world ≡ true
    pub positive : pos 0 <ℤ amount_in
    pub priced : pos 0 <ℤ limit
    pub different : token_in ≢ token_out
    pub in_time : h.sequence s.world < expires
    pub not_too_far : expires ≤ saturating_add_u32 (h.sequence s.world) max_order_lifetime

  create_limit-IsAcceptable :
      Ensures
        (λ id s'.
          IsAcceptable
          × (s.storage.next_order_id ≡ some id)
          × (h.transfer token_in owner escrow amount_in s.world ≡ some s'.world)
          × (s'.storage
              ≡ with_limit id
                  (new_limit owner token_in token_out amount_in limit expires)
                  s.storage))
        (create_limit h escrow owner token_in token_out amount_in limit expires)
        s
  unfolding create_limit
  create_limit-IsAcceptable = Ensures-require_auth _ _ _ λ auth. Ensures-require _ _ _ λ positive.
      Ensures-require _ _ _ λ priced. Ensures-require _ _ _ λ different. Ensures-observe _ _ (
        Ensures-require _ _ _ λ in_time. Ensures-require _ _ _ λ near. Ensures-load _ _ (
          Ensures-unwrap _ _ _ λ id e. Ensures-call_unit _ _ λ w p. Ensures-modify _ _ (
            Ensures-unwrap _ _ _ λ next e'. Ensures-modify _ _ (
              Ensures-modify _ _ (
                Ensures-pure _ (
                  record {
                    authorized = auth;
                    positive = ltb→lt _ _ positive;
                    priced = ltb→lt _ _ priced;
                    different = apart token_in token_out different;
                    in_time = ltb→lt _ _ in_time;
                    not_too_far = leb→le _ _ near;
                  },
                  e,
                  p,
                  rw (next_id_lem id next e') refl,
                ))))))
    where
      apart : (a b : Address) → not (a == b) ≡ true → a ≢ b
      apart a b e = ground arith

  -- A limit order that is created had its owner's authorization, a positive amount and rate, two
  -- different tokens and an expiry behind the current ledger but not more than thirty days behind it;
  -- it gets the next number, its amount has gone from the owner to the escrow, and the only changes
  -- of the storage are the order, the counter and the event.
  pub create_limit_checked :
      (id : ℕ) (s' : Env Storage W)
      → create_limit h escrow owner token_in token_out amount_in limit expires s ≡ ok (id, s')
      → IsAcceptable
        × (s.storage.next_order_id ≡ some id)
        × (h.transfer token_in owner escrow amount_in s.world ≡ some s'.world)
        × (s'.storage
            ≡ with_limit id (new_limit owner token_in token_out amount_in limit expires) s.storage)
  create_limit_checked id s' e = create_limit-IsAcceptable.on_success id s' e

  -- The other direction: an acceptable order is created, if the contract is initialized, the deposit
  -- goes through and there is a number left.
  pub create_limit_accepts :
      (id : ℕ) (w : W)
      → IsAcceptable
      → s.storage.next_order_id ≡ some id
      → id < u64_max
      → h.transfer token_in owner escrow amount_in s.world ≡ some w
      → create_limit h escrow owner token_in token_out amount_in limit expires s
        ≡ ok (
          id,
          record {
            storage =
                with_limit id
                  (new_limit owner token_in token_out amount_in limit expires)
                  s.storage;
            world = w;
          },
        )
  unfolding create_limit require_auth ◌>>=◌
  create_limit_accepts id w a e room p = ground (
    arith,
    a.authorized,
    lt→ltb _ _ a.positive,
    lt→ltb _ _ a.priced,
    ==_ne _ _ a.different,
    lt→ltb _ _ a.in_time,
    le→leb _ _ a.not_too_far,
    e,
    lt→ltb _ _ room,
    p,
  )
