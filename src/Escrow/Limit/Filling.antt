-- ===== src/Escrow/Limit/Filling.antt =====
-- contracts/order-escrow/src/lib.rs, `fill`: what a fill that succeeds has checked and done.
use stellar_dex_agg.Prelude.{
  ℕ, ◌<◌, ◌≡◌, ◌∙◌, refl, sym, ap, true, some, ◌∷◌, List, checked_sub, lookup, insert, ℤ, pos, ◌+ℤ◌,
  ◌-ℤ◌, ◌≤ℤ◌, ◌<ℤ◌, ◌==ℤ◌, if◌then◌else◌, int_laws, eq_of_parts, ltb→lt, leb→le, ==→eq,
  checked-eq_some, +ℤ_assoc, zero_+ℤ,
}
use stellar_dex_agg.Soroban.Action.{Env, ok}
use stellar_dex_agg.Soroban.Ensures.{
  Ensures, Ensures-pure, Ensures-weaken, Ensures-bind_reads, Ensures-require, Ensures-unwrap,
  Ensures-expect, Ensures-load, Ensures-observe, Ensures-modify, Ensures-effect, Ensures-call,
  Ensures-call_unit,
}
use stellar_dex_agg.Soroban.Host.{Address, SubInvocation, Host}
use stellar_dex_agg.Soroban.Laws.{TokenLaws, Traded, authorize-Traded}
use stellar_dex_agg.SharedTypes.{SubRoute}
use stellar_dex_agg.Aggregator.Routes.{total_amount}
use stellar_dex_agg.Escrow.Storage.{is_open, filled, LimitOrder, Event, Storage}
use stellar_dex_agg.Escrow.Client.{AggregatorClient, ClientLaws}
use stellar_dex_agg.Escrow.Limit.{required_min_out, sum_routes, fill}

pub sum_routes-total :
    {S : Type 0} (acc : ℤ) (routes : List SubRoute) (s : S)
    → Ensures (λ sum s'. (sum ≡ acc +ℤ total_amount routes) × (s' ≡ s)) (sum_routes acc routes) s
unfolding sum_routes
sum_routes-total acc List.[] s = Ensures-pure _ (omega int_laws, refl)
sum_routes-total acc (sr ∷ rest) s = Ensures-unwrap _ _ _ λ sum e.
    Ensures-weaken (sum_routes-total sum rest s) λ total s' q.
      (q.0 ∙ ap (λ x. x +ℤ total_amount rest) (checked-eq_some _ _ e) ∙ +ℤ_assoc _ _ _, q.1)

pub routed_total :
    (x : ℤ) (routes : List SubRoute) (sum : ℤ)
    → sum ≡ pos 0 +ℤ total_amount routes
    → (sum ==ℤ x) ≡ true
    → total_amount routes ≡ x
routed_total x routes sum total routed =
    sym (zero_+ℤ (total_amount routes)) ∙ sym total ∙ eq_of_parts sum x (==→eq _ _ routed)

-- The order after a fill.
abbrev pub filled_by : LimitOrder → ℤ → LimitOrder
filled_by order x =
    let left = order.amount_in_remaining -ℤ x in
    record order {
      amount_in_remaining = left;
      status = if left ==ℤ pos 0 then filled else order.status;
    }

module _ {W : Type 0} (h : Host W) (escrow : Address) where
  pub record LimitFill (id : ℕ) (x : ℤ) (routes : List SubRoute) (min_out out : ℤ)
      (s s' : Env Storage W) : Type 0 where
    pub order : LimitOrder
    pub found : lookup id s.storage.orders ≡ some order
    pub was_open : is_open order.status ≡ true
    pub in_time : h.sequence s.world < order.expires_ledger
    pub positive : pos 0 <ℤ x
    pub within : x ≤ℤ order.amount_in_remaining
    pub routed : total_amount routes ≡ x
    pub priced : required_min_out x order.limit_out_per_in_e7 ≤ℤ min_out
    pub minimum : min_out ≤ℤ out
    pub gain : pos 0 <ℤ out
    -- the world after the swap and before the payment
    pub swapped : W
    pub traded : Traded h escrow order.token_in order.token_out x out s.world swapped
    pub payment : h.transfer order.token_out escrow order.owner out swapped ≡ some s'.world
    pub stored : s'.storage ≡ record s.storage {
      orders = insert id (filled_by order x) s.storage.orders;
      events =
          Event.order_filled id order.owner x out (order.amount_in_remaining -ℤ x)
          ∷ s.storage.events;
    }

  module _ (client : AggregatorClient W) (tokens : TokenLaws h)
      (laws : ClientLaws h client escrow) where
    -- The record of a fill, from what the entry point has tested and called.
    filling :
        (id : ℕ) (x : ℤ) (routes : List SubRoute) (min_out out : ℤ) (s : Env Storage W)
        (order : LimitOrder)
        → lookup id s.storage.orders ≡ some order
        → is_open order.status ≡ true
        → h.sequence s.world < order.expires_ledger
        → pos 0 <ℤ x
        → x ≤ℤ order.amount_in_remaining
        → total_amount routes ≡ x
        → required_min_out x order.limit_out_per_in_e7 ≤ℤ min_out
        → (aggregator : Address) (w : W)
        → client.swap_restricted aggregator escrow order.token_in order.token_out routes min_out (
            h.authorize_as_current_contract
              (SubInvocation.transfer order.token_in escrow aggregator x)
              s.world)
          ≡ some (out, w)
        → (w' : W) → h.transfer order.token_out escrow order.owner out w ≡ some w'
        → (left : ℤ) → checked_sub order.amount_in_remaining x ≡ some left
        → LimitFill id x routes min_out out s (record {
          storage = record s.storage {
            orders =
                insert id
                  (record order {
                    amount_in_remaining = left;
                    status = if left ==ℤ pos 0 then filled else order.status;
                  })
                  s.storage.orders;
            events = Event.order_filled id order.owner x out left ∷ s.storage.events;
          };
          world = w';
        })
    filling id x routes min_out out s order e was_open in_time positive within routed priced
          aggregator w c w' p left l =
        let swap =
          laws.swap_traded aggregator order.token_in order.token_out routes min_out out _ w c in
        record {
          order = order;
          found = e;
          was_open = was_open;
          in_time = in_time;
          positive = positive;
          within = within;
          routed = routed;
          priced = priced;
          minimum = swap.0;
          gain = swap.1;
          swapped = w;
          traded = authorize-Traded h tokens _ _ _ _ _ _ _ s.world routed swap.2;
          payment = p;
          stored = rw (checked-eq_some _ _ l) refl;
        }

    pub fill-LimitFill :
        (id : ℕ) (x : ℤ) (routes : List SubRoute) (min_out : ℤ) (s : Env Storage W)
        → Ensures
            (λ out s'. LimitFill id x routes min_out out s s')
            (fill h client escrow id x routes min_out)
            s
    unfolding fill
    fill-LimitFill id x routes min_out s = Ensures-load _ _ (
        Ensures-unwrap _ _ _ λ order e. Ensures-require _ _ _ λ was_open. Ensures-observe _ _ (
          Ensures-require _ _ _ λ in_time. Ensures-require _ _ _ λ positive.
            Ensures-require _ _ _ λ within.
              Ensures-bind_reads _ _ (sum_routes-total (pos 0) routes s) λ sum total.
                Ensures-require _ _ _ λ routed. Ensures-require _ _ _ λ priced. Ensures-load _ _ (
                  Ensures-unwrap _ _ _ λ aggregator _. Ensures-effect _ _ (
                    Ensures-call _ _ λ out w c. Ensures-call_unit _ _ λ w' p.
                      Ensures-expect _ _ λ left l. Ensures-modify _ _ (
                        Ensures-modify _ _ (
                          Ensures-pure _ (
                            filling id x routes min_out out s order e was_open (ltb→lt _ _ in_time)
                              (ltb→lt _ _ positive) (leb→le _ _ within)
                              (routed_total x routes sum total routed) (leb→le _ _ priced)
                              aggregator w c w' p left l)))))))

    -- Over tokens and an aggregator that keep their rules, a fill that succeeds is of an open order
    -- before its expiry, for a positive amount that it still has and that the routes add up to, with
    -- a minimum not below the order's rate. The escrow has given at most that amount for at least
    -- the minimum, the owner is paid all of the output, and of the storage only the order changes,
    -- which is filled once nothing is left, and an event is added.
    pub fill_checked :
        (id : ℕ) (x : ℤ) (routes : List SubRoute) (min_out out : ℤ) (s s' : Env Storage W)
        → fill h client escrow id x routes min_out s ≡ ok (out, s')
        → LimitFill id x routes min_out out s s'
    fill_checked id x routes min_out out s s' =
        (fill-LimitFill id x routes min_out s).on_success out s'
