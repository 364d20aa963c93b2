-- ===== src/Escrow/Dca/Filling.antt =====
-- contracts/order-escrow/src/lib.rs, `fill_dca`: what a chunk that succeeds has checked and done.
use stellar_dex_agg.Prelude.{
  ℕ, ◌<◌, ◌≤◌, saturating_add_u32, ◌≡◌, refl, true, some, ◌∷◌, List, checked_sub, lookup, insert, ℤ,
  pos, ◌-ℤ◌, ◌≤ℤ◌, ◌<ℤ◌, ◌==ℤ◌, if◌then◌else◌, ltb→lt, leb→le, checked-eq_some,
}
use stellar_dex_agg.Soroban.Action.{Env, ok}
use stellar_dex_agg.Soroban.Ensures.{
  Ensures, Ensures-pure, Ensures-bind_reads, Ensures-require, Ensures-unwrap, Ensures-expect,
  Ensures-load, Ensures-observe, Ensures-modify, Ensures-effect, Ensures-call, Ensures-call_unit,
}
use stellar_dex_agg.Soroban.Host.{Address, SubInvocation, Host}
use stellar_dex_agg.Soroban.Laws.{TokenLaws, Traded, authorize-Traded}
use stellar_dex_agg.SharedTypes.{SubRoute}
use stellar_dex_agg.Aggregator.Routes.{total_amount}
use stellar_dex_agg.Escrow.Storage.{is_open, filled, DcaOrder, Event, Storage}
use stellar_dex_agg.Escrow.Client.{AggregatorClient, ClientLaws}
use stellar_dex_agg.Escrow.Limit.Filling.{sum_routes-total, routed_total}
use stellar_dex_agg.Escrow.Dca.{chunk_of, minimum_is_met, fill_dca}

-- The order after a fill of the next chunk at a ledger.
abbrev pub filled_at : DcaOrder → ℕ → DcaOrder
filled_at order current =
    let left = order.amount_in_remaining -ℤ chunk_of order in
    let done = left ==ℤ pos 0 in
    record order {
      amount_in_remaining = left;
      status = if done then filled else order.status;
      next_executable_ledger =
          if done
          then order.next_executable_ledger
          else saturating_add_u32 current order.interval_ledgers;
    }

module _ {W : Type 0} (h : Host W) (escrow : Address) where
  pub record DcaFill (id : ℕ) (routes : List SubRoute) (min_out out : ℤ) (s s' : Env Storage W)
      : Type 0 where
    pub order : DcaOrder
    pub found : lookup id s.storage.dca_orders ≡ some order
    pub was_open : is_open order.status ≡ true
    pub in_time : h.sequence s.world < order.expires_ledger
    pub due : order.next_executable_ledger ≤ h.sequence s.world
    pub routed : total_amount routes ≡ chunk_of order
    pub met : minimum_is_met order (chunk_of order) min_out ≡ true
    pub minimum : min_out ≤ℤ out
    pub gain : pos 0 <ℤ out
    -- the world after the swap and before the payment
    pub swapped : W
    pub traded : Traded h escrow order.token_in order.token_out (chunk_of order) out s.world swapped
    pub payment : h.transfer order.token_out escrow order.owner out swapped ≡ some s'.world
    pub stored : s'.storage ≡ record s.storage {
      dca_orders = insert id (filled_at order (h.sequence s.world)) s.storage.dca_orders;
      events =
          Event.dca_filled id order.owner
            (chunk_of order)
            out
            (order.amount_in_remaining -ℤ chunk_of order)
            (filled_at order (h.sequence s.world)).next_executable_ledger
          ∷ s.storage.events;
    }

  module _ (client : AggregatorClient W) (tokens : TokenLaws h)
      (laws : ClientLaws h client escrow) where
    -- The record of a fill, from what the entry point has tested and called.
    filling :
        (id : ℕ) (routes : List SubRoute) (min_out out : ℤ) (s : Env Storage W) (order : DcaOrder)
        → lookup id s.storage.dca_orders ≡ some order
        → is_open order.status ≡ true
        → h.sequence s.world < order.expires_ledger
        → order.next_executable_ledger ≤ h.sequence s.world
        → total_amount routes ≡ chunk_of order
        → minimum_is_met order (chunk_of order) min_out ≡ true
        → (aggregator : Address) (w : W)
        → client.swap_restricted aggregator escrow order.token_in order.token_out routes min_out (
            h.authorize_as_current_contract
              (SubInvocation.transfer order.token_in escrow aggregator (chunk_of order))
              s.world)
          ≡ some (out, w)
        → (w' : W) → h.transfer order.token_out escrow order.owner out w ≡ some w'
        → (left : ℤ) → checked_sub order.amount_in_remaining (chunk_of order) ≡ some left
        → let next =
            if left ==ℤ pos 0
            then order.next_executable_ledger
            else saturating_add_u32 (h.sequence s.world) order.interval_ledgers in
          DcaFill id routes min_out out s (record {
            storage = record s.storage {
              dca_orders =
                  insert id
                    (record order {
                      amount_in_remaining = left;
                      status = if left ==ℤ pos 0 then filled else order.status;
                      next_executable_ledger = next;
                    })
                    s.storage.dca_orders;
              events =
                  Event.dca_filled id order.owner (chunk_of order) out left next ∷ s.storage.events;
            };
            world = w';
          })
    filling id routes min_out out s order e was_open in_time due routed met aggregator w c w' p left
          l =
        let swap =
          laws.swap_traded aggregator order.token_in order.token_out routes min_out out _ w c in
        record {
          order = order;
          found = e;
          was_open = was_open;
          in_time = in_time;
          due = due;
          routed = routed;
          met = met;
          minimum = swap.0;
          gain = swap.1;
          swapped = w;
          traded = authorize-Traded h tokens _ _ _ _ _ _ _ s.world routed swap.2;
          payment = p;
          stored = rw (checked-eq_some _ _ l) refl;
        }

    pub fill_dca-DcaFill :
        (id : ℕ) (routes : List SubRoute) (min_out : ℤ) (s : Env Storage W)
        → Ensures
            (λ out s'. DcaFill id routes min_out out s s')
            (fill_dca h client escrow id routes min_out)
            s
    unfolding fill_dca
    fill_dca-DcaFill id routes min_out s = Ensures-load _ _ (
        Ensures-unwrap _ _ _ λ order e. Ensures-observe _ _ (
          Ensures-require _ _ _ λ was_open. Ensures-require _ _ _ λ in_time.
            Ensures-require _ _ _ λ due.
              Ensures-bind_reads _ _ (sum_routes-total (pos 0) routes s) λ sum total.
                Ensures-require _ _ _ λ routed. Ensures-require _ _ _ λ met. Ensures-load _ _ (
                  Ensures-unwrap _ _ _ λ aggregator _. Ensures-effect _ _ (
                    Ensures-call _ _ λ out w c. Ensures-call_unit _ _ λ w' p.
                      Ensures-expect _ _ λ left l. Ensures-modify _ _ (
                        Ensures-modify _ _ (
                          Ensures-pure _ (
                            filling id routes min_out out s order e was_open (ltb→lt _ _ in_time)
                              (leb→le _ _ due)
                              (routed_total (chunk_of order) routes sum total routed) met aggregator
                              w c w' p left l)))))))

    -- Over tokens and an aggregator that keep their rules, a fill of a DCA order that succeeds is of
    -- an open order before its expiry that is due, for exactly its next chunk, which the routes add
    -- up to, with a minimum that meets its rate, or is positive if it has none. The escrow has given
    -- at most the chunk for at least the minimum, the owner is paid all of the output, and of the
    -- storage only the order changes, which is filled once nothing is left and due again an interval
    -- later otherwise, and an event is added.
    pub fill_dca_checked :
        (id : ℕ) (routes : List SubRoute) (min_out out : ℤ) (s s' : Env Storage W)
        → fill_dca h client escrow id routes min_out s ≡ ok (out, s')
        → DcaFill id routes min_out out s s'
    fill_dca_checked id routes min_out out s s' =
        (fill_dca-DcaFill id routes min_out s).on_success out s'
