-- ===== src/Escrow/Limit/Acceptance.antt =====
-- contracts/order-escrow/src/lib.rs, `fill`: when a fill goes through.
use stellar_dex_agg.Prelude.{
  ℕ, ◌<◌, ◌≡◌, ◌∙◌, ap, arith, int_laws, true, some, All, List, [], ◌∷◌, lookup, insert, ℤ, pos,
  ◌+ℤ◌, ◌-ℤ◌, ◌≤ℤ◌, ◌<ℤ◌, i128_max, checked_sub, checked_nonneg, lt→ltb, le→leb, +ℤ_assoc, zero_+ℤ,
}
use stellar_dex_agg.Soroban.Action.{Env, ok, ◌>>=◌}
use stellar_dex_agg.Soroban.Host.{Address, SubInvocation, Host}
use stellar_dex_agg.SharedTypes.{SubRoute}
use stellar_dex_agg.Aggregator.Routes.{total_amount, IsPositive}
use stellar_dex_agg.Escrow.Storage.{is_open, LimitOrder, Event, Storage}
use stellar_dex_agg.Escrow.Client.{AggregatorClient}
use stellar_dex_agg.Escrow.Limit.{required_min_out, sum_routes, fill}
use stellar_dex_agg.Escrow.Limit.Filling.{filled_by}

total_amount-nonneg :
    (routes : List SubRoute) → All IsPositive routes → pos 0 ≤ℤ total_amount routes
total_amount-nonneg [] h = omega arith
total_amount-nonneg (sr ∷ rest) (h, hs) = omega (int_laws, total_amount-nonneg rest hs)

sum_routes-ok :
    {S : Type 0} (acc : ℤ) (routes : List SubRoute) (s : S)
    → All IsPositive routes
    → pos 0 ≤ℤ acc
    → acc +ℤ total_amount routes ≤ℤ i128_max
    → sum_routes acc routes s ≡ ok (acc +ℤ total_amount routes, s)
unfolding sum_routes ◌>>=◌
sum_routes-ok acc [] s h n m = ap (λ x. ok (x, s)) (omega int_laws)
sum_routes-ok acc (sr ∷ rest) s (h, hs) n m =
    let nn = total_amount-nonneg rest hs in
    let fits : acc +ℤ sr.amount_in ≤ℤ i128_max = omega int_laws in
    let lower : pos 0 ≤ℤ acc +ℤ sr.amount_in = omega int_laws in
    rw (checked_nonneg _ lower fits) (
      sum_routes-ok (acc +ℤ sr.amount_in) rest s hs lower (omega int_laws)
      ∙ ap (λ x. ok (x, s)) (+ℤ_assoc _ _ _))

module _ {W : Type 0} (h : Host W) (client : AggregatorClient W) (escrow : Address) where
  -- A fill goes through: of an open order before its expiry, for a positive amount that it still has
  -- and that positive routes add up to, with a minimum that is at least the order's, if the contract
  -- knows its aggregator, the swap there succeeds and its output can be paid to the owner. It returns
  -- that output.
  pub fill_accepts :
      (id : ℕ) (o : LimitOrder) (routes : List SubRoute) (min_out out : ℤ) (aggregator : Address)
      (s : Env Storage W) (w w' : W)
      → lookup id s.storage.orders ≡ some o
      → is_open o.status ≡ true
      → h.sequence s.world < o.expires_ledger
      → All IsPositive routes
      → pos 0 <ℤ total_amount routes
      → total_amount routes ≤ℤ o.amount_in_remaining
      → o.amount_in_remaining ≤ℤ i128_max
      → required_min_out (total_amount routes) o.limit_out_per_in_e7 ≤ℤ min_out
      → s.storage.aggregator ≡ some aggregator
      → client.swap_restricted aggregator escrow o.token_in o.token_out routes min_out (
          h.authorize_as_current_contract
            (SubInvocation.transfer o.token_in escrow aggregator (total_amount routes))
            s.world)
        ≡ some (out, w)
      → h.transfer o.token_out escrow o.owner out w ≡ some w'
      → fill h client escrow id (total_amount routes) routes min_out s
        ≡ ok (
          out,
          record {
            storage = record s.storage {
              orders = insert id (filled_by o (total_amount routes)) s.storage.orders;
              events =
                  Event.order_filled id o.owner
                    (total_amount routes)
                    out
                    (o.amount_in_remaining -ℤ total_amount routes)
                  ∷ s.storage.events;
            };
            world = w';
          },
        )
  unfolding fill ◌>>=◌
  fill_accepts id o routes min_out out aggregator s w w' e was_open in_time routed positive within
        small priced known swapped paid =
      let sum : sum_routes (pos 0) routes s ≡ ok (total_amount routes, s) =
        sum_routes-ok (pos 0) routes s routed (omega arith) (omega int_laws)
        ∙ ap (λ x. ok (x, s)) (zero_+ℤ _) in
      let left : checked_sub o.amount_in_remaining (total_amount routes)
          ≡ some (o.amount_in_remaining -ℤ total_amount routes) =
        checked_nonneg _ (omega int_laws) (omega int_laws) in
      ground (
        arith,
        e,
        was_open,
        lt→ltb _ _ in_time,
        lt→ltb _ _ positive,
        le→leb _ _ within,
        sum,
        le→leb _ _ priced,
        known,
        swapped,
        paid,
        left,
      )
