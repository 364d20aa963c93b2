-- ===== src/Router/Split/Conserves.antt =====
-- A split spends the whole amount and is no worse than the best path.
use stellar_dex_agg.Prelude.{
  ℕ, ◌+◌, ◌-◌, ◌*◌, ◌/◌, ◌≤◌, false, not, ◌&&◌, ltb, leb, ◌==◌, Option, none, some, List, [], ◌∷◌,
  ◌≡◌, refl, sym, ap, ◌∙◌, inl, inr, arith, length, All, All-map, List-cases, u128_max,
}
use stellar_dex_agg.Prelude.Partial.{
  u128_mul, u128_sub, u128_div, Gives, Gives-bind, Gives-if, Gives-some,
}
use native.Mathlib.Nat.{mul-le-mul_left, le_trans}
use stellar_dex_agg.Router.Split.Best.{sort-best, sort-nil}
use stellar_dex_agg.Router.Split.{
  SplitOptimizer, QuotedPath, SubOrder, OptimalRoute, Leg, apply_slippage,
  apply_split_minimum_slippage, sum_out, build_sub_orders, single_route, sort_by_out, as_u32,
}
use stellar_dex_agg.Router.Split.Allocate.{optimize_n_paths}
use stellar_dex_agg.Router.Split.Dust.{filter_dust_split_legs}
use stellar_dex_agg.Router.Split.Optimize.{
  split_route, try_split, optimize_sorted, optimize, competitive_enough, splits_allowed,
}
use stellar_dex_agg.Router.Split.Legs.{
  SplitLaws, sum_in, IsHonest, IsSplit, optimize_n-IsSplit, filter_dust-IsSplit,
}

abbrev pub amounts_in : List SubOrder → ℕ
amounts_in [] = 0
amounts_in (o ∷ os) = o.amount_in + amounts_in os

abbrev pub amounts_out : List SubOrder → ℕ
amounts_out [] = 0
amounts_out (o ∷ os) = o.expected_amount_out + amounts_out os

legs_out : List Leg → ℕ
legs_out [] = 0
legs_out ((_, out) ∷ legs) = out + legs_out legs

sum_out-legs_out : (legs : List Leg) → Gives (λ s. s ≡ legs_out legs) (sum_out legs)
unfolding sum_out legs_out
sum_out-legs_out [] = Gives-some 0 refl
sum_out-legs_out ((a, out) ∷ legs) = Gives-bind (sum_out legs) _ (λ rest e.
    Gives-if (leb (out + rest) u128_max) _ _
      (λ _. Gives-some _ (ap (λ r. out + r) ((sum_out-legs_out legs).on_some rest e)))
      (λ _. record { on_some = λ r e. cc }))

-- Sub-orders that are made of the legs spend what these spend, and expect what these put out.
record AreOf (legs : List Leg) (orders : List SubOrder) : Type 0 where
  spend : amounts_in orders ≡ sum_in legs
  expect : amounts_out orders ≡ legs_out legs

skip-AreOf :
    (amount out : ℕ) (legs : List Leg) (orders : List SubOrder)
    → ltb 0 amount ≡ false
    → (amount ≡ 0 → out ≡ 0)
    → AreOf legs orders
    → AreOf ((amount, out) ∷ legs) orders
unfolding legs_out
skip-AreOf amount out legs orders nothing silent r =
    let zero_in : amount ≡ 0 = ground arith in
    let zero_out = silent zero_in in
    record { spend = omega (arith, r.spend); expect = omega (arith, r.expect, zero_out) }

build-AreOf :
    (candidates : List QuotedPath) (legs : List Leg)
    → IsHonest legs
    → Gives (AreOf legs) (build_sub_orders candidates legs)
unfolding build_sub_orders legs_out
build-AreOf [] [] h = Gives-some [] (record { spend = refl; expect = refl })
build-AreOf (c ∷ cs) [] h = Gives-some [] (record { spend = refl; expect = refl })
build-AreOf [] ((amount, out) ∷ legs) (h, hs) =
    Gives-if (ltb 0 amount) none _ (λ _. record { on_some = λ r e. cc })
      (λ nothing. record {
        on_some = λ orders e.
            skip-AreOf amount out legs orders nothing h ((build-AreOf [] legs hs).on_some orders e);
      })
build-AreOf (c ∷ cs) ((amount, out) ∷ legs) (h, hs) =
    Gives-if (ltb 0 amount) _ _
      (λ some_in. Gives-bind (build_sub_orders cs legs) _ (λ orders e.
        let rest = (build-AreOf cs legs hs).on_some orders e in
        Gives-some _ (record {
          spend = ap (λ r. amount + r) rest.spend;
          expect = ap (λ r. out + r) rest.expect;
        })))
      (λ nothing. record {
        on_some = λ orders e.
            skip-AreOf amount out legs orders nothing h
              ((build-AreOf (c ∷ cs) legs hs).on_some orders e);
      })

apply_slippage-le :
    (amount slippage_bps : ℕ) → Gives (λ m. m ≤ amount) (apply_slippage amount slippage_bps)
unfolding apply_slippage
apply_slippage-le amount slippage_bps = Gives-bind (u128_sub 10_000 slippage_bps) _ (λ share e.
    Gives-bind (u128_mul amount share) _
      (λ product e'. Gives-some _ (part-le amount share product (ground arith) (ground arith))))
  where
    part-le :
        (amount share product : ℕ)
        → share ≤ 10_000
        → product ≡ amount * share
        → product / 10_000 ≤ amount
    part-le amount share product le e = omega (arith, mul-le-mul_left amount le)

-- What a route must be that is to send `total`, where the best single path puts out `best`.
pub record IsRouteFor (total best : ℕ) (r : OptimalRoute) : Type 0 where
  pub spends : amounts_in r.sub_orders ≡ total
  pub sends : r.total_amount_in ≡ total
  pub expects : amounts_out r.sub_orders ≡ r.total_expected_out
  pub no_worse : best ≤ r.total_expected_out
  pub floor-le : r.minimum_out ≤ r.total_expected_out

single-IsRouteFor :
    (best : QuotedPath) (total slippage_bps : ℕ)
    → Gives (IsRouteFor total best.quote.amount_out) (single_route best total slippage_bps)
unfolding single_route
single-IsRouteFor best total slippage_bps =
    Gives-bind (apply_slippage best.quote.amount_out slippage_bps) _ (λ m e. Gives-some _ (record {
      spends = omega arith;
      sends = refl;
      expects = omega arith;
      no_worse = omega arith;
      floor-le = (apply_slippage-le best.quote.amount_out slippage_bps).on_some m e;
    }))

module _ (o : SplitOptimizer) where
  split_route-IsRouteFor :
      (best : QuotedPath) (total slippage_bps total_out paths : ℕ) (effective : List QuotedPath)
      (split : List Leg)
      → best.quote.amount_out ≤ total_out
      → IsSplit total paths split
      → sum_out split ≡ some total_out
      → Gives
          (IsRouteFor total best.quote.amount_out)
          (split_route o best total slippage_bps total_out effective split)
  unfolding split_route apply_split_minimum_slippage
  split_route-IsRouteFor best total slippage_bps total_out paths effective split better h summed =
      Gives-bind (build_sub_orders effective split) _ (λ orders built.
        Gives-bind (u128_mul (total_out - best.quote.amount_out) 10_000) _ (λ gain _.
          Gives-bind (u128_div gain best.quote.amount_out) _ (λ ratio _.
            Gives-if (ltb (as_u32 ratio) o.config.min_split_improvement_bps) _ _
              (λ _. single-IsRouteFor best total slippage_bps)
              (λ _. Gives-bind (apply_slippage total_out _) _ (λ m e.
                let of_legs = (build-AreOf effective split h.honest).on_some orders built in
                let same = (sum_out-legs_out split).on_some total_out summed in
                Gives-some _ (record {
                  spends = of_legs.spend ∙ h.spends;
                  sends = refl;
                  expects = of_legs.expect ∙ sym same;
                  no_worse = better;
                  floor-le = (apply_slippage-le total_out _).on_some m e;
                }))))))

  module _ (laws : SplitLaws o) where
    try_split-IsRouteFor :
        (best : QuotedPath) (candidates : List QuotedPath) (total slippage_bps : ℕ)
        → Gives
            (IsRouteFor total best.quote.amount_out)
            (try_split o best candidates total slippage_bps)
    unfolding try_split
    try_split-IsRouteFor best candidates total slippage_bps =
        Gives-bind (optimize_n_paths o candidates total) _ (λ planned e.
          Gives-bind (filter_dust_split_legs o candidates planned total) _ (λ filtered f.
            Gives-bind (sum_out filtered.1) _ (λ total_out summed.
              Gives-if (leb total_out best.quote.amount_out) _ _
                (λ _. single-IsRouteFor best total slippage_bps)
                (λ more.
                  let first = (optimize_n-IsSplit o laws candidates total).on_some planned e in
                  let last =
                    (filter_dust-IsSplit o laws candidates planned total first).on_some filtered
                      f in
                  split_route-IsRouteFor best total slippage_bps total_out (length filtered.0)
                    filtered.0 filtered.1 (ground arith) last summed))))

    sorted-IsRouteFor :
        (best : QuotedPath) (others : List QuotedPath) (total slippage_bps : ℕ)
        (max_splits_override : Option ℕ)
        → Gives
            (IsRouteFor total best.quote.amount_out)
            (optimize_sorted o (best ∷ others) total slippage_bps max_splits_override)
    unfolding optimize_sorted
    sorted-IsRouteFor best others total slippage_bps max_splits_override =
        let single = single-IsRouteFor best total slippage_bps in
        Gives-bind (competitive_enough o best.quote.amount_out others) _ (λ competitive _.
          Gives-if (leb (splits_allowed o max_splits_override) 1) _ _ (λ _. single)
            (λ _.
              Gives-if (length others == 0) _ _ (λ _. single)
                (λ _.
                  Gives-if
                    (ltb best.quote.price_impact_bps o.config.split_threshold_bps
                      && not (competitive && ltb 0 best.quote.price_impact_bps))
                    _ _ (λ _. single) (λ _. try_split-IsRouteFor best _ total slippage_bps))))

    -- If the share of a path is never more than the amount and a quote of nothing is nothing, a route that
    -- the optimizer returns for at least one quoted path sends the whole amount: its sub-orders spend it,
    -- and expect together what the route expects. That is at least the minimum, and at least what each
    -- single path was quoted.
    pub optimize_conserves :
        (first : QuotedPath) (more : List QuotedPath) (total slippage_bps : ℕ)
        (max_splits_override : Option ℕ) (r : OptimalRoute)
        → optimize o (first ∷ more) total slippage_bps max_splits_override ≡ some r
        → (amounts_in r.sub_orders ≡ total)
          × (r.total_amount_in ≡ total)
          × (amounts_out r.sub_orders ≡ r.total_expected_out)
          × (r.minimum_out ≤ r.total_expected_out)
          × All (λ q. q.quote.amount_out ≤ r.total_expected_out) (first ∷ more)
    unfolding optimize
    optimize_conserves first more total slippage_bps max_splits_override r e =
        elim (List-cases (sort_by_out (first ∷ more))) [
          | inl empty ↦ absurd (sort-nil first more empty)
          | inr (best, others, sorted) ↦
              let is =
                (sorted-IsRouteFor best others total slippage_bps max_splits_override).on_some r
                  (rw sorted at e) in
              let top = sort-best (first ∷ more) best others sorted in
              (
                is.spends,
                is.sends,
                is.expects,
                is.floor-le,
                All-map (λ q le. le_trans le is.no_worse) (first ∷ more) top,
              )
        ]
