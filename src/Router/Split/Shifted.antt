-- ===== src/Router/Split/Shifted.antt =====
-- Where a split leaves a path out, and how long the filter of small legs runs.
use stellar_dex_agg.Prelude.{
  ℕ, zero, suc, ◌≤◌, ◌<◌, Bool, true, false, ltb, ◌==◌, ◌||◌, Option-cases, if◌then◌else◌, none,
  some, List, [], ◌∷◌, ◌≡◌, refl, inl, inr, arith, length,
}
use stellar_dex_agg.Prelude.Partial.{
  ◌>>=◌, Gives, Gives-bind, Gives-if, Gives-some, u128_mul, bind_ext, if_ext,
}
use native.Mathlib.Nat.{le_trans}
use stellar_dex_agg.Router.Split.{
  apply_slippage, apply_split_minimum_slippage, SplitOptimizer, QuotedPath, SubOrder, Leg,
  active_nonzero, build_sub_orders, sum_out,
}
use stellar_dex_agg.Router.Split.Dust.{is_kept, kept_candidates, resplit, filter_loop}
use stellar_dex_agg.Router.Split.Legs.{SplitLaws, IsSplit, resplit-IsSplit}

-- A split that leaves the first path out, by a share of nothing, and sends something along later ones,
-- becomes sub-orders of which the first sends a positive amount along that very path.
pub sub_orders_shifted :
    (skipped : QuotedPath) (candidates : List QuotedPath) (out : ℕ) (legs : List Leg)
    (orders : List SubOrder)
    → 0 < active_nonzero legs
    → build_sub_orders (skipped ∷ candidates) ((0, out) ∷ legs) ≡ some orders
    → (order : SubOrder) × (others : List SubOrder) × (orders ≡ order ∷ others)
      × (order.path ≡ skipped.path)
      × (0 < order.amount_in)
unfolding build_sub_orders active_nonzero ◌>>=◌
sub_orders_shifted skipped candidates out [] orders some_in e = absurd (omega arith)
sub_orders_shifted skipped candidates out ((zero, o) ∷ legs) orders some_in e =
    sub_orders_shifted skipped candidates o legs orders (ground arith) e
sub_orders_shifted skipped candidates out ((suc a, o) ∷ legs) orders some_in e =
    elim (Option-cases (build_sub_orders candidates legs)) [
      | inl stuck ↦ absurd (ground arith)
      | inr (rest, built) ↦
          let order : SubOrder = record {
            path = skipped.path;
            amount_in = suc a;
            expected_amount_out = o;
          } in
          (order, rest, ground arith, refl, omega arith)
    ]

counted :
    (c : QuotedPath) (amount out : ℕ) (legs : List Leg) (rest : List QuotedPath) (kept : Bool)
    → (kept ≡ true → 0 < amount)
    → length rest ≤ active_nonzero legs
    → length (if kept then c ∷ rest else rest) ≤ active_nonzero ((amount, out) ∷ legs)
unfolding active_nonzero
counted c amount out legs rest true h le = let lt = h refl in ground arith
counted c amount out legs rest false h le = ground arith

active_nonzero-tail :
    (amount out : ℕ) (legs : List Leg) → active_nonzero legs ≤ active_nonzero ((amount, out) ∷ legs)
unfolding active_nonzero
active_nonzero-tail amount out legs = ground arith

active_nonzero-le : (legs : List Leg) → active_nonzero legs ≤ length legs
unfolding active_nonzero
active_nonzero-le [] = omega arith
active_nonzero-le ((amount, _) ∷ legs) = ground (arith, active_nonzero-le legs)

module _ (o : SplitOptimizer) (laws : SplitLaws o) where
  is_kept-pos :
      (total total_out : ℕ) (c : QuotedPath) (amount out : ℕ)
      → Gives (λ kept. kept ≡ true → 0 < amount) (is_kept o total total_out c (amount, out))
  unfolding is_kept
  is_kept-pos total total_out c amount out =
      Gives-if (amount == 0) _ _ (λ nothing. Gives-some false (λ e. cc))
        (λ some_in.
          Gives-bind (u128_mul out 10_000) _ (λ scaled _. Gives-some _ (λ _. ground arith)))

  kept-length :
      (total total_out : ℕ) (candidates : List QuotedPath) (legs : List Leg)
      → Gives
          (λ kept. length kept ≤ active_nonzero legs)
          (kept_candidates o total total_out candidates legs)
  unfolding kept_candidates
  kept-length total total_out [] [] = Gives-some _ (omega arith)
  kept-length total total_out (c ∷ cs) [] = Gives-some _ (omega arith)
  kept-length total total_out [] ((amount, out) ∷ legs) =
      let rest = kept-length total total_out [] legs in
      Gives-if (amount == 0) _ _
        (λ _. record {
          on_some = λ kept e. le_trans (rest.on_some kept e) (active_nonzero-tail amount out legs);
        })
        (λ _. record { on_some = λ kept e. cc })
  kept-length total total_out (c ∷ cs) ((amount, out) ∷ legs) =
      Gives-bind (is_kept o total total_out c (amount, out)) _ (λ kept k.
        Gives-bind (kept_candidates o total total_out cs legs) _ (λ rest e. Gives-some _ (
          counted c amount out legs rest kept
            ((is_kept-pos total total_out c amount out).on_some kept k)
            ((kept-length total total_out cs legs).on_some rest e))))

  -- The filter ends by its own test within as many rounds as there are candidates: more fuel changes
  -- nothing.
  pub filter_loop_fuel :
      (fuel fuel' total : ℕ) (active : List QuotedPath) (split : List Leg)
      → length active ≤ fuel
      → length active ≤ fuel'
      → IsSplit total (length active) split
      → filter_loop o fuel total active split ≡ filter_loop o fuel' total active split
  unfolding filter_loop sum_out ◌>>=◌
  filter_loop_fuel zero zero total active split le le' h = refl
  filter_loop_fuel zero (suc fuel') total [] [] le le' h = refl
  filter_loop_fuel zero (suc fuel') total [] (_ ∷ _) le le' h = absurd (omega (arith, h.fits))
  filter_loop_fuel zero (suc fuel') total (_ ∷ _) split le le' h = absurd (omega arith)
  filter_loop_fuel (suc fuel) zero total [] [] le le' h = refl
  filter_loop_fuel (suc fuel) zero total [] (_ ∷ _) le le' h = absurd (omega (arith, h.fits))
  filter_loop_fuel (suc fuel) zero total (_ ∷ _) split le le' h = absurd (omega arith)
  filter_loop_fuel (suc fuel) (suc fuel') total active split le le' h =
      bind_ext (sum_out split) _ _ (λ total_out _.
        if_ext (total_out == 0 || ltb (length active) 2) _ _ _ (λ _.
          bind_ext (kept_candidates o total total_out active split) _ _ (λ kept k.
            if_ext (length kept == active_nonzero split || length kept == 0) _ _ _ (λ on.
              let fewer : length kept < length active = ground (
                arith,
                (kept-length total total_out active split).on_some kept k,
                active_nonzero-le split,
                h.fits,
              ) in
              bind_ext (resplit o total kept) _ _ (λ next e.
                filter_loop_fuel fuel fuel' total kept next (omega arith) (omega arith)
                  ((resplit-IsSplit o laws total kept).on_some next e))))))

-- With more than 98.5 percent of slippage the minimum of a split cannot be computed.
split_slippage_panics :
    (amount slippage_bps : ℕ)
    → 9850 < slippage_bps
    → apply_split_minimum_slippage amount slippage_bps ≡ none
unfolding apply_split_minimum_slippage apply_slippage ◌>>=◌
split_slippage_panics amount slippage_bps h = ground arith
