-- ===== src/Router/Split/Legs.antt =====
-- The legs of a split spend the whole amount.
use stellar_dex_agg.Prelude.{
  ℕ, zero, suc, ◌+◌, ◌-◌, ◌≤◌, ◌||◌, ltb, ◌==◌, Option-cases, if◌then◌else◌, Option, some, List, [],
  ◌∷◌, ◌≡◌, ap, subst, ◌∙◌, inl, inr, arith, length, All,
}
use stellar_dex_agg.Prelude.Partial.{Gives, Gives-bind, Gives-if, Gives-some}
use stellar_dex_agg.Router.Paths.{RoutePath}
use stellar_dex_agg.Router.Split.{
  SplitOptimizer, Quote, QuotedPath, Leg, amount_of, sum_out, active_nonzero,
}
use stellar_dex_agg.Router.Split.Allocate.{
  quoted_out, out_if_any, optimize_two_paths, optimize_n_paths,
}
use stellar_dex_agg.Router.Split.Dust.{
  kept_candidates, resplit, filter_loop, filter_dust_split_legs,
}

-- What the two parameters do: the share of a path is not more than the amount, and for nothing no pool
-- pays anything.
pub record SplitLaws (o : SplitOptimizer) : Type 0 where
  pub share-le : (f : ℕ → Option ℕ) (total a : ℕ) → o.pick f total ≡ some a → a ≤ total
  pub nothing_for_nothing :
      (path : RoutePath) (q : Quote) → o.quote_fn path 0 ≡ some q → q.amount_out ≡ 0

abbrev pub sum_in : List Leg → ℕ
sum_in [] = 0
sum_in ((amount, _) ∷ legs) = amount + sum_in legs

-- What the legs of nothing put out is nothing.
abbrev pub IsHonest : List Leg → Type 0
IsHonest = All (λ leg. leg.0 ≡ 0 → leg.1 ≡ 0)

-- Legs that spend the amount, at most one for each path.
pub record IsSplit (total paths : ℕ) (legs : List Leg) : Type 0 where
  pub spends : sum_in legs ≡ total
  pub fits : length legs ≤ paths
  pub honest : IsHonest legs

rest-IsSplit :
    (amount paths : ℕ) (m : Option (List Leg))
    → Gives (IsSplit amount paths) m
    → Gives (IsSplit amount paths) (if ltb 0 amount then m else some [])
rest-IsSplit amount paths m h =
    Gives-if (ltb 0 amount) m (some []) (λ _. h)
      (λ nothing. Gives-some [] (record { spends = ground arith; fits = omega arith; honest = tt }))

module _ (o : SplitOptimizer) (laws : SplitLaws o) where
  quoted_out-zero : (path : RoutePath) (amount : ℕ) → amount ≡ 0 → quoted_out o path amount ≡ 0
  unfolding quoted_out
  quoted_out-zero path amount e = elim (Option-cases (o.quote_fn path amount)) [
    | inl nothing ↦ ap amount_of nothing
    | inr (q, quoted) ↦
        ap amount_of quoted
        ∙ laws.nothing_for_nothing path q (subst (λ a. o.quote_fn path a ≡ some q) e quoted)
  ]

  two_paths-IsSplit :
      (a b : RoutePath) (total : ℕ) → Gives (IsSplit total 2) (optimize_two_paths o a b total)
  unfolding optimize_two_paths out_if_any
  two_paths-IsSplit a b total = Gives-bind (o.pick _ total) _ (λ amount picked.
      Gives-some _ (record {
        spends = omega (arith, laws.share-le _ total amount picked);
        fits = omega arith;
        honest = (λ e. ground arith, (λ e. ground arith, tt));
      }))

  pub optimize_n-IsSplit :
      (paths : List QuotedPath) (total : ℕ)
      → Gives (IsSplit total (length paths)) (optimize_n_paths o paths total)
  unfolding optimize_n_paths
  optimize_n-IsSplit [] total = record { on_some = λ legs e. cc }
  optimize_n-IsSplit (p ∷ []) total = Gives-some _ (record {
    spends = omega arith;
    fits = omega arith;
    honest = (quoted_out-zero p.path total, tt);
  })
  optimize_n-IsSplit (p ∷ q ∷ []) total = two_paths-IsSplit p.path q.path total
  optimize_n-IsSplit (p ∷ q ∷ r ∷ ps) total = Gives-bind (o.pick _ total) _ (λ amount picked.
      Gives-bind _ _ (λ rest e.
        let left =
          (rest-IsSplit (total - amount) (length (q ∷ r ∷ ps)) _
              (optimize_n-IsSplit (q ∷ r ∷ ps) (total - amount))).on_some
            rest e in
        Gives-some _ (record {
          spends = omega (arith, laws.share-le _ total amount picked, left.spends);
          fits = omega (arith, left.fits);
          honest = (quoted_out-zero p.path amount, left.honest);
        })))

  pub resplit-IsSplit :
      (total : ℕ) (kept : List QuotedPath)
      → Gives (IsSplit total (length kept)) (resplit o total kept)
  unfolding resplit
  resplit-IsSplit total [] = record { on_some = λ legs e. cc }
  resplit-IsSplit total (c ∷ []) = Gives-some _ (record {
    spends = omega arith;
    fits = omega arith;
    honest = (quoted_out-zero c.path total, tt);
  })
  resplit-IsSplit total (c ∷ d ∷ cs) = optimize_n-IsSplit (c ∷ d ∷ cs) total

  filter_loop-IsSplit :
      (fuel total : ℕ) (active : List QuotedPath) (split : List Leg)
      → IsSplit total (length active) split
      → Gives (λ r. IsSplit total (length r.0) r.1) (filter_loop o fuel total active split)
  unfolding filter_loop
  filter_loop-IsSplit zero total active split h = Gives-some _ h
  filter_loop-IsSplit (suc fuel) total active split h = Gives-bind (sum_out split) _ (λ total_out _.
      Gives-if (total_out == 0 || ltb (length active) 2) _ _ (λ _. Gives-some _ h)
        (λ _. Gives-bind (kept_candidates o total total_out active split) _ (λ kept _.
          Gives-if (length kept == active_nonzero split || length kept == 0) _ _
            (λ _. Gives-some _ h)
            (λ _. Gives-bind (resplit o total kept) _ (λ next e.
              filter_loop-IsSplit fuel total kept next
                ((resplit-IsSplit total kept).on_some next e))))))

  pub filter_dust-IsSplit :
      (candidates : List QuotedPath) (split : List Leg) (total : ℕ)
      → IsSplit total (length candidates) split
      → Gives
          (λ r. IsSplit total (length r.0) r.1)
          (filter_dust_split_legs o candidates split total)
  unfolding filter_dust_split_legs
  filter_dust-IsSplit candidates split total h =
      Gives-if (o.config.min_split_fraction_bps == 0 || ltb (length candidates) 2) _ _
        (λ _. Gives-some _ h)
        (λ _. filter_loop-IsSplit (length candidates) total candidates split h)
