-- ===== src/Router/Split/Amounts.antt =====
-- When the division of an amount over paths does not panic.
use stellar_dex_agg.Prelude.{
  ℕ, ◌+◌, ◌-◌, ◌*◌, ◌/◌, ◌≤◌, ◌<◌, max, ltb, ◌==◌, Option-cases, Option, some, none, List, [], ◌∷◌,
  ◌≡◌, ◌≢◌, refl, inl, inr, arith, length, All, u128_max,
}
use stellar_dex_agg.Prelude.Partial.{
  u128_add, u128_in-Returns, u128_in_within, saturating_mul, Returns, Returns-bind, Returns-if,
  Returns-some,
}
use native.Mathlib.Nat.{
  div-mul-le_self, mul-le-mul_left, mul-le-mul_right, le_of_mul-le-mul_right, le_trans,
}
use stellar_dex_agg.Router.Paths.{RoutePath}
use stellar_dex_agg.Router.Split.{SplitOptimizer, Quote, QuotedPath, Leg, sum_out}
use stellar_dex_agg.Router.Split.Allocate.{
  quoted_out, out_if_any, optimize_two_paths, optimize_n_paths, weight_sum, weighted_out,
  approximate_weighted_paths_output, total_out_for_paths,
}

-- What keeps the parameters from panicking: the search for a share only tries amounts up to the whole
-- one, and no pool pays more than `cap`.
pub record AmountLaws (o : SplitOptimizer) (cap : ℕ) : Type 0 where
  pub picks :
      (f : ℕ → Option ℕ) (total : ℕ) → ((a : ℕ) → a ≤ total → f a ≢ none) → o.pick f total ≢ none
  pub quote-le :
      (path : RoutePath) (amount : ℕ) (q : Quote)
      → o.quote_fn path amount ≡ some q
      → q.amount_out ≤ cap

abbrev pub AreSmall : ℕ → List Leg → Type 0
AreSmall cap = All (λ leg. leg.1 ≤ cap)

abbrev pub AreQuoted : ℕ → List QuotedPath → Type 0
AreQuoted cap = All (λ p. p.quote.amount_out ≤ cap)

pub sum_out-Returns :
    (cap : ℕ) (legs : List Leg)
    → AreSmall cap legs
    → length legs * cap ≤ u128_max
    → Returns (λ s. s ≤ length legs * cap) (sum_out legs)
unfolding sum_out
sum_out-Returns cap [] h room = Returns-some 0 (omega arith)
sum_out-Returns cap ((a, out) ∷ legs) (h, hs) room =
    Returns-bind (sum_out legs) _ (sum_out-Returns cap legs hs (omega arith))
      (λ rest _ le. u128_in_within (out + rest) (length ((a, out) ∷ legs) * cap) (omega arith) room)

-- What the weights of paths are together.
weights : List QuotedPath → ℕ
weights [] = 0
weights (p ∷ ps) = weights ps + max p.quote.amount_out 1

weights-le :
    (cap : ℕ) (ps : List QuotedPath) → 0 < cap → AreQuoted cap ps → weights ps ≤ length ps * cap
unfolding weights
weights-le cap [] pos h = omega arith
weights-le cap (p ∷ ps) pos (h, hs) = omega (arith, weights-le cap ps pos hs)

weight_sum-Returns :
    (o : SplitOptimizer) (ps : List QuotedPath)
    → weights ps ≤ u128_max
    → Returns (λ s. s ≡ weights ps) (weight_sum o ps)
unfolding weight_sum weights
weight_sum-Returns o [] room = Returns-some 0 refl
weight_sum-Returns o (p ∷ ps) room =
    Returns-bind (weight_sum o ps) _ (weight_sum-Returns o ps (omega arith)) (λ rest _ e.
      let r = u128_in-Returns (max p.quote.amount_out 1 + rest) (omega arith) in
      record { value = r.value; is = r.is; holds = omega (arith, r.holds) })

-- A share by weight, with what was given away before, is at most the whole.
share-le_total :
    (total sum allocated done weight : ℕ)
    → 0 < sum
    → allocated * sum ≤ total * done
    → done + weight ≤ sum
    → ((allocated + saturating_mul total weight / sum) * sum ≤ total * (done + weight))
      × (allocated + saturating_mul total weight / sum ≤ total)
share-le_total total sum allocated done weight pos before fits =
    let share : saturating_mul total weight / sum * sum ≤ total * weight =
      le_trans (div-mul-le_self (saturating_mul total weight) sum) (omega arith) in
    let within : (allocated + saturating_mul total weight / sum) * sum ≤ total * (done + weight) =
      omega (arith, share, before) in
    (within, le_of_mul-le-mul_right (le_trans within (mul-le-mul_left total fits)) pos)

module _ (o : SplitOptimizer) (cap : ℕ) (laws : AmountLaws o cap) where
  pub quoted_out-le : (path : RoutePath) (amount : ℕ) → quoted_out o path amount ≤ cap
  unfolding quoted_out
  quoted_out-le path amount = elim (Option-cases (o.quote_fn path amount)) [
    | inl nothing ↦ rw nothing (omega arith)
    | inr (q, quoted) ↦ rw quoted (laws.quote-le path amount q quoted)
  ]

  out_if_any-le : (path : RoutePath) (amount : ℕ) → out_if_any o path amount ≤ cap
  unfolding out_if_any
  out_if_any-le path amount = ground (arith, quoted_out-le path amount)

  weighted_out-Returns :
      (total sum allocated done : ℕ) (ps : List QuotedPath)
      → 0 < sum
      → allocated * sum ≤ total * done
      → done + weights ps ≤ sum
      → total ≤ u128_max
      → length ps * cap ≤ u128_max
      → Returns (λ out. out ≤ length ps * cap) (weighted_out o total sum allocated ps)
  unfolding weighted_out weights
  weighted_out-Returns total sum allocated done [] pos before fits whole room =
      Returns-some 0 (omega arith)
  weighted_out-Returns total sum allocated done (p ∷ []) pos before fits whole room =
      Returns-some _ (omega (arith, out_if_any-le p.path (total - allocated)))
  weighted_out-Returns total sum allocated done (p ∷ q ∷ ps) pos before fits whole room =
      let weight = max p.quote.amount_out 1 in
      let share = saturating_mul total weight / sum in
      let (within, le) = share-le_total total sum allocated done weight pos before (omega arith) in
      Returns-bind (u128_add allocated share) _ (u128_in-Returns (allocated + share) (omega arith))
        (λ next _ same.
          Returns-bind (weighted_out o total sum next (q ∷ ps)) _
            (weighted_out-Returns total sum next (done + weight) (q ∷ ps) pos (rw same within)
              (omega arith) whole (omega arith))
            (λ rest _ rest-le.
              u128_in_within (out_if_any o p.path share + rest) (length (p ∷ q ∷ ps) * cap)
                (omega (arith, out_if_any-le p.path share)) room))

  -- Whatever share is tried, the search finds one.
  pick-Returns :
      {P : ℕ → Type 0} (f : ℕ → Option ℕ) (total : ℕ)
      → ((a : ℕ) → a ≤ total → Returns P (f a))
      → Returns (λ a. o.pick f total ≡ some a) (o.pick f total)
  pick-Returns f total h = elim (Option-cases (o.pick f total)) [
    | inl stuck ↦ absurd (laws.picks f total (λ a le e. let r = h a le in cc) stuck)
    | inr (a, picked) ↦ record { value = a; is = picked; holds = picked }
  ]

  two_paths-Returns :
      (a b : RoutePath) (total : ℕ)
      → 2 * cap ≤ u128_max
      → Returns (λ legs. AreSmall cap legs × (length legs ≤ 2)) (optimize_two_paths o a b total)
  unfolding optimize_two_paths
  two_paths-Returns a b total room =
      Returns-bind (o.pick _ total) _
        (pick-Returns _ total (λ amount le.
          u128_in_within _ (2 * cap)
            (omega (arith, out_if_any-le a amount, out_if_any-le b (total - amount))) room))
        (λ amount _ _.
          Returns-some _
            ((out_if_any-le a amount, (out_if_any-le b (total - amount), tt)), omega arith))

  approximate-Returns :
      (ps : List QuotedPath) (total : ℕ)
      → 0 < length ps
      → 0 < cap
      → AreQuoted cap ps
      → total ≤ u128_max
      → length ps * cap ≤ u128_max
      → Returns (λ out. out ≤ length ps * cap) (approximate_weighted_paths_output o ps total)
  unfolding approximate_weighted_paths_output
  approximate-Returns ps total some_path pos h whole room =
      Returns-if (total == 0) _ _ (λ _. Returns-some 0 (omega arith))
        (λ _.
          let fits = weights-le cap ps pos h in
          Returns-bind (weight_sum o ps) _ (weight_sum-Returns o ps (le_trans fits room))
            (λ sum _ e.
              weighted_out-Returns total (max sum 1) 0 0 ps (omega arith) (omega arith)
                (omega arith) whole room))

  total_out-Returns :
      (ps : List QuotedPath) (total : ℕ)
      → 0 < cap
      → AreQuoted cap ps
      → total ≤ u128_max
      → length ps * cap ≤ u128_max
      → Returns (λ out. out ≤ length ps * cap) (total_out_for_paths o ps total)
  unfolding total_out_for_paths
  total_out-Returns [] total pos h whole room = Returns-some 0 (omega arith)
  total_out-Returns (p ∷ []) total pos h whole room =
      Returns-if (total == 0) _ _ (λ _. Returns-some 0 (omega arith))
        (λ _. Returns-some _ (omega (arith, quoted_out-le p.path total)))
  total_out-Returns (p ∷ q ∷ []) total pos h whole room =
      Returns-if (total == 0) _ _ (λ _. Returns-some 0 (omega arith))
        (λ _.
          Returns-bind (optimize_two_paths o p.path q.path total) _
            (two_paths-Returns p.path q.path total (omega arith))
            (λ legs _ (small, two).
              let few = mul-le-mul_right cap two in
              let r = sum_out-Returns cap legs small (omega (arith, few)) in
              record { value = r.value; is = r.is; holds = omega (arith, few, r.holds) }))
  total_out-Returns (p ∷ q ∷ r ∷ ps) total pos h whole room =
      approximate-Returns (p ∷ q ∷ r ∷ ps) total (omega arith) pos h whole room

  pub optimize_n-Returns :
      (p : QuotedPath) (ps : List QuotedPath) (total : ℕ)
      → 0 < cap
      → AreQuoted cap (p ∷ ps)
      → total ≤ u128_max
      → length (p ∷ ps) * cap ≤ u128_max
      → Returns (AreSmall cap) (optimize_n_paths o (p ∷ ps) total)
  unfolding optimize_n_paths
  optimize_n-Returns p [] total pos h whole room = Returns-some _ (quoted_out-le p.path total, tt)
  optimize_n-Returns p (q ∷ []) total pos h whole room =
      let r = two_paths-Returns p.path q.path total (omega arith) in
      record { value = r.value; is = r.is; holds = r.holds.0 }
  optimize_n-Returns p (q ∷ r ∷ ps) total pos (h, hs) whole room =
      Returns-bind (o.pick _ total) _
        (pick-Returns _ total (λ amount le.
          Returns-bind (total_out_for_paths o (q ∷ r ∷ ps) (total - amount)) _
            (total_out-Returns (q ∷ r ∷ ps) (total - amount) pos hs (omega arith) (omega arith))
            (λ rest _ rest-le.
              u128_in_within _ (length (p ∷ q ∷ r ∷ ps) * cap)
                (omega (arith, quoted_out-le p.path amount)) room)))
        (λ amount _ _.
          Returns-bind _ _
            (Returns-if (ltb 0 (total - amount)) _ _
              (λ _.
                optimize_n-Returns q (r ∷ ps) (total - amount) pos hs (omega arith) (omega arith))
              (λ _. Returns-some [] tt))
            (λ rest _ small. Returns-some _ (quoted_out-le p.path amount, small)))
