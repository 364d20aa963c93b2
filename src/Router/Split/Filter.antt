-- ===== src/Router/Split/Filter.antt =====
-- When the filter of small legs does not panic.
use stellar_dex_agg.Prelude.{
  ℕ, zero, suc, ◌*◌, ◌≤◌, ◌<◌, Bool, true, false, ◌||◌, ltb, ◌==◌, if◌then◌else◌, List, [], ◌∷◌,
  ◌≡◌, arith, length, u128_max,
}
use stellar_dex_agg.Prelude.Partial.{
  u128_mul, u128_in_within, Returns, Returns-bind, Returns-if, Returns-some,
}
use native.Mathlib.Nat.{mul-le-mul_right, le_trans}
use stellar_dex_agg.Router.Split.{SplitOptimizer, QuotedPath, Leg, sum_out, active_nonzero}
use stellar_dex_agg.Router.Split.Dust.{
  is_kept, kept_candidates, resplit, filter_loop, filter_dust_split_legs,
}
use stellar_dex_agg.Router.Split.Legs.{SplitLaws, IsSplit, resplit-IsSplit}
use stellar_dex_agg.Router.Split.Amounts.{
  AmountLaws, AreSmall, AreQuoted, sum_out-Returns, quoted_out-le, optimize_n-Returns,
}

module _ (o : SplitOptimizer) (cap : ℕ) where
  is_kept-Returns :
      (total total_out : ℕ) (c : QuotedPath) (amount out : ℕ)
      → out * 10_000 ≤ u128_max
      → Returns (λ _. Unit) (is_kept o total total_out c (amount, out))
  unfolding is_kept
  is_kept-Returns total total_out c amount out small =
      Returns-if (amount == 0) _ _ (λ _. Returns-some false tt)
        (λ _.
          Returns-bind (u128_mul out 10_000) _ (u128_in_within _ u128_max small (omega arith))
            (λ scaled _ _. Returns-some _ tt))

  kept-Returns :
      (total total_out : ℕ) (candidates : List QuotedPath) (legs : List Leg)
      → cap * 10_000 ≤ u128_max
      → AreSmall cap legs
      → AreQuoted cap candidates
      → length legs ≤ length candidates
      → Returns
          (λ kept. AreQuoted cap kept × (length kept ≤ length candidates))
          (kept_candidates o total total_out candidates legs)
  unfolding kept_candidates
  kept-Returns total total_out candidates [] room small quoted le =
      Returns-some [] (tt, omega arith)
  kept-Returns total total_out [] (leg ∷ legs) room small quoted le = absurd (omega arith)
  kept-Returns total total_out (c ∷ cs) ((amount, out) ∷ legs) room (h, hs) (k, ks) le =
      Returns-bind (is_kept o total total_out c (amount, out)) _
        (is_kept-Returns total total_out c amount out (omega (arith, h, room)))
        (λ kept _ _.
          Returns-bind (kept_candidates o total total_out cs legs) _
            (kept-Returns total total_out cs legs room hs ks (omega arith))
            (λ rest _ (qs, few). Returns-some _ (add kept rest qs few)))
    where
      add :
          (kept : Bool) (rest : List QuotedPath)
          → AreQuoted cap rest
          → length rest ≤ length cs
          → AreQuoted cap (if kept then c ∷ rest else rest)
            × (length (if kept then c ∷ rest else rest) ≤ suc (length cs))
      add true rest qs few = ((k, qs), omega arith)
      add false rest qs few = (qs, omega arith)

module _ (o : SplitOptimizer) (laws : SplitLaws o) (cap : ℕ) (amounts : AmountLaws o cap) where
  resplit-Returns :
      (kept : List QuotedPath) (total : ℕ)
      → (length kept == 0) ≡ false
      → 0 < cap
      → AreQuoted cap kept
      → total ≤ u128_max
      → length kept * cap ≤ u128_max
      → Returns (AreSmall cap) (resplit o total kept)
  unfolding resplit
  resplit-Returns [] total some_kept pos h whole room = absurd (ground arith)
  resplit-Returns (c ∷ []) total some_kept pos h whole room =
      Returns-some _ (quoted_out-le o cap amounts c.path total, tt)
  resplit-Returns (c ∷ d ∷ cs) total some_kept pos h whole room =
      optimize_n-Returns o cap amounts c (d ∷ cs) total pos h whole room

  module _ (n : ℕ) (some_path : 0 < n) (pos : 0 < cap) (room : n * cap * 10_000 ≤ u128_max) where
    pub fits : (k : ℕ) → k ≤ n → k * cap * 10_000 ≤ u128_max
    fits k le = omega (arith, mul-le-mul_right cap le, room)

    fits_one : cap * 10_000 ≤ u128_max
    fits_one = omega (arith, fits 1 some_path)

    filter_loop-Returns :
        (fuel total : ℕ) (active : List QuotedPath) (split : List Leg)
        → total ≤ u128_max
        → length active ≤ n
        → AreQuoted cap active
        → AreSmall cap split
        → IsSplit total (length active) split
        → Returns (λ r. AreSmall cap r.1 × (length r.0 ≤ n)) (filter_loop o fuel total active split)
    unfolding filter_loop
    filter_loop-Returns zero total active split whole le quoted small is =
        Returns-some _ (small, le)
    filter_loop-Returns (suc fuel) total active split whole le quoted small is =
        Returns-bind (sum_out split) _
          (sum_out-Returns cap split small
            (omega (arith, fits (length split) (le_trans is.fits le))))
          (λ total_out _ _.
            Returns-if (total_out == 0 || ltb (length active) 2) _ _
              (λ _. Returns-some _ (small, le))
              (λ _.
                Returns-bind (kept_candidates o total total_out active split) _
                  (kept-Returns o cap total total_out active split fits_one small quoted is.fits)
                  (λ kept _ (qs, few).
                    Returns-if (length kept == active_nonzero split || length kept == 0) _ _
                      (λ _. Returns-some _ (small, le))
                      (λ on.
                        let le' : length kept ≤ n = omega (arith, few, le) in
                        Returns-bind (resplit o total kept) _
                          (resplit-Returns kept total (ground arith) pos qs whole
                            (omega (arith, fits (length kept) le')))
                          (λ next e small'.
                            filter_loop-Returns fuel total kept next whole le' qs small'
                              ((resplit-IsSplit o laws total kept).on_some next e))))))

    pub filter_dust-Returns :
        (candidates : List QuotedPath) (split : List Leg) (total : ℕ)
        → total ≤ u128_max
        → length candidates ≤ n
        → AreQuoted cap candidates
        → AreSmall cap split
        → IsSplit total (length candidates) split
        → Returns
            (λ r. AreSmall cap r.1 × (length r.0 ≤ n))
            (filter_dust_split_legs o candidates split total)
    unfolding filter_dust_split_legs
    filter_dust-Returns candidates split total whole le quoted small is =
        Returns-if (o.config.min_split_fraction_bps == 0 || ltb (length candidates) 2) _ _
          (λ _. Returns-some _ (small, le))
          (λ _.
            filter_loop-Returns (length candidates) total candidates split whole le quoted small is)
