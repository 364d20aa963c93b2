-- ===== src/Aggregator/Math/Scale.antt =====
-- contracts/aggregator/src/math.rs, `scale_sub_routes_to_total`: the weights of the way back become
-- inputs that add up to what is there.
use stellar_dex_agg.Prelude.{
  ◌≡◌, ◌∙◌, refl, sym, subst, List, [], ◌∷◌, ℤ, pos, ◌+ℤ◌, ◌*ℤ◌, ◌/ℤ◌, int_laws, zero_+ℤ,
  checked-eq_some, All,
}
use stellar_dex_agg.Soroban.Action.{ok}
use stellar_dex_agg.Soroban.Ensures.{
  Ensures, Ensures-pure, Ensures-weaken, Ensures-bind, Ensures-require, Ensures-unwrap,
}
use stellar_dex_agg.SharedTypes.{SubRoute}
use stellar_dex_agg.Aggregator.Routes.{total_amount, IsPositive}
use stellar_dex_agg.Aggregator.Math.{sum_weights, scale_from, scale_sub_routes_to_total}

-- The routes after scaling: as many, with the same steps, each positive, and each but the last the
-- share of the target that its weight gives, rounded down.
abbrev pub IsShare : (target weight_sum : ℤ) (routes out : List SubRoute) → Type 0
IsShare target weight_sum [] [] = Unit
IsShare target weight_sum (sr ∷ []) (o ∷ []) = (o.steps ≡ sr.steps) × IsPositive o
IsShare target weight_sum (sr ∷ next ∷ rest) (o ∷ out) =
    (o.steps ≡ sr.steps)
    × IsPositive o
    × (o.amount_in ≡ sr.amount_in *ℤ target /ℤ weight_sum)
    × IsShare target weight_sum (next ∷ rest) out
IsShare target weight_sum _ _ = ⊥

module _ {S : Type 0} (target weight_sum : ℤ) where
  scale_from-total :
      (sr : SubRoute) (rest : List SubRoute) (allocated : ℤ) (s : S)
      → Ensures
          (λ out s'.
            (allocated +ℤ total_amount out ≡ target)
            × IsShare target weight_sum (sr ∷ rest) out
            × (s' ≡ s))
          (scale_from target weight_sum allocated (sr ∷ rest))
          s
  unfolding scale_from
  scale_from-total sr [] allocated s = Ensures-unwrap _ _ _ λ amount e.
      Ensures-require _ _ _ λ positive. Ensures-pure _ (grind (int_laws, checked-eq_some _ _ e))
  scale_from-total sr (next ∷ rest) allocated s = Ensures-unwrap _ _ _ λ product e.
      Ensures-unwrap _ _ _ λ allocated' e'. Ensures-require _ _ _ λ positive.
        Ensures-bind _ _ (scale_from-total next rest allocated' s) λ out s' q.
          Ensures-pure _ (grind (int_laws, checked-eq_some _ _ e, checked-eq_some _ _ e'))

sum_weights-eq :
    {S : Type 0} (routes : List SubRoute) (acc : ℤ) (s : S)
    → Ensures
        (λ sum s'. (sum ≡ acc +ℤ total_amount routes) × All IsPositive routes × (s' ≡ s))
        (sum_weights acc routes)
        s
unfolding sum_weights
sum_weights-eq [] acc s = Ensures-pure _ (omega int_laws, tt, refl)
sum_weights-eq (sr ∷ rest) acc s = Ensures-require _ _ _ λ positive. Ensures-unwrap _ _ _ λ sum e.
    Ensures-weaken (sum_weights-eq rest sum s) λ total s' q. grind (int_laws, checked-eq_some _ _ e)

-- If the scaling succeeds, the inputs add up to the target exactly, every input is positive, each
-- route but the last has the share of its weight, rounded down, and the steps are as they were; the
-- contract's state is not changed.
pub scale_exact :
    {S : Type 0} (routes : List SubRoute) (target : ℤ) {out : List SubRoute} (s : S) {s' : S}
    → scale_sub_routes_to_total routes target s ≡ ok (out, s')
    → (total_amount out ≡ target) × IsShare target (total_amount routes) routes out × (s' ≡ s)
unfolding scale_sub_routes_to_total
scale_exact routes target {out} s {s'} = (go routes).on_success out s'
  where
    go :
        (routes : List SubRoute)
        → Ensures
            (λ out s'.
              (total_amount out ≡ target)
              × IsShare target (total_amount routes) routes out
              × (s' ≡ s))
            (scale_sub_routes_to_total routes target)
            s
    go [] = Ensures-require _ _ _ λ e. cc
    go (sr ∷ rest) = Ensures-require _ _ _ λ _. Ensures-require _ _ _ λ positive.
        Ensures-bind _ _ (sum_weights-eq (sr ∷ rest) (pos 0) s) λ sum t q.
          Ensures-weaken (scale_from-total target sum sr rest (pos 0) t) λ out s' r.
            let e : sum ≡ total_amount (sr ∷ rest) = q.0 ∙ zero_+ℤ _ in
            (sym (zero_+ℤ _) ∙ r.0, subst (λ x. IsShare target x (sr ∷ rest) out) e r.1, r.2 ∙ q.2)
