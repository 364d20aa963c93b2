-- ===== src/Aggregator/RoundTrip/Safety.antt =====
-- contracts/aggregator/src/round_trip.rs: what a round trip does to its user and to an account that
-- stands by.
use stellar_dex_agg.Prelude.{
  ◌≢◌, ◌≡◌, ◌∙◌, refl, subst, ap, List, ℤ, pos, ◌≤ℤ◌, ◌<ℤ◌, leb→le, ltb→lt,
}
use stellar_dex_agg.Soroban.Action.{Env, ok}
use stellar_dex_agg.Soroban.Ensures.{
  Ensures, Ensures-pure, Ensures-bind, Ensures-bind_eq, Ensures-require, Ensures-require_auth,
  Ensures-modify, Ensures-call_unit,
}
use stellar_dex_agg.Soroban.Host.{Address, Host, Pools}
use stellar_dex_agg.Soroban.Laws.{TokenLaws, PoolLaws, Kept, Kept-trans, transfer-Kept, Traded}
use stellar_dex_agg.SharedTypes.{SubRoute}
use stellar_dex_agg.Aggregator.Storage.{Storage}
use stellar_dex_agg.Aggregator.Validate.WellFormed.{validate_sub_routes-IsRoute}
use stellar_dex_agg.Aggregator.Math.Scale.{scale_exact}
use stellar_dex_agg.Aggregator.Swap.Safety.{execute_sub_routes-Kept, Traded-of, traded_at}
use stellar_dex_agg.Aggregator.RoundTrip.{round_trip_swap}

module _ {W : Type 0} (h : Host W) (a : Address) where
  Kept-at : {s s' : Env Storage W} {w : W} → s' ≡ s → Kept h a s'.world w → Kept h a s.world w
  Kept-at {w = w} e k = subst (λ (z : Env Storage W). Kept h a z.world w) e k

module _ {W : Type 0} (h : Host W) (pools : Pools W) (self user : Address) (tokens : TokenLaws h)
    (laws : PoolLaws h pools self user) (apart : self ≢ user) where
  round_trip_swap-Traded :
      (base bridge : Address) (x : ℤ) (leg_out leg_back : List SubRoute) (min_out : ℤ)
      (s : Env Storage W)
      → Ensures
          (λ out s'.
            (pos 0 <ℤ x)
            × (x ≤ℤ min_out)
            × (min_out ≤ℤ out)
            × Traded h user base base x out s.world s'.world)
          (round_trip_swap h pools self user base bridge x leg_out leg_back min_out)
          s
  unfolding round_trip_swap
  round_trip_swap-Traded base bridge x leg_out leg_back min_out s = Ensures-require_auth _ _ _ λ _.
      Ensures-require _ _ _ λ positive. Ensures-require _ _ _ λ floor. Ensures-require _ _ _ λ _.
        Ensures-bind _ _ (validate_sub_routes-IsRoute base bridge leg_out s) λ total s₁ v.
          Ensures-bind _ _ (validate_sub_routes-IsRoute bridge base leg_back s₁) λ _ s₂ v'.
            Ensures-require _ _ _ λ _. Ensures-call_unit _ _ λ w p.
              Ensures-bind _ _
                (execute_sub_routes-Kept h pools self user tokens laws apart leg_out 0 _)
                λ r s₃ k. Ensures-require _ _ _ λ _. Ensures-bind_eq _ _ λ scaled s₄ e.
                  Ensures-bind _ _
                    (execute_sub_routes-Kept h pools self user tokens laws apart scaled r.1 s₄)
                    λ r' s₅ k'. Ensures-require _ _ _ λ enough. Ensures-call_unit _ _ λ w' q.
                      Ensures-modify _ _ (
                        Ensures-pure _ (
                          ltb→lt _ _ positive,
                          leb→le _ _ floor,
                          leb→le _ _ enough,
                          traded_at h pools self user tokens laws apart base base refl
                              (ap (λ (z : Env Storage W). z.world) (v'.3 ∙ v.3))
                              (Traded-of h pools self user tokens laws apart base base x r'.0 p
                                (Kept-trans h k
                                  (Kept-at h user (scale_exact leg_back r.0 s₃ e).2 k'))
                                q),
                        ))

  -- A round trip that succeeds, for a user that is not the contract, over tokens and pools that keep
  -- the host's rules: the user had put in a positive amount, gets back the amount that is returned,
  -- at least the minimum asked for and so at least what was put in, and loses nothing else: in every
  -- token the user ends with no less than before, in the base token with the gain.
  pub round_trip_swap_safe :
      (base bridge : Address) (x : ℤ) (leg_out leg_back : List SubRoute) (min_out : ℤ)
      (s : Env Storage W) {out : ℤ} {s' : Env Storage W}
      → round_trip_swap h pools self user base bridge x leg_out leg_back min_out s ≡ ok (out, s')
      → (pos 0 <ℤ x)
        × (x ≤ℤ min_out)
        × (min_out ≤ℤ out)
        × Traded h user base base x out s.world s'.world
  round_trip_swap_safe base bridge x leg_out leg_back min_out s {out} {s'} =
      (round_trip_swap-Traded base bridge x leg_out leg_back min_out s).on_success out s'

module _ {W : Type 0} (h : Host W) (pools : Pools W) (self user a : Address) (tokens : TokenLaws h)
    (laws : PoolLaws h pools self a) (apart : self ≢ a) (other : user ≢ a) where
  -- An account that is neither the user nor the aggregator loses nothing by a round trip.
  pub round_trip_swap-Kept :
      (base bridge : Address) (x : ℤ) (leg_out leg_back : List SubRoute) (min_out : ℤ)
      (s : Env Storage W)
      → Ensures
          (λ _ s'. Kept h a s.world s'.world)
          (round_trip_swap h pools self user base bridge x leg_out leg_back min_out)
          s
  unfolding round_trip_swap
  round_trip_swap-Kept base bridge x leg_out leg_back min_out s = Ensures-require_auth _ _ _ λ _.
      Ensures-require _ _ _ λ _. Ensures-require _ _ _ λ _. Ensures-require _ _ _ λ _.
        Ensures-bind _ _ (validate_sub_routes-IsRoute base bridge leg_out s) λ total s₁ v.
          Ensures-bind _ _ (validate_sub_routes-IsRoute bridge base leg_back s₁) λ _ s₂ v'.
            Ensures-require _ _ _ λ _. Ensures-call_unit _ _ λ w p.
              Ensures-bind _ _
                (execute_sub_routes-Kept h pools self a tokens laws apart leg_out 0 _)
                λ r s₃ k. Ensures-require _ _ _ λ _. Ensures-bind_eq _ _ λ scaled s₄ e.
                  Ensures-bind _ _
                    (execute_sub_routes-Kept h pools self a tokens laws apart scaled r.1 s₄)
                    λ r' s₅ k'. Ensures-require _ _ _ λ _. Ensures-call_unit _ _ λ w' q.
                      Ensures-modify _ _ (
                        Ensures-pure _ (
                          Kept-at h a (v'.3 ∙ v.3) (
                            Kept-trans h (transfer-Kept h tokens base user self a x p other) (
                              Kept-trans h k (
                                Kept-trans h (Kept-at h a (scale_exact leg_back r.0 s₃ e).2 k')
                                  (transfer-Kept h tokens base self user a r'.0 q apart))))))

-- The floor on the output needs nothing of the pools.
pub round_trip_swap-minimum :
    {W : Type 0} (h : Host W) (pools : Pools W) (self user base bridge : Address) (x : ℤ)
    (leg_out leg_back : List SubRoute) (min_out : ℤ) (s : Env Storage W)
    → Ensures
        (λ out _. min_out ≤ℤ out)
        (round_trip_swap h pools self user base bridge x leg_out leg_back min_out)
        s
unfolding round_trip_swap
round_trip_swap-minimum h pools self user base bridge x leg_out leg_back min_out s =
    Ensures-require_auth _ _ _ λ _. Ensures-require _ _ _ λ _. Ensures-require _ _ _ λ _.
      Ensures-require _ _ _ λ _. Ensures-bind_eq _ _ λ _ _ _. Ensures-bind_eq _ _ λ _ _ _.
        Ensures-require _ _ _ λ _. Ensures-call_unit _ _ λ _ _. Ensures-bind_eq _ _ λ _ _ _.
          Ensures-require _ _ _ λ _. Ensures-bind_eq _ _ λ _ _ _. Ensures-bind_eq _ _ λ _ _ _.
            Ensures-require _ _ _ λ enough.
              Ensures-call_unit _ _ λ _ _. Ensures-modify _ _ (Ensures-pure _ (leb→le _ _ enough))
