-- ===== src/Aggregator/Swap/Safety.antt =====
-- contracts/aggregator/src/swap.rs: what a swap does to the accounts around it, whatever the pools do.
use stellar_dex_agg.Prelude.{
  ◌≢◌, ◌≡◌, some, ℕ, List, [], ◌∷◌, ℤ, pos, ◌≤ℤ◌, ◌<ℤ◌, int_laws, refl, true, arith, ap, ◌∙◌, subst,
  All, leb→le, ltb→lt,
}
use mathlib.Core.Path.{subst₂}
use stellar_dex_agg.Soroban.Action.{Env, ok}
use stellar_dex_agg.Soroban.Ensures.{
  Ensures, Ensures-pure, Ensures-bind, Ensures-weaken, Ensures-self, Ensures-require,
  Ensures-unwrap, Ensures-require_auth, Ensures-modify, Ensures-load, Ensures-call_unit,
}
use stellar_dex_agg.Soroban.Host.{Address, Host, Pools}
use stellar_dex_agg.Soroban.Laws.{
  TokenLaws, PoolLaws, Kept, Kept-refl, transfer-from, transfer-to, Traded,
}
use stellar_dex_agg.SharedTypes.{SwapStep, SubRoute}
use stellar_dex_agg.Aggregator.Admin.{dex_tag}
use stellar_dex_agg.Aggregator.Routes.{total_amount, IsRoute}
use stellar_dex_agg.Aggregator.Storage.{Storage, is_venue}
use stellar_dex_agg.Aggregator.Validate.{check_venues, validate_registered_venues}
use stellar_dex_agg.Aggregator.Validate.WellFormed.{validate_sub_routes-IsRoute}
use stellar_dex_agg.Aggregator.Invoke.Kept.{execute_path-Kept}
use stellar_dex_agg.Aggregator.Swap.{run_sub_routes, execute_sub_routes, swap, swap_restricted}

module _ {W : Type 0} (h : Host W) (pools : Pools W) (self a : Address) (tokens : TokenLaws h)
    (laws : PoolLaws h pools self a) (apart : self ≢ a) where
  run_sub_routes-Kept :
      (routes : List SubRoute) (base : ℕ) (total : ℤ) (depth : ℕ) (s₀ s : Env Storage W)
      → Kept h a s₀.world s.world
      → Ensures
          (λ _ s'. Kept h a s₀.world s'.world)
          (run_sub_routes h pools self routes base total depth)
          s
  unfolding run_sub_routes
  run_sub_routes-Kept [] base total depth s₀ s k = Ensures-pure _ k
  run_sub_routes-Kept (sr ∷ rest) base total depth s₀ s k =
      Ensures-bind _ _
        (execute_path-Kept h pools self a tokens laws apart sr.steps sr.amount_in base depth s₀ s k)
        λ r s' k'. Ensures-unwrap _ _ _ λ total' e. run_sub_routes-Kept rest base total' _ s₀ s' k'

  pub execute_sub_routes-Kept :
      (routes : List SubRoute) (counter : ℕ) (s : Env Storage W)
      → Ensures
          (λ _ s'. Kept h a s.world s'.world)
          (execute_sub_routes h pools self routes counter)
          s
  unfolding execute_sub_routes
  execute_sub_routes-Kept routes counter s =
      Ensures-bind _ _ (run_sub_routes-Kept routes counter (pos 0) 0 s s (Kept-refl h a s.world))
        λ r s' k. Ensures-unwrap _ _ _ λ c e. Ensures-pure _ k

module _ {W : Type 0} (h : Host W) (pools : Pools W) (self user : Address) (tokens : TokenLaws h)
    (laws : PoolLaws h pools self user) (apart : self ≢ user) where
  -- Paying the input, then keeping what one has, then receiving the output.
  pub Traded-of :
      (token_in token_out : Address) (x y : ℤ) {w₀ w₁ w₂ w₃ : W}
      → h.transfer token_in user self x w₀ ≡ some w₁
      → Kept h user w₁ w₂
      → h.transfer token_out self user y w₂ ≡ some w₃
      → Traded h user token_in token_out x y w₀ w₃
  Traded-of token_in token_out x y p k q = record {
    in_token = λ t.
        let kept = rw (transfer-from h tokens token_in user self x p apart t) at (k.in_token t) in
        rw (transfer-to h tokens token_out self user y q apart t) (omega (int_laws, kept));
  }

  pub traded_at :
      (token_in token_out : Address) {x x' y : ℤ} {w₀ w₀' w₁ : W}
      → x ≡ x'
      → w₀ ≡ w₀'
      → Traded h user token_in token_out x y w₀ w₁
      → Traded h user token_in token_out x' y w₀' w₁
  traded_at token_in token_out {y = y} {w₁ = w₁} e e' t =
      subst₂ (λ x w. Traded h user token_in token_out x y w w₁) e e' t

  pub swap-Traded :
      (token_in token_out : Address) (routes : List SubRoute) (min_out : ℤ) (s : Env Storage W)
      → Ensures
          (λ out s'.
            (min_out ≤ℤ out)
            × (pos 0 <ℤ out)
            × All (IsRoute token_in token_out) routes
            × Traded h user token_in token_out (total_amount routes) out s.world s'.world)
          (swap h pools self user token_in token_out routes min_out)
          s
  unfolding swap
  swap-Traded token_in token_out routes min_out s = Ensures-require_auth _ _ _ λ _.
      Ensures-require _ _ _ λ _. Ensures-require _ _ _ λ positive.
        Ensures-bind _ _ (validate_sub_routes-IsRoute token_in token_out routes s) λ total s' v.
          Ensures-call_unit _ _ λ w p.
            Ensures-bind _ _
              (execute_sub_routes-Kept h pools self user tokens laws apart routes 0 _)
              λ r s'' k. Ensures-require _ _ _ λ enough. Ensures-call_unit _ _ λ w' q.
                Ensures-modify _ _ (
                  Ensures-pure _ (
                    leb→le _ _ enough,
                    omega (arith, leb→le _ _ enough, ltb→lt _ _ positive),
                    v.1,
                    traded_at token_in token_out (v.2) (ap (λ (e : Env Storage W). e.world) v.3)
                        (Traded-of token_in token_out total r.0 p k q),
                  ))

-- The venue of the step is in the registry.
abbrev pub IsRegistered : Storage → SwapStep → Type 0
IsRegistered st step = is_venue (dex_tag step.dex_type) step.dex_id st ≡ true

abbrev pub AllRegistered : Storage → List SubRoute → Type 0
AllRegistered st = All (λ sr. All (IsRegistered st) sr.steps)

module _ {W : Type 0} (h : Host W) where
  check_venues-IsRegistered :
      (steps : List SwapStep) (s : Env Storage W)
      → Ensures (λ _ s'. All (IsRegistered s.storage) steps × (s' ≡ s)) (check_venues h steps) s
  unfolding check_venues
  check_venues-IsRegistered [] s = Ensures-pure _ (tt, refl)
  check_venues-IsRegistered (step ∷ rest) s = Ensures-load _ _ (
      Ensures-require _ _ _ λ registered.
        Ensures-weaken (check_venues-IsRegistered rest s) λ _ s' q. ((registered, q.0), q.1))

  validate_registered_venues-IsRegistered :
      (routes : List SubRoute) (s : Env Storage W)
      → Ensures
          (λ _ s'. AllRegistered s.storage routes × (s' ≡ s))
          (validate_registered_venues h routes)
          s
  unfolding validate_registered_venues
  validate_registered_venues-IsRegistered [] s = Ensures-pure _ (tt, refl)
  validate_registered_venues-IsRegistered (sr ∷ rest) s =
      Ensures-bind _ _ (check_venues-IsRegistered sr.steps s) λ _ s' q.
        Ensures-weaken (validate_registered_venues-IsRegistered rest s') λ _ s'' r.
          ((q.0, subst (λ (z : Env Storage W). AllRegistered z.storage rest) q.1 r.0), r.1 ∙ q.1)

module _ {W : Type 0} (h : Host W) (pools : Pools W) (self user : Address) (tokens : TokenLaws h)
    (laws : PoolLaws h pools self user) (apart : self ≢ user) where
  -- A swap that succeeds, for a user that is not the contract, over tokens and pools that keep the
  -- host's rules: the routes all lead from the one token to the other, the user receives the
  -- output that is returned, which is positive and at least the minimum asked for, pays at most the
  -- sum of the routes' inputs, and loses no other token, whatever the pools on the way do.
  pub swap_safe :
      (token_in token_out : Address) (routes : List SubRoute) (min_out : ℤ) (s : Env Storage W)
      {out : ℤ} {s' : Env Storage W}
      → swap h pools self user token_in token_out routes min_out s ≡ ok (out, s')
      → (min_out ≤ℤ out)
        × (pos 0 <ℤ out)
        × All (IsRoute token_in token_out) routes
        × Traded h user token_in token_out (total_amount routes) out s.world s'.world
  swap_safe token_in token_out routes min_out s {out} {s'} =
      (swap-Traded h pools self user tokens laws apart token_in token_out routes min_out
          s).on_success
        out s'

  -- A restricted swap that succeeds, for a user that is not the contract, over tokens and pools that
  -- keep the host's rules: every hop of every route goes to a venue that the administrator has
  -- registered for its kind of pool, the routes all lead from the one token to the other, the plain
  -- swap with the same arguments succeeds from the same state with the same output and the same new
  -- state, the user receives that output, which is positive and at least the minimum, pays at most the
  -- sum of the routes' inputs, and loses no other token, whatever the pools on the way do.
  pub swap_restricted_safe :
      (token_in token_out : Address) (routes : List SubRoute) (min_out : ℤ) (s : Env Storage W)
      {out : ℤ} {s' : Env Storage W}
      → swap_restricted h pools self user token_in token_out routes min_out s ≡ ok (out, s')
      → AllRegistered s.storage routes
        × (min_out ≤ℤ out)
        × (pos 0 <ℤ out)
        × Traded h user token_in token_out (total_amount routes) out s.world s'.world
        × All (IsRoute token_in token_out) routes
        × (swap h pools self user token_in token_out routes min_out s ≡ ok (out, s'))
  unfolding swap_restricted
  swap_restricted_safe token_in token_out routes min_out s {out} {s'} e =
      let (registered, swapped) = split.on_success out s' e in
      let safe = swap_safe token_in token_out routes min_out s swapped in
      (registered, safe.0, safe.1, safe.3, safe.2, swapped)
    where
      split :
          Ensures
            (λ out s'.
              AllRegistered s.storage routes
              × (swap h pools self user token_in token_out routes min_out s ≡ ok (out, s')))
            (swap_restricted h pools self user token_in token_out routes min_out)
            s
      split = Ensures-bind _ _ (validate_registered_venues-IsRegistered h routes s) λ _ t v.
          Ensures-self λ out s' e. (
            v.0,
            subst (λ z. swap h pools self user token_in token_out routes min_out z ≡ ok (out, s'))
                v.1 e,
          )
