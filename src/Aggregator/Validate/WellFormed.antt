-- ===== src/Aggregator/Validate/WellFormed.antt =====
-- contracts/aggregator/src/validate.rs: what the validation of routes accepts.
use stellar_dex_agg.Prelude.{
  ◌≡◌, ◌≢◌, refl, sym, ap, subst, ◌∙◌, ◌≤ℤ◌, i128_max, ==→eq, eq→==, checked_nonneg, ltb→lt, lt→ltb,
  List, [], ◌∷◌, ℤ, pos, ◌+ℤ◌, arith, int_laws, zero_+ℤ, +ℤ_assoc, checked-eq_some, All,
}
use stellar_dex_agg.Soroban.Action.{ok, ◌>>=◌, >>=-ok}
use stellar_dex_agg.Soroban.Ensures.{
  Ensures, Ensures-pure, Ensures-weaken, Ensures-bind, Ensures-require, Ensures-unwrap,
  Ensures-refused,
}
use stellar_dex_agg.Soroban.Host.{Address}
use stellar_dex_agg.SharedTypes.{SwapStep, SubRoute}
use stellar_dex_agg.Aggregator.Errors.{invalid_route}
use stellar_dex_agg.Aggregator.Routes.{total_amount, Connects, IsRoute}
use stellar_dex_agg.Aggregator.Validate.{
  last_step, check_connected, check_steps, check_routes, validate_sub_routes,
}

total_amount_nonneg :
    (a b : Address) (routes : List SubRoute)
    → All (IsRoute a b) routes
    → pos 0 ≤ℤ total_amount routes
total_amount_nonneg a b [] h = omega arith
total_amount_nonneg a b (sr ∷ rest) (h, hs) =
    omega (int_laws, total_amount_nonneg a b rest hs, h.positive)

module _ {S : Type 0} where
  check_connected-Connects :
      (previous : SwapStep) (rest : List SwapStep) (s : S)
      → Ensures
          (λ _ s'. Connects previous.token_out rest (last_step previous rest).token_out × (s' ≡ s))
          (check_connected previous rest)
          s
  unfolding check_connected
  check_connected-Connects previous [] s = Ensures-pure _ (refl, refl)
  check_connected-Connects previous (step ∷ rest) s =
      Ensures-require _ _ _
        λ e. Ensures-weaken (check_connected-Connects step rest s) λ _ s' q. ground (arith, q)

  check_steps-Connects :
      (a b : Address) (steps : List SwapStep) (s : S)
      → Ensures (λ _ s'. (steps ≢ []) × Connects a steps b × (s' ≡ s)) (check_steps a b steps) s
  unfolding check_steps
  check_steps-Connects a b [] s = Ensures-refused invalid_route
  check_steps-Connects a b (first ∷ rest) s = Ensures-require _ _ _ λ e. Ensures-require _ _ _ λ e'.
      Ensures-weaken (check_connected-Connects first rest s) λ _ s' q.
        (λ h. cc, (==→eq _ _ e, subst (Connects first.token_out rest) (==→eq _ _ e') q.0), q.1)

  check_routes-IsRoute :
      (a b : Address) (routes : List SubRoute) (total : ℤ) (s : S)
      → Ensures
          (λ sum s'. (sum ≡ total +ℤ total_amount routes) × All (IsRoute a b) routes × (s' ≡ s))
          (check_routes a b total routes)
          s
  unfolding check_routes
  check_routes-IsRoute a b [] total s = Ensures-pure _ (omega int_laws, tt, refl)
  check_routes-IsRoute a b (sr ∷ rest) total s = Ensures-require _ _ _ λ positive.
      Ensures-unwrap _ _ _ λ total' e.
        Ensures-bind _ _ (check_steps-Connects a b sr.steps s) λ _ s' q.
          Ensures-weaken (check_routes-IsRoute a b rest total' s') λ sum s'' r. (
            r.0 ∙ ap (λ x. x +ℤ total_amount rest) (checked-eq_some _ _ e) ∙ +ℤ_assoc _ _ _,
            (record { positive = ltb→lt _ _ positive; not_empty = q.0; connects = q.1 }, r.1),
            r.2 ∙ q.2,
          )

  pub validate_sub_routes-IsRoute :
      (a b : Address) (routes : List SubRoute) (s : S)
      → Ensures
          (λ total s'.
            (routes ≢ []) × All (IsRoute a b) routes × (total ≡ total_amount routes) × (s' ≡ s))
          (validate_sub_routes a b routes)
          s
  unfolding validate_sub_routes
  validate_sub_routes-IsRoute a b [] s = Ensures-require _ _ _ λ e. cc
  validate_sub_routes-IsRoute a b (sr ∷ rest) s = Ensures-require _ _ _ λ _.
      Ensures-weaken (check_routes-IsRoute a b (sr ∷ rest) (pos 0) s)
        λ total s' r. (λ h. cc, r.1, r.0 ∙ zero_+ℤ _, r.2)

  check_connected-ok :
      (previous : SwapStep) (rest : List SwapStep) (b : Address) (s : S)
      → Connects previous.token_out rest b
      → (check_connected previous rest s ≡ ok (tt, s)) × ((last_step previous rest).token_out ≡ b)
  unfolding check_connected ◌>>=◌
  check_connected-ok previous [] b s h = (refl, h)
  check_connected-ok previous (step ∷ rest) b s (e, h) =
      let (r, l) = check_connected-ok step rest b s h in (rw (eq→== _ _ (sym e)) r, l)

  check_steps-ok :
      (a b : Address) (steps : List SwapStep) (s : S)
      → steps ≢ []
      → Connects a steps b
      → check_steps a b steps s ≡ ok (tt, s)
  unfolding check_steps ◌>>=◌
  check_steps-ok a b [] s ne h = absurd (ne refl)
  check_steps-ok a b (first ∷ rest) s ne (e, h) =
      let (r, l) = check_connected-ok first rest b s h in rw (eq→== _ _ e, eq→== _ _ l) r

  check_routes-ok :
      (a b : Address) (routes : List SubRoute) (acc : ℤ) (s : S)
      → All (IsRoute a b) routes
      → pos 0 ≤ℤ acc
      → acc +ℤ total_amount routes ≤ℤ i128_max
      → check_routes a b acc routes s ≡ ok (acc +ℤ total_amount routes, s)
  unfolding check_routes ◌>>=◌
  check_routes-ok a b [] acc s h n m = ap (λ x. ok (x, s)) (omega int_laws)
  check_routes-ok a b (sr ∷ rest) acc s (h, hs) n m =
      let nn = total_amount_nonneg a b rest hs in
      let fits : acc +ℤ sr.amount_in ≤ℤ i128_max = omega (int_laws, h.positive) in
      let lower : pos 0 ≤ℤ acc +ℤ sr.amount_in = omega (int_laws, h.positive) in
      rw (lt→ltb _ _ h.positive, checked_nonneg _ lower fits)
        (>>=-ok (check_steps a b sr.steps) (λ _. check_routes a b (acc +ℤ sr.amount_in) rest)
            (check_steps-ok a b sr.steps s h.not_empty h.connects)
          ∙ check_routes-ok a b rest (acc +ℤ sr.amount_in) s hs lower (omega int_laws)
          ∙ ap (λ x. ok (x, s)) (+ℤ_assoc _ _ _))

  -- Routes that the validation accepts: at least one, each with a positive input and steps that lead
  -- from the one token to the other. It returns the sum of the inputs and changes nothing.
  validate_sub_routes_sound :
      (a b : Address) (routes : List SubRoute) (s : S) {total : ℤ} {s' : S}
      → validate_sub_routes a b routes s ≡ ok (total, s')
      → (routes ≢ []) × All (IsRoute a b) routes × (total ≡ total_amount routes) × (s' ≡ s)
  validate_sub_routes_sound a b routes s {total} {s'} =
      (validate_sub_routes-IsRoute a b routes s).on_success total s'

  -- At least one route, each with a positive input and steps that lead from the one token to the
  -- other: the validation accepts them if the sum of the inputs fits an i128, and returns that sum.
  pub validate_sub_routes_complete :
      (a b : Address) (routes : List SubRoute) (s : S)
      → routes ≢ []
      → All (IsRoute a b) routes
      → total_amount routes ≤ℤ i128_max
      → validate_sub_routes a b routes s ≡ ok (total_amount routes, s)
  unfolding validate_sub_routes ◌>>=◌
  validate_sub_routes_complete a b [] s ne h m = absurd (ne refl)
  validate_sub_routes_complete a b (sr ∷ rest) s ne h m =
      check_routes-ok a b (sr ∷ rest) (pos 0) s h (omega arith) (omega int_laws)
      ∙ ap (λ x. ok (x, s)) (zero_+ℤ _)
