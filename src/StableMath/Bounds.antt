-- ===== src/StableMath/Bounds.antt =====
-- crates/dex-adapters/src/stable_math.rs: what a quote can be.
use stellar_dex_agg.Prelude.{
  ℕ, zero, suc, ◌-◌, ◌*◌, ◌/◌, ◌≤◌, ◌<◌, ◌≡◌, ◌∙◌, sym, ap, subst, arith, some, some-injective,
  List, [], ◌∷◌, length, ==→eq,
}
use native.Mathlib.Decide.{dec_lt}
use native.Mathlib.Nat.{mul-le-mul_right}
use stellar_dex_agg.Prelude.Partial.{Gives, Gives-bind, Gives-if, Gives-some}
use stellar_dex_agg.StableMath.{
  StablePool, nth, scaled, xp, precision_mul, output_for, quote, get_dy,
}

scaled-length : (rs ms : List ℕ) → length (scaled rs ms) ≤ length rs
scaled-length [] ms = omega arith
scaled-length (r ∷ rs) [] = omega arith
scaled-length (r ∷ rs) (m ∷ ms) = ground (arith, scaled-length rs ms)

-- If no balance was lost, each is its reserve times its multiplier.
nth-scaled :
    (j : ℕ) (rs ms : List ℕ) (r x m : ℕ)
    → length (scaled rs ms) ≡ length rs
    → nth j rs ≡ some r
    → nth j (scaled rs ms) ≡ some x
    → nth j ms ≡ some m
    → x ≡ r * m
nth-scaled j [] ms r x m full er ex em = cc
nth-scaled j (r' ∷ rs) [] r x m full er ex em = cc
nth-scaled zero (r' ∷ rs) (m' ∷ ms) r x m full er ex em = ground (arith, scaled-length rs ms)
nth-scaled (suc j) (r' ∷ rs) (m' ∷ ms) r x m full er ex em =
    ground (arith, scaled-length rs ms, nth-scaled j rs ms r x m)

quotient_below : (a r m : ℕ) → a < r * m → a / m < r
quotient_below a r zero lt = omega arith
quotient_below a r (suc m) lt = elim (dec_lt (a / suc m) r) [
  | yes below ↦ below
  | no above ↦
      let le : r ≤ a / suc m = omega arith in absurd (omega (arith, mul-le-mul_right (suc m) le))
]

-- The output is less than the reserve.
output_for-below : (y r m dy : ℕ) → output_for y (r * m) m ≡ some dy → 0 < r → dy < r
output_for-below y r m dy e p = ground (arith, quotient_below (r * m - y - 1) r m)

quote-below :
    (pool : StablePool) (i j dx : ℕ) (pmul : List ℕ) (r : ℕ)
    → length (scaled pool.reserves pmul) ≡ length pool.reserves
    → nth j pool.reserves ≡ some r
    → 0 < r
    → Gives (λ dy. dy < r) (quote pool i j dx pmul (scaled pool.reserves pmul))
unfolding quote
quote-below pool i j dx pmul r full er p = Gives-bind _ _ λ fee _. Gives-bind _ _ λ net _.
    Gives-bind _ _ λ pmul_i _. Gives-bind _ _ λ xp_i _. Gives-bind _ _ λ y _.
      Gives-bind _ _ λ x at_x. Gives-bind _ _ λ m at_m. record {
        on_some = λ dy out.
            let balance = nth-scaled j pool.reserves pmul r x m full er at_x at_m in
            output_for-below y r m dy (subst (λ z. output_for y z m ≡ some dy) balance out) p;
      }

xp-scaled :
    (pool : StablePool) (pmul : List ℕ)
    → precision_mul pool ≡ some pmul
    → Gives (λ xs. xs ≡ scaled pool.reserves pmul) (xp pool)
unfolding xp
xp-scaled pool pmul e =
    Gives-bind _ _
      λ pmul' e'. Gives-some _ (ap (scaled pool.reserves) (some-injective _ _ (sym e' ∙ e)))

get_dy-below :
    (pool : StablePool) (i j dx r : ℕ)
    → nth j pool.reserves ≡ some r
    → 0 < r
    → Gives (λ dy. dy < r) (get_dy pool i j dx)
unfolding get_dy
get_dy-below pool i j dx r er p =
    Gives-if _ _ _ (λ _. Gives-some 0 p)
      λ _. Gives-bind _ _ λ pmul e. Gives-bind _ _ λ xs e'.
        let same = (xp-scaled pool pmul e).on_some xs e' in
        Gives-if _ _ _
          (λ full.
            subst (λ ys. Gives (λ dy. dy < r) (quote pool i j dx pmul ys)) (sym same)
              (quote-below pool i j dx pmul r
                (subst (λ ys. length ys ≡ length pool.reserves) same (==→eq _ _ full)) er p))
          (λ _. Gives-some 0 p)

-- A quote never reaches the reserve of the output token: whatever the amount, the indices, the
-- amplification, the decimals and the fee are, if the reserve is not empty and the quote does not
-- panic, less than the reserve is quoted.
pub get_dy_below_reserve :
    (pool : StablePool) (i j dx r dy : ℕ)
    → nth j pool.reserves ≡ some r
    → 0 < r
    → get_dy pool i j dx ≡ some dy
    → dy < r
get_dy_below_reserve pool i j dx r dy er p e = (get_dy-below pool i j dx r er p).on_some dy e
