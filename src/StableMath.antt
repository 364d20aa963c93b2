-- ===== src/StableMath.antt =====
-- crates/dex-adapters/src/stable_math.rs: the quote of a StableSwap pool, over u128. `none` is a
-- panic: of plain arithmetic, which the release profile checks, of a division by zero, or of an
-- index.
pub mod Bounds
pub mod Balanced
use stellar_dex_agg.Prelude.{
  ℕ, zero, suc, ◌+◌, ◌-◌, ◌*◌, ◌/◌, ◌^◌, Bool, true, false, ◌||◌, not, Option, none, some, List, [],
  ◌∷◌, length, min, ltb, leb, ◌==◌, if◌then◌else◌, u128_max,
}
unfoldable pub use stellar_dex_agg.Prelude.Partial.{
  u128_in, u128_add, u128_mul, u128_sub, u128_div, saturating_add, saturating_mul, ◌>>=◌,
}

abbrev fee_denominator : ℕ
fee_denominator = 10_000

abbrev pub abs_diff : ℕ → ℕ → ℕ
abs_diff a b = (a - b) + (b - a)

abbrev pub or_else : Option ℕ → ℕ → ℕ
or_else none d = d
or_else (some a) d = a

abbrev pub nth : ℕ → List ℕ → Option ℕ
nth i [] = none
nth zero (x ∷ xs) = some x
nth (suc i) (x ∷ xs) = nth i xs

abbrev pub mul_div : ℕ → ℕ → ℕ → Option ℕ
mul_div a b d = if d == 0 then none else (u128_mul a b >>= λ v. u128_div v d)

pub record StablePool : Type 0 where
  pub reserves : List ℕ
  pub decimals : List ℕ
  pub amp : ℕ
  pub fee_bps : ℕ

-- `iter().max()`
abbrev maximum : List ℕ → Option ℕ
maximum [] = none
maximum (d ∷ ds) = elim (maximum ds) [ none ↦ some d | some e ↦ some (if ltb e d then d else e) ]

abbrev powers : ℕ → List ℕ → Option (List ℕ)
powers max_dec [] = some []
powers max_dec (d ∷ ds) = do
  e ← u128_sub max_dec d
  m ← u128_in (10 ^ e)
  rest ← powers max_dec ds
  some (m ∷ rest)

unfoldable pub precision_mul : StablePool → Option (List ℕ)
precision_mul pool = powers (or_else (maximum pool.decimals) 7) pool.decimals

-- `zip` and `filter_map` over the reserves
abbrev pub scaled : List ℕ → List ℕ → List ℕ
scaled [] ms = []
scaled (r ∷ rs) [] = []
scaled (r ∷ rs) (m ∷ ms) = elim (u128_mul r m) [ none ↦ scaled rs ms | some v ↦ v ∷ scaled rs ms ]

unfoldable pub xp : StablePool → Option (List ℕ)
xp pool = do pmul ← precision_mul pool; some (scaled pool.reserves pmul)

abbrev pub sum : List ℕ → Option ℕ
sum [] = some 0
sum (x ∷ xs) = do rest ← sum xs; u128_add x rest

-- The loop for `d_p`; `none` is its early return of 0.
abbrev pub d_products : (n d d_p : ℕ) → List ℕ → Option ℕ
d_products n d d_p [] = some d_p
d_products n d d_p (x ∷ xs) =
    if x == 0
    then none
    else d_products n d (or_else (mul_div d_p d (saturating_mul x n)) u128_max) xs

-- one round, between the product and the comparison
abbrev pub d_numerator : (ann s n d d_p : ℕ) → ℕ
d_numerator ann s n d d_p =
    saturating_mul (saturating_add (saturating_mul ann s) (saturating_mul d_p n)) d

abbrev pub d_denominator : (ann n d d_p : ℕ) → ℕ
d_denominator ann n d d_p = saturating_add (saturating_mul (ann - 1) d) (saturating_mul (n + 1) d_p)

-- The rounds that are left of the 255.
unfoldable pub newton_d : ℕ → (ann s n d : ℕ) → List ℕ → ℕ
newton_d zero ann s n d xs = d
newton_d (suc k) ann s n d xs = elim (d_products n d d xs) [
  | none ↦ 0
  | some d_p ↦ elim (d_denominator ann n d d_p == 0) [
    | true ↦ d
    | false ↦
        let next = d_numerator ann s n d d_p / d_denominator ann n d d_p in
        elim (leb (abs_diff next d) 1) [ true ↦ next | false ↦ newton_d k ann s n next xs ]
  ]
]

unfoldable pub get_d : ℕ → List ℕ → Option ℕ
get_d amp xs = do
  s ← sum xs
  if s == 0
      then some 0
      else (do ann ← u128_mul amp (length xs); some (newton_d 255 ann s (length xs) s xs))

-- `x_i` of the loop over the balances; `none` is its `continue`.
abbrev balance_at : (in_idx out_idx x i b : ℕ) → Option ℕ
balance_at in_idx out_idx x i b =
    if i == in_idx then some x else if i == out_idx then none else some b

-- That loop from index `i` on, with `c` and `s`; `none` is its early return of 0.
abbrev y_products : (in_idx out_idx x n d i c s : ℕ) → List ℕ → Option (ℕ × ℕ)
y_products in_idx out_idx x n d i c s [] = some (c, s)
y_products in_idx out_idx x n d i c s (b ∷ bs) = elim (balance_at in_idx out_idx x i b) [
  | none ↦ y_products in_idx out_idx x n d (suc i) c s bs
  | some x_i ↦ elim (x_i == 0) [
    | true ↦ none
    | false ↦
        y_products in_idx out_idx x n d (suc i) (or_else (mul_div c d (saturating_mul x_i n)) 0)
          (saturating_add s x_i) bs
  ]
]

-- `2 * y + b - d`
abbrev y_denominator : (b d y : ℕ) → Option ℕ
y_denominator b d y = do double ← u128_mul 2 y; total ← u128_add double b; u128_sub total d

-- The rounds that are left of the 255.
unfoldable pub newton_y : ℕ → (b c d y : ℕ) → Option ℕ
newton_y zero b c d y = some y
newton_y (suc k) b c d y = elim (y_denominator b d y) [
  | none ↦ none
  | some denominator ↦ elim (denominator == 0) [
    | true ↦ some y
    | false ↦
        let next = saturating_add (saturating_mul y y) c / denominator in
        elim (leb (abs_diff next y) 1) [ true ↦ some next | false ↦ newton_y k b c d next ]
  ]
]

unfoldable pub get_y : (amp in_idx out_idx x : ℕ) → List ℕ → Option ℕ
get_y amp in_idx out_idx x xs = do
  d ← get_d amp xs
  ann ← u128_mul amp (length xs)
  elim (y_products in_idx out_idx x (length xs) d 0 d 0 xs) [
    | none ↦ some 0
    | some (c₀, s) ↦ do
      let c = or_else (mul_div c₀ d (saturating_mul ann (length xs))) 0
      q ← u128_div d ann
      b ← u128_add s q
      newton_y 255 b c d d
  ]

-- `dx_fee`, rounded up
abbrev input_fee : (dx fee_bps : ℕ) → Option ℕ
input_fee dx fee_bps = do
  product ← u128_mul dx fee_bps
  raised ← u128_add product fee_denominator
  above ← u128_sub raised 1
  some (above / fee_denominator)

-- The last part of `get_dy`, from the new balance `y`.
abbrev pub output_for : (y xp_j pmul_j : ℕ) → Option ℕ
output_for y xp_j pmul_j = if y == 0 || leb xp_j y then some 0 else u128_div (xp_j - y - 1) pmul_j

-- The part of `get_dy` behind its first three returns.
unfoldable pub quote : StablePool → (i j dx : ℕ) → (pmul xs : List ℕ) → Option ℕ
quote pool i j dx pmul xs = do
  dx_fee ← input_fee dx pool.fee_bps
  dx_after_fee ← u128_sub dx dx_fee
  pmul_i ← nth i pmul
  xp_i ← nth i xs
  let scaled_in = or_else (u128_mul dx_after_fee pmul_i) 0
  y ← get_y pool.amp i j (saturating_add xp_i scaled_in) xs
  xp_j ← nth j xs
  pmul_j ← nth j pmul
  output_for y xp_j pmul_j

unfoldable pub get_dy : StablePool → (i j dx : ℕ) → Option ℕ
get_dy pool i j dx =
    if i == j || leb (length pool.reserves) i || leb (length pool.reserves) j || dx == 0
    then some 0
    else (do
      pmul ← precision_mul pool
      xs ← xp pool
      if length xs == length pool.reserves then quote pool i j dx pmul xs else some 0)
