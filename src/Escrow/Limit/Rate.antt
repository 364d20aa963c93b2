-- ===== src/Escrow/Limit/Rate.antt =====
-- contracts/order-escrow/src/lib.rs, `required_min_out`: the price of a fill, and of several.
use stellar_dex_agg.Prelude.{
  ℕ, ◌+◌, ◌*◌, ◌/◌, ◌≤◌, ◌≡◌, ◌∙◌, ap, refl, some, checked, checked_mul, List, [], ◌∷◌, length, ℤ,
  pos, ◌+ℤ◌, ◌≤ℤ◌, arith, int_laws, i128_top, checked-pos, pos-+ℤ, pos-*ℤ, pos-/ℤ,
}
use stellar_dex_agg.Escrow.Storage.{rate_scale_e7}
use stellar_dex_agg.Escrow.Limit.{required_min_out}

required_min_out-eq :
    (x rate : ℕ)
    → x * rate ≤ i128_top
    → required_min_out (pos x) (pos rate) ≡ pos (x * rate / rate_scale_e7)
unfolding required_min_out
required_min_out-eq x rate fits =
    let product : checked_mul (pos x) (pos rate) ≡ some (pos (x * rate)) =
      ap checked (pos-*ℤ x rate) ∙ checked-pos (x * rate) fits in
    ground (arith, product, pos-/ℤ (x * rate) rate_scale_e7)

-- What several fills put in together, and what is required of them one by one.
abbrev pub sum : List ℕ → ℕ
sum [] = 0
sum (x ∷ xs) = x + sum xs

abbrev floors : ℕ → List ℕ → ℕ
floors rate [] = 0
floors rate (x ∷ xs) = x * rate / rate_scale_e7 + floors rate xs

floors-bounds :
    (rate : ℕ) (xs : List ℕ)
    → (floors rate xs * rate_scale_e7 ≤ sum xs * rate)
      × (sum xs * rate ≤ (floors rate xs + length xs) * rate_scale_e7)
floors-bounds rate [] = (omega arith, omega arith)
floors-bounds rate (x ∷ xs) =
    let rest = floors-bounds rate xs in (omega (arith, rest.0), omega (arith, rest.1))

-- What is required of fills of the amounts, one by one.
abbrev pub sum_required : ℕ → List ℕ → ℤ
sum_required rate [] = pos 0
sum_required rate (x ∷ xs) = required_min_out (pos x) (pos rate) +ℤ sum_required rate xs

sum_required-eq :
    (rate : ℕ) (xs : List ℕ)
    → sum xs * rate ≤ i128_top
    → sum_required rate xs ≡ pos (floors rate xs)
sum_required-eq rate [] fits = refl
sum_required-eq rate (x ∷ xs) fits =
    rw (required_min_out-eq x rate (omega arith), sum_required-eq rate xs (omega arith))
      (pos-+ℤ _ _)

-- Filling in parts costs the owner at most one unit of output for each part: for any amounts whose
-- sum times the rate fits an i128, what the fills of the amounts one by one require is at most what
-- one fill of the sum requires, and that is at most theirs plus the number of fills.
pub required_min_out_split :
    (rate : ℕ) (xs : List ℕ)
    → sum xs * rate ≤ i128_top
    → (sum_required rate xs ≤ℤ required_min_out (pos (sum xs)) (pos rate))
      × (required_min_out (pos (sum xs)) (pos rate) ≤ℤ sum_required rate xs +ℤ pos (length xs))
required_min_out_split rate xs fits =
    let bounds = floors-bounds rate xs in
    rw (required_min_out-eq (sum xs) rate fits, sum_required-eq rate xs fits)
      (omega (arith, bounds.0), omega (int_laws, bounds.1))
