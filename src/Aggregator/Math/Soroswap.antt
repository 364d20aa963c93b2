-- ===== src/Aggregator/Math/Soroswap.antt =====
-- contracts/aggregator/src/math.rs, `soroswap_fee` and `soroswap_get_amount_out`: the output that the
-- contract asks of a pair never breaks the pair's invariant and never empties it.
use stellar_dex_agg.Prelude.{
  ℕ, zero, suc, ◌+◌, ◌-◌, ◌*◌, ◌/◌, ◌≤◌, ◌<◌, ◌≡◌, pos, ◌/ℤ◌, arith, i128_top, checked-pos, pos-+ℤ,
  pos--ℤ, pos-*ℤ, pos-/ℤ, if◌then◌else◌, leb_ℤ, i128_max, checked_mul, checked_add,
}
use native.Mathlib.Decide.{dec_lt}
use native.Mathlib.Nat.{mul-le-mul, mul-le-mul_right, le_refl}
use stellar_dex_agg.Aggregator.Math.{unwrap_or, soroswap_fee, soroswap_get_amount_out}

-- The fee and the output over the natural numbers, with no bound on the size of a number.
abbrev fee_spec : ℕ → ℕ
fee_spec a = (a * 3 + 999) / 1000

abbrev out_spec : (a ri ro : ℕ) → ℕ
out_spec a ri ro = (a - fee_spec a) * ro / (ri + (a - fee_spec a))

soroswap_fee-eq :
    (a : ℕ) → suc a * 3 + 999 ≤ i128_top → soroswap_fee (pos (suc a)) ≡ pos (fee_spec (suc a))
unfolding soroswap_fee
soroswap_fee-eq a h =
    rw
      (
        pos-*ℤ,
        checked-pos (suc a * 3) (omega arith),
        pos-+ℤ,
        checked-pos (suc a * 3 + 999) h,
        pos-/ℤ,
      )
      (ground arith)

-- with `t` for what stays in the pair's reserve
reserve_product : (l q ri t : ℕ) → q * (ri + l) ≤ l * (q + t) → ri * (q + t) ≤ (ri + l) * t
reserve_product l q ri t h = omega arith

-- The pair's check, from the invariant of the exact division.
fee_product :
    (l q ri t a : ℕ)
    → q * (ri + l) ≤ l * (q + t)
    → l * 1000 ≤ a * 997
    → ri * (q + t) * 1000 ≤ (ri * 1000 + a * 997) * t
fee_product l q ri t a h k = omega (arith, reserve_product l q ri t h, mul-le-mul (le_refl t) k)

fee_product_at :
    (l q ri ro t a : ℕ)
    → q + t ≡ ro
    → q * (ri + l) ≤ l * ro
    → l * 1000 ≤ a * 997
    → ri * ro * 1000 ≤ (ri * 1000 + a * 997) * t
fee_product_at l q ri ro t a e h k = rw (← e) (fee_product l q ri t a (rw (← e) at h) k)

-- The output is below the reserve, since the divisor is above the net input.
below_reserve : (l q ri ro : ℕ) → 0 < ri → 0 < ro → q * (ri + l) ≤ l * ro → q < ro
below_reserve l q ri ro p r h = elim (dec_lt q ro) [
  | yes lt ↦ lt
  | no ge ↦
      let le : ro ≤ q = omega arith in
      absurd (omega (arith, mul-le-mul_right (ri + l) le, mul-le-mul p r))
]

sub_le : (m n : ℕ) → m - n ≤ m
sub_le m n = omega arith

-- Division, in the form in which the products are compared.
div_bounds : (n d : ℕ) → 0 < d → (n / d * d ≤ n) × (n < (n / d + 1) * d)
div_bounds n d p = (omega arith, omega arith)

-- The output stays below the reserve, keeps the pair's invariant, and is the largest that the net
-- input `l` pays for.
net_bounds :
    (l a ri ro : ℕ)
    → 0 < ri
    → 0 < ro
    → l * 1000 ≤ a * 997
    → let q = l * ro / (ri + l) in
      (q < ro) × (ri * ro * 1000 ≤ (ri * 1000 + a * 997) * (ro - q)) × (l * ro < (q + 1) * (ri + l))
net_bounds l a ri ro p r k =
    let q = l * ro / (ri + l) in
    let (le, lt) = div_bounds (l * ro) (ri + l) (omega arith) in
    let below = below_reserve l q ri ro p r le in
    (below, fee_product_at l q ri ro (ro - q) a (omega arith) le k, lt)

-- the part of the function behind the fee
out_of_net :
    (l ri ro : ℕ)
    → l * ro ≤ i128_top
    → ri + l ≤ i128_top
    → (if leb_ℤ (pos l) (pos 0)
        then pos 0
        else unwrap_or (checked_mul (pos l) (pos ro)) i128_max
          /ℤ unwrap_or (checked_add (pos ri) (pos l)) i128_max)
      ≡ pos (l * ro / (ri + l))
out_of_net zero ri ro h k = ground arith
out_of_net (suc l) ri ro h k =
    rw (pos-*ℤ, checked-pos (suc l * ro) h, pos-+ℤ, checked-pos (ri + suc l) k, pos-/ℤ)
      (ground arith)

soroswap_get_amount_out-eq :
    (a ri ro : ℕ)
    → 0 < ri
    → 0 < ro
    → a * 3 + 999 ≤ i128_top
    → a * ro ≤ i128_top
    → ri + a ≤ i128_top
    → soroswap_get_amount_out (pos a) (pos ri) (pos ro) ≡ pos (out_spec a ri ro)
unfolding soroswap_get_amount_out
soroswap_get_amount_out-eq zero ri ro p r h k m = ground arith
soroswap_get_amount_out-eq (suc a) ri ro p r h k m =
    rw
      (
        soroswap_fee-eq a h,
        pos--ℤ (suc a) (fee_spec (suc a)) (omega arith),
        checked-pos (suc a - fee_spec (suc a)) (omega arith),
      )
      (ground (
        arith,
        out_of_net (suc a - fee_spec (suc a)) ri ro,
        mul-le-mul (sub_le (suc a) (fee_spec (suc a))) (le_refl ro),
      ))

-- For a reserve that is not empty, and amounts small enough that no product overflows: the output is
-- a number below the output reserve, the reserves after the swap pass the pair's check with its fee
-- of 3 in 1000, and the output is the largest that the input net of the rounded-up fee pays for.
pub soroswap_get_amount_out_bounds :
    (a ri ro : ℕ)
    → 0 < ri
    → 0 < ro
    → a * 3 + 999 ≤ i128_top
    → a * ro ≤ i128_top
    → ri + a ≤ i128_top
    → (q : ℕ) × (soroswap_get_amount_out (pos a) (pos ri) (pos ro) ≡ pos q)
      × (q < ro)
      × (ri * ro * 1000 ≤ (ri * 1000 + a * 997) * (ro - q))
      × ((a - (a * 3 + 999) / 1000) * ro < (q + 1) * (ri + (a - (a * 3 + 999) / 1000)))
soroswap_get_amount_out_bounds a ri ro p r h k m =
    let (below, check, largest) = net_bounds (a - fee_spec a) a ri ro p r (omega arith) in
    (out_spec a ri ro, soroswap_get_amount_out-eq a ri ro p r h k m, below, check, largest)
