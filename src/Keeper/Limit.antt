-- ===== src/Keeper/Limit.antt =====
-- crates/limit-keeper/src/limit.rs: the minimum that a keeper asks for, beside the escrow's.
use stellar_dex_agg.Prelude.{
  ℕ, ◌≡◌, refl, Option, none, some, ℤ, pos, ◌/ℤ◌, ◌≤ℤ◌, ◌<ℤ◌, leb_ℤ, ltb_ℤ, ◌&&◌, if◌then◌else◌,
  checked_mul, i128_max, le→leb, lt→ltb,
}
use stellar_dex_agg.Escrow.Limit

abbrev pub rate_scale_e7 : ℕ
rate_scale_e7 = 10_000_000

-- `none` is a panic of an assertion, or of the multiplication.
unfoldable pub required_min_out : ℤ → ℤ → Option ℤ
required_min_out amount_in limit_out_per_in_e7 =
    if leb_ℤ (pos 0) amount_in && ltb_ℤ (pos 0) limit_out_per_in_e7
    then elim (checked_mul amount_in limit_out_per_in_e7) [
      | none ↦ none
      | some value ↦ some (value /ℤ pos rate_scale_e7)
    ]
    else none

-- For an amount that is not negative and a positive rate: the keeper's minimum is the escrow's, or the
-- keeper stops, where the escrow asks for the largest i128.
pub keeper_minimum_agrees :
    (x rate : ℤ)
    → pos 0 ≤ℤ x
    → pos 0 <ℤ rate
    → required_min_out x rate
      ≡ elim (checked_mul x rate) [ none ↦ none | some _ ↦ some (Limit.required_min_out x rate) ]
unfolding required_min_out Limit.required_min_out
keeper_minimum_agrees x rate nonneg positive =
    rw (le→leb _ _ nonneg, lt→ltb _ _ positive) (go (checked_mul x rate) (checked_mul x rate) refl)
  where
    go :
        (o p : Option ℤ)
        → p ≡ o
        → ◌≡◌ {A = Option ℤ}
            (elim o [ none ↦ none | some value ↦ some (value /ℤ pos rate_scale_e7) ])
            (elim o [
              | none ↦ none
              | some _ ↦ some (elim p [ none ↦ i128_max | some value ↦ value /ℤ pos rate_scale_e7 ])
            ])
    go none p e = refl
    go (some value) p e = rw e refl
