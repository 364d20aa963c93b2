-- ===== src/Tests/StableMath.antt =====
-- Quotes of a small pool.
use stellar_dex_agg.Prelude.{◌<◌, ◌≡◌, refl, arith, some, [], ◌∷◌}
use stellar_dex_agg.StableMath.{
  StablePool, get_d, get_dy, precision_mul, xp, quote, get_y, newton_d, newton_y, ◌>>=◌,
}
use stellar_dex_agg.StableMath.Bounds.{get_dy_below_reserve}

abbrev pool : StablePool
pool = record {
  reserves = 1_000_000 ∷ 1_000_000 ∷ [];
  decimals = 7 ∷ 7 ∷ [];
  amp = 85;
  fee_bps = 30;
}

quoted : get_dy pool 0 1 1000 ≡ some 996
unfolding get_dy precision_mul xp quote get_y get_d newton_d newton_y ◌>>=◌
quoted = refl

get_dy_below_reserve_example : 996 < 1_000_000
get_dy_below_reserve_example =
    get_dy_below_reserve pool 0 1 1000 1_000_000 996 refl (omega arith) quoted
