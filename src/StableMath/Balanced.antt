-- ===== src/StableMath/Balanced.antt =====
-- crates/dex-adapters/src/stable_math.rs, `get_d`: the invariant of a balanced pool.
use stellar_dex_agg.Prelude.{ℕ, zero, suc, List, [], ◌∷◌}

-- A pool whose `n` balances are all the same.
abbrev pub replicate : ℕ → ℕ → List ℕ
replicate zero x = []
replicate (suc n) x = x ∷ replicate n x
