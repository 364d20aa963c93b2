-- ===== src/Aggregator/Routes.antt =====
-- Routes as the statements see them: what their inputs add up to, and which of them lead from one
-- token to another.
use stellar_dex_agg.Prelude.{◌≡◌, ◌≢◌, List, [], ◌∷◌, ℤ, pos, ◌+ℤ◌, ◌<ℤ◌}
use stellar_dex_agg.Soroban.Host.{Address}
use stellar_dex_agg.SharedTypes.{SwapStep, SubRoute}

abbrev pub total_amount : List SubRoute → ℤ
total_amount [] = pos 0
total_amount (sr ∷ rest) = sr.amount_in +ℤ total_amount rest

abbrev pub IsPositive : SubRoute → Type 0
IsPositive sr = pos 0 <ℤ sr.amount_in

-- Each step takes what the step before it gave, from the first token to the last.
abbrev pub Connects : Address → List SwapStep → Address → Type 0
Connects a [] b = a ≡ b
Connects a (step ∷ rest) b = (step.token_in ≡ a) × Connects step.token_out rest b

pub record IsRoute (token_in token_out : Address) (sr : SubRoute) : Type 0 where
  pub positive : IsPositive sr
  pub not_empty : sr.steps ≢ []
  pub connects : Connects token_in sr.steps token_out
