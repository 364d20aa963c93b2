-- ===== src/Aggregator/Invoke/Kept.antt =====
-- contracts/aggregator/src/invoke.rs: a hop and a path take nothing from an account that stands by.
use stellar_dex_agg.Prelude.{Bool, ◌≢◌, ℤ, List, [], ◌∷◌, ◌+◌, ℕ}
use stellar_dex_agg.Soroban.Action.{Env}
use stellar_dex_agg.Soroban.Ensures.{
  Ensures, Ensures-pure, Ensures-unwrapped, Ensures-bind, Ensures-require, Ensures-branch,
  Ensures-observe, Ensures-modify, Ensures-effect, Ensures-call, Ensures-call_unit,
}
use stellar_dex_agg.Soroban.Host.{Address, SubInvocation, Host, Pools}
use stellar_dex_agg.Soroban.Laws.{
  TokenLaws, PoolLaws, Kept, Kept-trans, transfer-Kept, authorize-Kept,
}
use stellar_dex_agg.SharedTypes.{
  aquarius, soroswap_pair, phoenix, sushi, comet_dex, DexType, SwapStep,
}
use stellar_dex_agg.Aggregator.Storage.{Storage}
use stellar_dex_agg.Aggregator.Invoke.{
  received_since, swap_aquarius, pair_swap, swap_soroswap, swap_phoenix, swap_sushi, swap_comet,
  dispatch, execute_step_inner, execute_step, execute_steps, execute_path,
}

module _ {W : Type 0} (h : Host W) (pools : Pools W) (self a : Address) (tokens : TokenLaws h)
    (laws : PoolLaws h pools self a) (apart : self ≢ a) where
  abbrev KeptFrom : {A : Type 0} → Env Storage W → A → Env Storage W → Type 0
  KeptFrom s _ s' = Kept h a s.world s'.world

  received_since-Kept :
      (t : Address) (x : ℤ) (s₀ s : Env Storage W)
      → Kept h a s₀.world s.world
      → Ensures (KeptFrom s₀) (received_since h self t x) s
  received_since-Kept t x s₀ s k = Ensures-observe _ _ (Ensures-unwrapped _ _ λ b e. k)

  -- the authorization that stands before a call
  after_authorize :
      (i : SubInvocation) (w : W) {w' : W}
      → Kept h a (h.authorize_as_current_contract i w) w'
      → Kept h a w w'
  after_authorize i w = Kept-trans h (authorize-Kept h tokens i a w)

  swap_aquarius-Kept :
      (step : SwapStep) (x : ℤ) (s : Env Storage W)
      → Ensures (KeptFrom s) (swap_aquarius h pools self step x) s
  unfolding swap_aquarius
  swap_aquarius-Kept step x s = Ensures-effect _ _ (
      Ensures-call _ _
        λ r w e. Ensures-pure _ (after_authorize _ s.world (laws.aquarius_kept _ _ _ _ _ _ _ _ e)))

  pair_swap-Kept :
      (step : SwapStep) (x : ℤ) (a2b : Bool) (out : ℤ) (s₀ s : Env Storage W)
      → Kept h a s₀.world s.world
      → Ensures (KeptFrom s₀) (pair_swap h pools self step x a2b out) s
  unfolding pair_swap
  pair_swap-Kept step x a2b out s₀ s k = Ensures-observe _ _ (
      Ensures-call_unit _ _ λ w e. Ensures-call_unit _ _ λ w' e'. received_since-Kept _ _ s₀ _ (
        Kept-trans h k
          (Kept-trans h (transfer-Kept h tokens _ _ _ a x e apart) (laws.pair_kept _ _ _ _ _ e'))))

  swap_soroswap-Kept :
      (step : SwapStep) (x : ℤ) (s : Env Storage W)
      → Ensures (KeptFrom s) (swap_soroswap h pools self step x) s
  unfolding swap_soroswap
  swap_soroswap-Kept step x s = Ensures-call _ _ λ r w e.
      let k = laws.get_reserves_kept _ _ _ _ e in
      Ensures-branch _ _ _ (λ _. Ensures-pure _ k) (λ _. pair_swap-Kept step x _ _ s _ k)

  swap_phoenix-Kept :
      (step : SwapStep) (x : ℤ) (s : Env Storage W)
      → Ensures (KeptFrom s) (swap_phoenix h pools self step x) s
  unfolding swap_phoenix
  swap_phoenix-Kept step x s = Ensures-observe _ _ (
      Ensures-effect _ _ (
        Ensures-call_unit _ _ λ w e.
          received_since-Kept _ _ s _ (after_authorize _ s.world (laws.phoenix_kept _ _ _ _ _ e))))

  swap_sushi-Kept :
      (step : SwapStep) (x : ℤ) (s : Env Storage W)
      → Ensures (KeptFrom s) (swap_sushi h pools self step x) s
  unfolding swap_sushi
  swap_sushi-Kept step x s = Ensures-call _ _ λ hints w e. Ensures-observe _ _ (
      Ensures-effect _ _ (
        Ensures-call_unit _ _ λ w' e'. received_since-Kept _ _ s _ (
          Kept-trans h (laws.hints_kept _ _ _ _ e)
            (after_authorize _ w (laws.sushi_kept _ _ _ _ _ _ _ e')))))

  swap_comet-Kept :
      (step : SwapStep) (x : ℤ) (s : Env Storage W)
      → Ensures (KeptFrom s) (swap_comet h pools self step x) s
  unfolding swap_comet
  swap_comet-Kept step x s = Ensures-observe _ _ (
      Ensures-effect _ _ (
        Ensures-call _ _ λ r w e.
          Ensures-pure _ (after_authorize _ s.world (laws.comet_kept _ _ _ _ _ _ _ _ _ e))))

  dispatch-Kept :
      (d : DexType) (step : SwapStep) (x : ℤ) (s : Env Storage W)
      → Ensures (KeptFrom s) (dispatch h pools self d step x) s
  dispatch-Kept aquarius = swap_aquarius-Kept
  dispatch-Kept soroswap_pair = swap_soroswap-Kept
  dispatch-Kept phoenix = swap_phoenix-Kept
  dispatch-Kept sushi = swap_sushi-Kept
  dispatch-Kept comet_dex = swap_comet-Kept

  execute_step-Kept :
      (step : SwapStep) (x : ℤ) (hop : ℕ) (s : Env Storage W)
      → Ensures (KeptFrom s) (execute_step h pools self step x hop) s
  unfolding execute_step execute_step_inner
  execute_step-Kept step x hop s =
      Ensures-bind _ _ (dispatch-Kept step.dex_type step x s)
        λ out s' k. Ensures-modify _ _ (Ensures-pure _ k)

  execute_steps-Kept :
      (i : ℕ) (steps : List SwapStep) (x : ℤ) (base depth : ℕ) (s₀ s : Env Storage W)
      → Kept h a s₀.world s.world
      → Ensures (KeptFrom s₀) (execute_steps h pools self i steps x base depth) s
  unfolding execute_steps
  execute_steps-Kept i [] x base depth s₀ s k = Ensures-pure _ k
  execute_steps-Kept i (step ∷ rest) x base depth s₀ s k = Ensures-require _ _ _ λ _.
      Ensures-require _ _ _ λ _. Ensures-bind _ _ (execute_step-Kept step x _ s) λ out s' k'.
        Ensures-require _ _ _
          λ _. execute_steps-Kept (i + 1) rest out base _ s₀ s' (Kept-trans h k k')

  pub execute_path-Kept :
      (steps : List SwapStep) (x : ℤ) (base depth : ℕ) (s₀ s : Env Storage W)
      → Kept h a s₀.world s.world
      → Ensures (KeptFrom s₀) (execute_path h pools self steps x base depth) s
  unfolding execute_path
  execute_path-Kept steps x base depth s₀ s k =
      Ensures-require _ _ _ λ _. execute_steps-Kept 0 steps x base depth s₀ s k
