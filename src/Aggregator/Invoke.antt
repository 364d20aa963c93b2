-- ===== src/Aggregator/Invoke.antt =====
-- contracts/aggregator/src/invoke.rs: the calls into the pools, one hop at a time.
pub mod Kept
pub mod Approval
use stellar_dex_agg.Prelude.{
  ℕ, ◌+◌, ◌/◌, Bool, not, ◌&&◌, List, [], ◌∷◌, ℤ, pos, ltb_ℤ, leb_ℤ, ltb, ◌==◌, if◌then◌else◌, min,
  u32_max, i128_max, checked_sub, as_u128, as_i128, saturating_add_u32, saturating_mul_u32,
}
use stellar_dex_agg.Soroban.Action.{
  ◌>>=◌, ◌>>◌, pure, branch, require, unwrap_or_panic, observe, call, call_unit, effect,
}
use stellar_dex_agg.Soroban.Host.{Address, SubInvocation, Host, Pools}
use stellar_dex_agg.SharedTypes.{
  DexType, aquarius, soroswap_pair, phoenix, sushi, comet_dex, SwapStep,
}
use stellar_dex_agg.Aggregator.Errors.{
  invalid_amount, invalid_step, zero_step_output, arithmetic_underflow,
}
use stellar_dex_agg.Aggregator.Storage.{Event, Agg, publish}
use stellar_dex_agg.Aggregator.Admin.{dex_tag}
use stellar_dex_agg.Aggregator.Math.{soroswap_get_amount_out}

-- `comet_approval_ledger`, of the current sequence number
unfoldable pub comet_approval_ledger : ℕ → ℕ
comet_approval_ledger seq = saturating_mul_u32 (saturating_add_u32 (seq / 100_000) 1) 100_000

-- MIN_SQRT_RATIO + 1 and MAX_SQRT_RATIO - 1
abbrev pub sqrt_price_limit : Bool → ℕ
sqrt_price_limit zero_for_one =
    if zero_for_one then 4_295_128_740 else 0xfffd_8963_efd1_fc6a_5064_8849_5d95_1d52_6398_8d25

module _ {W : Type 0} (h : Host W) (self : Address) where
  abbrev pub authorize : SubInvocation → Agg W (Unit {0})
  authorize i = effect (h.authorize_as_current_contract i)

  -- `balance_after.checked_sub(balance_before)`, where the balance is the contract's own
  abbrev pub received_since : Address → ℤ → Agg W ℤ
  received_since token balance_before = do
    balance_after ← observe (h.balance token self)
    unwrap_or_panic (checked_sub balance_after balance_before) arithmetic_underflow

module _ {W : Type 0} (h : Host W) (pools : Pools W) (self : Address) where
  unfoldable pub swap_aquarius : SwapStep → ℤ → Agg W ℤ
  swap_aquarius step amount_in = do
    authorize h self (SubInvocation.transfer step.token_in self step.dex_id amount_in)
    received ←
        call
          (pools.aquarius_swap step.dex_id self self step.in_idx step.out_idx (as_u128 amount_in) 0)
    pure (as_i128 received)

  -- the part of the Soroswap arm behind its early return
  unfoldable pub pair_swap : SwapStep → ℤ → Bool → ℤ → Agg W ℤ
  pair_swap step amount_in a2b expected_out = do
    balance_before ← observe (h.balance step.token_out self)
    call_unit (h.transfer step.token_in self step.dex_id amount_in)
    call_unit (
        pools.pair_swap step.dex_id self (if a2b then pos 0 else expected_out)
          (if a2b then expected_out else pos 0) self)
    received_since h self step.token_out balance_before

  unfoldable pub swap_soroswap : SwapStep → ℤ → Agg W ℤ
  swap_soroswap step amount_in = do
    reserves ← call (pools.get_reserves step.dex_id self)
    let a2b = step.in_idx == 0 && step.out_idx == 1
    let reserve_in = if a2b then reserves.0 else reserves.1
    let reserve_out = if a2b then reserves.1 else reserves.0
    let expected_out = soroswap_get_amount_out amount_in reserve_in reserve_out
    branch (leb_ℤ expected_out (pos 0)) (pure (pos 0)) (pair_swap step amount_in a2b expected_out)

  unfoldable pub swap_phoenix : SwapStep → ℤ → Agg W ℤ
  swap_phoenix step amount_in = do
    balance_before ← observe (h.balance step.token_out self)
    authorize h self (SubInvocation.transfer step.token_in self step.dex_id amount_in)
    call_unit (pools.phoenix_swap step.dex_id self self step.token_in amount_in)
    received_since h self step.token_out balance_before

  unfoldable pub swap_sushi : SwapStep → ℤ → Agg W ℤ
  swap_sushi step amount_in = do
    let zero_for_one = step.in_idx == 0 && step.out_idx == 1
    let price_limit = sqrt_price_limit zero_for_one
    hints ← call (pools.get_oracle_hints step.dex_id self)
    balance_before ← observe (h.balance step.token_out self)
    authorize h self (SubInvocation.transfer step.token_in self step.dex_id amount_in)
    call_unit (pools.sushi_swap step.dex_id self self self zero_for_one amount_in price_limit hints)
    received_since h self step.token_out balance_before

  unfoldable pub swap_comet : SwapStep → ℤ → Agg W ℤ
  swap_comet step amount_in = do
    sequence ← observe h.sequence
    authorize h self (
        SubInvocation.approve step.token_in self step.dex_id amount_in
          (comet_approval_ledger sequence))
    result ← call (
        pools.swap_exact_amount_in step.dex_id self step.token_in amount_in step.token_out (pos 0)
          i128_max self)
    pure result.0

  abbrev dispatch : DexType → SwapStep → ℤ → Agg W ℤ
  dispatch aquarius = swap_aquarius
  dispatch soroswap_pair = swap_soroswap
  dispatch phoenix = swap_phoenix
  dispatch sushi = swap_sushi
  dispatch comet_dex = swap_comet

  unfoldable pub execute_step_inner : SwapStep → ℤ → Agg W ℤ
  execute_step_inner step = dispatch step.dex_type step

  unfoldable pub execute_step : SwapStep → ℤ → ℕ → Agg W ℤ
  execute_step step amount_in hop_idx = do
    output ← execute_step_inner step amount_in
    publish (Event.leg hop_idx (dex_tag step.dex_type) step.dex_id step.token_in amount_in)
    pure output

  -- the loop over `steps.iter().enumerate()` from index `i` on: the amount so far, and `max_depth`
  unfoldable pub execute_steps : ℕ → List SwapStep → ℤ → ℕ → ℕ → Agg W (ℤ × ℕ)
  execute_steps i [] current_amount path_base max_depth = pure (current_amount, max_depth)
  execute_steps i (step ∷ rest) current_amount path_base max_depth = do
    require (not (step.token_in == step.token_out)) invalid_step
    require (not (step.in_idx == step.out_idx)) invalid_step
    let hop_offset = min i u32_max
    let hop_idx = saturating_add_u32 path_base hop_offset
    amount ← execute_step step current_amount hop_idx
    require (ltb_ℤ (pos 0) amount) zero_step_output
    let depth = saturating_add_u32 hop_offset 1
    execute_steps (i + 1) rest amount path_base (if ltb max_depth depth then depth else max_depth)

  unfoldable pub execute_path : List SwapStep → ℤ → ℕ → ℕ → Agg W (ℤ × ℕ)
  execute_path steps amount_in path_base max_depth = do
    require (ltb_ℤ (pos 0) amount_in) invalid_amount
    execute_steps 0 steps amount_in path_base max_depth
