-- ===== src/Dex/SwapStep.antt =====
-- `compute_swap_step` of crates/dex/src/uniswap_v3.rs: one step of a swap towards a target price.
pub mod Geometry
pub mod Bounds
use dexmoney.Prelude.{ℕ, ◌-◌, Bool, true, false, ok, ◌>>=◌, leb, ◌==◌, ◌||◌, if◌then◌else◌}
use dexmoney.Common.Errors.{ArbResult}
use dexmoney.Dex.MulDiv.{mul_div, mul_div_rounding_up}
use dexmoney.Dex.Sqrt.{
  amount0_delta, amount1_delta, next_sqrt_price_from_amount0_in, next_sqrt_price_from_amount1_in,
}

abbrev pub fee_denominator : ℕ
fee_denominator = 1_000_000

pub record SwapStepResult : Type 0 where
  pub sqrt_next : ℕ
  pub amount_in : ℕ
  pub amount_out : ℕ
  pub fee_amount : ℕ

unfoldable pub compute_swap_step : ℕ → ℕ → ℕ → ℕ → ℕ → Bool → ArbResult SwapStepResult
compute_swap_step sqrt_current sqrt_target liquidity amount_remaining fee_pips zero_for_one =
    if amount_remaining == 0 || liquidity == 0
    then ok (record { sqrt_next = sqrt_current; amount_in = 0; amount_out = 0; fee_amount = 0 })
    else do
      amount_remaining_less_fee ←
          mul_div amount_remaining (fee_denominator - fee_pips) fee_denominator
      amount_in_to_target ←
          if zero_for_one
          then amount0_delta liquidity sqrt_target sqrt_current true
          else amount1_delta liquidity sqrt_current sqrt_target true
      let reached_target = leb amount_in_to_target amount_remaining_less_fee
      sqrt_next ←
          if reached_target
          then ok sqrt_target
          else if zero_for_one
          then next_sqrt_price_from_amount0_in sqrt_current liquidity amount_remaining_less_fee
          else next_sqrt_price_from_amount1_in sqrt_current liquidity amount_remaining_less_fee
      amount_in ←
          if zero_for_one
          then amount0_delta liquidity sqrt_next sqrt_current true
          else amount1_delta liquidity sqrt_current sqrt_next true
      amount_out ←
          if zero_for_one
          then amount1_delta liquidity sqrt_next sqrt_current false
          else amount0_delta liquidity sqrt_current sqrt_next false
      fee_amount ←
          if reached_target
          then mul_div_rounding_up amount_in fee_pips (fee_denominator - fee_pips)
          else ok (amount_remaining - amount_in)
      ok (record {
        sqrt_next = sqrt_next;
        amount_in = amount_in;
        amount_out = amount_out;
        fee_amount = fee_amount;
      })
