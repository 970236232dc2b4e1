-- ===== src/Tests/Quoters.antt =====
-- Quotes of crates/dex/src/aerodrome.rs and swap steps of crates/dex/src/uniswap_v3.rs at small inputs.
use dexmoney.Prelude.{◌+◌, ◌-◌, ◌*◌, ◌/◌, ◌^◌, ◌≤◌, ◌<◌, ◌≡◌, refl, ok, true, false, arith}
use dexmoney.Dex.Volatile
use dexmoney.Dex.Volatile.Product.{
  quote_keeps_product, round_trip_no_profit, quote_mono, quote_total,
}
use dexmoney.Dex.Stable.{
  stable_k, stable_f, stable_d, scale_to_1e18, unscale_from_1e18, pow10, pow10_from, fee_numerator,
  get_y, get_y_rounds, nudge_up, newton_up, newton_decrease, nudge_down, newton_down, newton_change,
  newton_branch, newton_round,
}
use dexmoney.Dex.Stable
use dexmoney.Dex.Stable.Solver.{Solves, get_y-Solves}
use dexmoney.Dex.Stable.Curve.{CurveSwap, quote_keeps_curve, quote-le-reserve}
use dexmoney.Dex.MulDiv.{
  mul_div, mul_div_rounding_up, mul_div_rounding_up_u512, mul_div_u512, u512_to_u256, div_round,
  ordered,
}
use dexmoney.Dex.Sqrt.{
  amount0_delta, amount1_delta, next_sqrt_price_from_amount0_in, next_sqrt_price_from_amount1_in,
}
use dexmoney.Dex.SwapStep.{SwapStepResult, compute_swap_step}
use dexmoney.Dex.SwapStep.Bounds.{Uses, sell0_step, sell1_step}
use dexmoney.Dex.V3.{quote_token0_for_token1, quote_token1_for_token0}
use dexmoney.Dex.V3.Agreement.{step-eq-current_tick0, step-eq-current_tick1}

sold : Volatile.quote_amount_out 1_000 2_000 100 30 ≡ ok 181
unfolding Volatile.quote_amount_out
sold = refl

bought_back : Volatile.quote_amount_out 1_819 1_100 181 30 ≡ ok 99
unfolding Volatile.quote_amount_out
bought_back = refl

sold_more : Volatile.quote_amount_out 1_000 2_000 200 30 ≡ ok 332
unfolding Volatile.quote_amount_out
sold_more = refl

quote_keeps_product_example : ◌<◌ 181 2_000 × (1_000 * 2_000 ≤ (1_000 + 100) * (2_000 - 181))
quote_keeps_product_example = quote_keeps_product 1_000 2_000 100 30 sold

round_trip_no_profit_example : ◌≤◌ 99 100
round_trip_no_profit_example = round_trip_no_profit 1_000 2_000 100 30 30 sold bought_back

quote_mono_example : ◌≤◌ 181 332
quote_mono_example = quote_mono 1_000 2_000 100 200 30 (omega arith) sold sold_more

quote_total_example :
    Volatile.quote_amount_out 1_000 2_000 100 30
    ≡ ok (100 * (10_000 - 30) * 2_000 / (1_000 * 10_000 + 100 * (10_000 - 30)))
quote_total_example =
    quote_total 1_000 2_000 100 30 (omega arith) (omega arith) (omega arith) (omega arith)
      (omega arith) (omega arith) (omega arith)

solved :
    get_y 1_001_000_000_000_000_000_000 2_000_000_000_000_000_000_000_000
      1_000_000_000_000_000_000_000
    ≡ ok 1_994_011_980_022_046
unfolding get_y get_y_rounds newton_round newton_branch newton_change newton_down nudge_down
    newton_decrease newton_up nudge_up stable_f stable_d
solved = refl

get_y-Solves_example :
    Solves 1_001_000_000_000_000_000_000 2_000_000_000_000_000_000_000_000 1_994_011_980_022_046
get_y-Solves_example =
    get_y-Solves 1_001_000_000_000_000_000_000 2_000_000_000_000_000_000_000_000
      1_000_000_000_000_000_000_000 solved

stable_sold : Stable.quote_amount_out 1_000_000_000 1_000_000_000 1_000_000 4 6 6 ≡ ok 999_599
unfolding Stable.quote_amount_out fee_numerator scale_to_1e18 unscale_from_1e18 pow10 pow10_from
    stable_k get_y get_y_rounds newton_round newton_branch newton_change newton_down nudge_down
    newton_decrease newton_up nudge_up stable_f stable_d
stable_sold = refl

quote_keeps_curve_example : CurveSwap 1_000_000_000 1_000_000_000 1_000_000 4 6 6 999_599
quote_keeps_curve_example =
    quote_keeps_curve 1_000_000_000 1_000_000_000 1_000_000 4 6 6 (omega arith) stable_sold

quote-le-reserve_example : ◌≤◌ 999_599 1_000_000_000
quote-le-reserve_example =
    quote-le-reserve 1_000_000_000 1_000_000_000 1_000_000 4 6 6 (omega arith) stable_sold

abbrev step0 : SwapStepResult
step0 = record {
  sqrt_next = 79_149_250_711_305_166_342_700_278_159;
  amount_in = 997;
  amount_out = 996;
  fee_amount = 3;
}

abbrev step1 : SwapStepResult
step1 = record {
  sqrt_next = 79_307_152_992_291_059_138_124_713_654;
  amount_in = 997;
  amount_out = 996;
  fee_amount = 3;
}

stepped0 : compute_swap_step (2 ^ 96) (2 ^ 95) 1_000_000 1_000 3_000 true ≡ ok step0
unfolding compute_swap_step mul_div mul_div_rounding_up mul_div_rounding_up_u512 mul_div_u512
    u512_to_u256 div_round ordered amount0_delta amount1_delta next_sqrt_price_from_amount0_in
    next_sqrt_price_from_amount1_in
stepped0 = refl

stepped1 : compute_swap_step (2 ^ 96) (2 ^ 97) 1_000_000 1_000 3_000 false ≡ ok step1
unfolding compute_swap_step mul_div mul_div_rounding_up mul_div_rounding_up_u512 mul_div_u512
    u512_to_u256 div_round ordered amount0_delta amount1_delta next_sqrt_price_from_amount0_in
    next_sqrt_price_from_amount1_in
stepped1 = refl

less_fee : mul_div 1_000 (1_000_000 - 3_000) 1_000_000 ≡ ok 997
unfolding mul_div u512_to_u256
less_fee = refl

sell0_step_example :
    (2 ^ 95 ≤ step0.sqrt_next) × (step0.sqrt_next ≤ 2 ^ 96) × Uses 1_000 (2 ^ 95) step0
sell0_step_example =
    sell0_step (2 ^ 96) (2 ^ 95) 1_000_000 1_000 3_000 (omega arith) (omega arith) stepped0

sell1_step_example :
    (2 ^ 96 ≤ step1.sqrt_next) × (step1.sqrt_next ≤ 2 ^ 97) × Uses 1_000 (2 ^ 97) step1
sell1_step_example =
    sell1_step (2 ^ 96) (2 ^ 97) 1_000_000 1_000 3_000 (omega arith) (omega arith) stepped1

step-eq-current_tick0_example : quote_token0_for_token1 997 (2 ^ 96) 1_000_000 ≡ ok 996
step-eq-current_tick0_example =
    step-eq-current_tick0 (2 ^ 96) (2 ^ 95) 1_000_000 1_000 3_000 997 {step = step0} (omega arith)
      (omega arith) less_fee (omega arith) stepped0 (λ h. omega (arith, h))

step-eq-current_tick1_example : quote_token1_for_token0 997 (2 ^ 96) 1_000_000 ≡ ok 996
step-eq-current_tick1_example =
    step-eq-current_tick1 (2 ^ 96) (2 ^ 97) 1_000_000 1_000 3_000 997 {step = step1} (omega arith)
      (omega arith) less_fee (omega arith) stepped1 (λ h. omega (arith, h))
