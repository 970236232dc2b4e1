-- ===== src/Tests/Ticks.antt =====
-- Swaps over ticks of crates/dex/src/uniswap_v3.rs at small inputs.
use dexmoney.Prelude.{
  ℕ, ◌^◌, ◌≤◌, ◌<◌, ◌≡◌, refl, sym, ◌∙◌, ok, true, false, Bool, arith, [], ◌∷◌, length, none, some,
  ok_injective,
}
use dexmoney.Prelude.Int.{pos, negsuc, ◌≤ℤ◌}
use dexmoney.Prelude.Sorting.{sort}
use dexmoney.Common.Pool.{PoolId, PoolState, PoolVariant, DexKind, TickState}
use dexmoney.Dex.MulDiv.{
  mul_div, mul_div_rounding_up, mul_div_rounding_up_u512, mul_div_u512, u512_to_u256, div_round,
  ordered,
}
use dexmoney.Dex.Sqrt.{
  amount0_delta, amount1_delta, next_sqrt_price_from_amount0_in, next_sqrt_price_from_amount1_in,
}
use dexmoney.Dex.SwapStep.{SwapStepResult, compute_swap_step}
use dexmoney.Dex.Tick.{sqrt_ratio_at_tick, first_ratio, apply_factors, round_ratio}
use dexmoney.Dex.Tick.Range.{sqrt_ratio_at_tick_total}
use dexmoney.Dex.CrossTick.{
  Walk, going, apply_liquidity_delta, jump_round, after_step, swap_round, tick_round, walk_ticks,
  finish, conclude, ticks_ahead, start_walk, simulate,
}
use dexmoney.Dex.CrossTick.Diagnostics.{simulate_counts}
use dexmoney.Dex.CrossTick.Progress.{Accounts, Came, Lined, swap_round-Accounts, walk_ticks-Came}
use dexmoney.Dex.V3.{quote_exact_in, spot_quote_exact_in, quote_token0_for_token1, v3_fee_pips}
use dexmoney.Dex.V3.Spot.{spot_bounds_current_tick}

abbrev pool : PoolId
pool = record { chain_id = 8_453; address = 7 }

abbrev lower : TickState
lower = record {
  pool_id = pool;
  tick = negsuc 9;
  liquidity_net = pos 200_000;
  liquidity_gross = 200_000;
  block_number = 1;
  updated_at = 0;
}

abbrev lower_price : ℕ
lower_price = 79_188_560_314_459_151_373_725_315_960

abbrev w : Walk
w = start_walk 1_000 (2 ^ 96) 1_000_000

abbrev after_lower : Walk
after_lower = record {
  amount_remaining = 497;
  sqrt_price = lower_price;
  liquidity = 800_000;
  amount_out = 499;
  diagnostics = record { ticks_used = 1; crossed_ticks = 1; tick_range_exhausted = false };
}

rounded : swap_round true 3_000 lower lower_price w ≡ ok (going after_lower)
unfolding swap_round after_step apply_liquidity_delta compute_swap_step mul_div mul_div_rounding_up
    mul_div_rounding_up_u512 mul_div_u512 u512_to_u256 div_round ordered amount0_delta amount1_delta
    next_sqrt_price_from_amount0_in next_sqrt_price_from_amount1_in
rounded = refl

priced : sqrt_ratio_at_tick (negsuc 9) ≡ ok lower_price
unfolding sqrt_ratio_at_tick first_ratio apply_factors round_ratio
priced = refl

walked : walk_ticks true 3_000 (lower ∷ []) w ≡ ok (going after_lower)
unfolding walk_ticks tick_round jump_round sqrt_ratio_at_tick first_ratio apply_factors round_ratio
    swap_round after_step apply_liquidity_delta compute_swap_step mul_div mul_div_rounding_up
    mul_div_rounding_up_u512 mul_div_u512 u512_to_u256 div_round ordered amount0_delta amount1_delta
    next_sqrt_price_from_amount0_in next_sqrt_price_from_amount1_in
walked = refl

simulated :
    simulate true 1_000 (2 ^ 96) 1_000_000 (pos 0) (lower ∷ []) 3_000
    ≡ ok (993, record { ticks_used = 1; crossed_ticks = 1; tick_range_exhausted = true })
unfolding simulate conclude finish ticks_ahead sort walk_ticks tick_round jump_round
    sqrt_ratio_at_tick first_ratio apply_factors round_ratio swap_round after_step
    apply_liquidity_delta compute_swap_step mul_div mul_div_rounding_up mul_div_rounding_up_u512
    mul_div_u512 u512_to_u256 div_round ordered amount0_delta amount1_delta
    next_sqrt_price_from_amount0_in next_sqrt_price_from_amount1_in
simulated = refl

lower-Lined : Lined true 3_000 (2 ^ 96) (lower ∷ [])
lower-Lined p h =
    let same : lower_price ≡ p = ok_injective lower_price p (sym priced ∙ h) in
    (omega (arith, same), tt)

swap_round-Accounts_example :
    (step : SwapStepResult) × (compute_swap_step (2 ^ 96) lower_price 1_000_000 1_000 3_000 true
      ≡ ok step)
    × Accounts w lower_price step (going after_lower)
swap_round-Accounts_example =
    swap_round-Accounts true 3_000 lower lower_price w (omega arith) (omega arith) rounded

walk_ticks-Came_example : Came true 3_000 w (going after_lower)
walk_ticks-Came_example = walk_ticks-Came true 3_000 (lower ∷ []) w lower-Lined walked

simulate_counts_example :
    let ahead = length (ticks_ahead true (pos 0) (lower ∷ [])) in
    ◌≤◌ 1 1 × ◌≤◌ 1 ahead × (◌≡◌ {A = Bool} true true → ◌≡◌ {A = ℕ} 1 ahead)
simulate_counts_example =
    simulate_counts true 3_000 1_000 (2 ^ 96) 1_000_000 (pos 0) (lower ∷ []) simulated

sqrt_ratio_at_tick_total_example :
    (r : ℕ) × (sqrt_ratio_at_tick (negsuc 9) ≡ ok r)
    × (0 < r)
    × (negsuc 9 ≤ℤ pos 0 → r ≤ 2 ^ 96)
    × (pos 1 ≤ℤ negsuc 9 → 2 ^ 96 ≤ r)
sqrt_ratio_at_tick_total_example = sqrt_ratio_at_tick_total (negsuc 9) (omega arith) (omega arith)

abbrev pool_state : PoolState
pool_state = record {
  pool_id = pool;
  dex = DexKind.uniswap_v3;
  variant = PoolVariant.uniswap_v3;
  factory_address = none;
  token0 = 1;
  token1 = 2;
  token0_decimals = none;
  token1_decimals = none;
  fee_bps = 30;
  fee_pips = some 3_000;
  pool_key_fee_pips = none;
  hooks_address = none;
  stable = none;
  reserve0 = none;
  reserve1 = none;
  balancer_model = none;
  balancer_weight0 = none;
  balancer_weight1 = none;
  balancer_scaling_factor0 = none;
  balancer_scaling_factor1 = none;
  balancer_token_rate0 = none;
  balancer_token_rate1 = none;
  balancer_swap_fee_percentage = none;
  sqrt_price_x96 = some (2 ^ 96);
  liquidity = some 1_000_000;
  tick = some (pos 0);
  tick_spacing = none;
  block_number = 1;
  valid_through_block = 1;
  updated_at = 0;
}

current :
    quote_exact_in pool_state 1 1_000
    ≡ ok (record { amount_in = 1_000; amount_out = 996; gas_estimate = none })
unfolding quote_exact_in v3_fee_pips quote_token0_for_token1 mul_div mul_div_rounding_up
    mul_div_rounding_up_u512 mul_div_u512 u512_to_u256 div_round ordered amount1_delta
    next_sqrt_price_from_amount0_in
current = refl

spot : spot_quote_exact_in pool_state 1 1_000 ≡ ok 1_000
unfolding spot_quote_exact_in mul_div_u512
spot = refl

spot_bounds_current_tick_example : ◌≤◌ 996 1_000
spot_bounds_current_tick_example = spot_bounds_current_tick pool_state 1 1_000 current spot
