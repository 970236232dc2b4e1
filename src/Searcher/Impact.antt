-- ===== src/Searcher/Impact.antt =====
-- crates/searcher/src/strategy.rs: the haircut, the price impact and the edge that a quote must have.
pub mod Bounds
use dexmoney.Prelude.{
  ℕ, ◌-◌, ◌/◌, min, max, Bool, true, false, Option, none, some, Result, ok, err, List, [], ◌∷◌, ltb,
  ◌==◌, ◌||◌, if◌then◌else◌, and_then, unwrap_or, ok_or, length, retain, ◌>>=◌,
}
use dexmoney.Word.{checked_sub, checked_mul, checked_div, saturating_mul, u256_max, u64_max}
use dexmoney.Common.Pool.{Address, PoolState, PoolVariant, QuoteResult}
use dexmoney.Common.Opportunity.{QuoteDiagnostics, QuoteStepDiagnostics}
use dexmoney.Dex.V3.{spot_quote_exact_in}

unfoldable pub is_v3_style_variant : PoolVariant → Bool
is_v3_style_variant PoolVariant.aerodrome_slipstream = true
is_v3_style_variant PoolVariant.uniswap_v3 = true
is_v3_style_variant PoolVariant.pancake_v3 = true
is_v3_style_variant PoolVariant.uniswap_v4 = true
is_v3_style_variant _ = false

pub data HaircutError : Type 0 where
  invalid_haircut haircut_overflow : HaircutError

unfoldable pub apply_quote_haircut : ℕ → ℕ → Result HaircutError ℕ
apply_quote_haircut amount haircut_bps = if haircut_bps == 0 || amount == 0 then ok amount else do
  numerator ← ok_or (checked_sub 10_000 (min haircut_bps 10_000)) invalid_haircut
  ok_or (and_then (checked_mul amount numerator) (λ value. checked_div value 10_000))
      haircut_overflow

-- `u64::try_from(bps).unwrap_or(u64::MAX)` at the end
unfoldable pub impact_from_spot : ℕ → ℕ → ℕ
impact_from_spot spot_out actual_out =
    if spot_out == 0
    then 0
    else let slippage = spot_out - actual_out in
      let bps = unwrap_or (checked_div (saturating_mul u256_max slippage 10_000) spot_out) 0 in
      if ltb u64_max bps then u64_max else bps

-- The reserves in the order of the trade.
unfoldable pub oriented_reserves : PoolState → Address → ℕ → ℕ → Option (ℕ × ℕ)
oriented_reserves pool_state token_in reserve0 reserve1 =
    if token_in == pool_state.token0
    then some (reserve0, reserve1)
    else if token_in == pool_state.token1
    then some (reserve1, reserve0)
    else none

unfoldable pub reserve_impact : PoolState → Address → QuoteResult → ℕ → ℕ → ℕ
reserve_impact pool_state token_in result reserve0 reserve1 =
    elim (oriented_reserves pool_state token_in reserve0 reserve1) [
      | none ↦ u64_max
      | some reserves ↦
          impact_from_spot
            (unwrap_or
              (checked_div (saturating_mul u256_max result.amount_in (max reserves.1 1))
                (max reserves.0 1))
              0)
            result.amount_out
    ]

unfoldable pub spot_impact : PoolState → Address → QuoteResult → ℕ
spot_impact pool_state token_in result =
    elim (spot_quote_exact_in pool_state token_in result.amount_in) [
      | ok spot_out ↦ impact_from_spot spot_out result.amount_out
      | err e ↦ 0
    ]

-- Without reserves the spot price is that of the V3 state.
unfoldable pub priced_impact : PoolState → Address → QuoteResult → Option ℕ → Option ℕ → ℕ
priced_impact pool_state token_in result (some reserve0) (some reserve1) =
    reserve_impact pool_state token_in result reserve0 reserve1
priced_impact pool_state token_in result (some reserve0) none =
    spot_impact pool_state token_in result
priced_impact pool_state token_in result none reserve1 = spot_impact pool_state token_in result

unfoldable pub is_balancer : PoolVariant → Bool
is_balancer PoolVariant.balancer_v3 = true
is_balancer _ = false

unfoldable pub estimate_price_impact_bps : PoolState → Address → QuoteResult → ℕ
estimate_price_impact_bps pool_state token_in result =
    if is_balancer pool_state.variant
    then 0
    else priced_impact pool_state token_in result pool_state.reserve0 pool_state.reserve1

unfoldable pub v3_step_count : List QuoteStepDiagnostics → ℕ
v3_step_count steps = length (retain (λ step. is_v3_style_variant step.variant) steps)

unfoldable pub quote_model_edge_floor : ℕ → QuoteDiagnostics → ℕ → ℕ
quote_model_edge_floor amount_in diagnostics v3_quote_safety_bps =
    let v3_steps = v3_step_count diagnostics.steps in
    if amount_in == 0 || v3_steps == 0 || v3_quote_safety_bps == 0
    then 0
    else saturating_mul u256_max amount_in (saturating_mul u64_max v3_steps v3_quote_safety_bps)
      / 10_000

-- `max().unwrap_or(0)` of the source blocks
unfoldable pub latest_block : List QuoteStepDiagnostics → ℕ
latest_block [] = 0
latest_block (step ∷ steps) = max step.source_block (latest_block steps)

unfoldable pub candidate_block_number_from_diagnostics : QuoteDiagnostics → ℕ
candidate_block_number_from_diagnostics diagnostics = latest_block diagnostics.steps
