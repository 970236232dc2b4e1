-- ===== src/Dex/V3.antt =====
-- The public quoters of crates/dex/src/uniswap_v3.rs: the current-tick quoter, the spot quote and the
-- cross-tick quote.
pub mod Agreement
pub mod Spot
use dexmoney.Prelude.{
  ℕ, ◌-◌, Bool, true, false, none, some, Option, List, [], ok, err, ◌>>=◌, ok_or, unwrap_or, leb,
  ◌==◌, ◌||◌, ◌&&◌, not, if◌then◌else◌,
}
use dexmoney.Word.{u32_max, checked_mul_u512, saturating_mul}
use dexmoney.Common.Errors.{quote, ArbResult}
use dexmoney.Common.Pool.{Address, PoolVariant, PoolState, TickState, QuoteResult}
use dexmoney.Dex.MulDiv.{q192, mul_div, mul_div_u512}
use dexmoney.Dex.Sqrt.{
  amount0_delta, amount1_delta, next_sqrt_price_from_amount0_in, next_sqrt_price_from_amount1_in,
}
use dexmoney.Dex.SwapStep.{fee_denominator}
use dexmoney.Dex.CrossTick.{V3QuoteDiagnostics, simulate}

abbrev pub is_slipstream : PoolVariant → Bool
is_slipstream PoolVariant.aerodrome_slipstream = true
is_slipstream _ = false

abbrev pub is_none {ℓ} : {A : Type ℓ} → Option A → Bool
is_none none = true
is_none (some _) = false

unfoldable pub v3_fee_pips : PoolState → ArbResult ℕ
v3_fee_pips state =
    if is_slipstream state.variant && is_none state.fee_pips
    then err (quote "missing Aerodrome Slipstream fee_pips")
    else let fee_pips = unwrap_or state.fee_pips (saturating_mul u32_max state.fee_bps 100) in
      if leb fee_denominator fee_pips then err (quote "invalid V3 fee") else ok fee_pips

unfoldable pub quote_token0_for_token1 : ℕ → ℕ → ℕ → ArbResult ℕ
quote_token0_for_token1 amount_in sqrt_price_x96 liquidity = if amount_in == 0 then ok 0 else do
  next_sqrt_price ← next_sqrt_price_from_amount0_in sqrt_price_x96 liquidity amount_in
  amount1_delta liquidity next_sqrt_price sqrt_price_x96 false

unfoldable pub quote_token1_for_token0 : ℕ → ℕ → ℕ → ArbResult ℕ
quote_token1_for_token0 amount_in sqrt_price_x96 liquidity = if amount_in == 0 then ok 0 else do
  next_sqrt_price ← next_sqrt_price_from_amount1_in sqrt_price_x96 liquidity amount_in
  amount0_delta liquidity sqrt_price_x96 next_sqrt_price false

abbrev pub quoted : ℕ → ℕ → QuoteResult
quoted amount_in amount_out = record {
  amount_in = amount_in;
  amount_out = amount_out;
  gas_estimate = none;
}

-- `UniswapV3CurrentTickQuoter::quote_exact_in`
unfoldable pub quote_exact_in : PoolState → Address → ℕ → ArbResult QuoteResult
quote_exact_in state token_in amount_in =
    if not (token_in == state.token0) && not (token_in == state.token1)
    then err (quote "token_in not in pool")
    else do
      sqrt_price_x96 ← ok_or state.sqrt_price_x96 (quote "missing sqrt_price_x96")
      liquidity ← ok_or state.liquidity (quote "missing liquidity")
      if sqrt_price_x96 == 0 || liquidity == 0 then err (quote "empty V3 state") else (do
        fee_pips ← v3_fee_pips state
        amount_in_less_fee ← mul_div amount_in (fee_denominator - fee_pips) fee_denominator
        amount_out ←
            if token_in == state.token0
            then quote_token0_for_token1 amount_in_less_fee sqrt_price_x96 liquidity
            else quote_token1_for_token0 amount_in_less_fee sqrt_price_x96 liquidity
        ok (quoted amount_in amount_out))

unfoldable pub spot_quote_exact_in : PoolState → Address → ℕ → ArbResult ℕ
spot_quote_exact_in state token_in amount_in = do
  sqrt_price_x96 ← ok_or state.sqrt_price_x96 (quote "missing sqrt_price_x96")
  if sqrt_price_x96 == 0 then err (quote "empty sqrt_price_x96") else (do
    price_x192 ← ok_or (checked_mul_u512 sqrt_price_x96 sqrt_price_x96) (quote "price overflow")
    if token_in == state.token0
        then mul_div_u512 amount_in price_x192 q192
        else if token_in == state.token1
        then mul_div_u512 amount_in q192 price_x192
        else err (quote "token_in not in pool"))

abbrev pub is_empty {ℓ} : {A : Type ℓ} → List A → Bool
is_empty [] = true
is_empty _ = false

unfoldable pub quote_exact_in_with_ticks_diagnostics :
    PoolState → List TickState → Address → ℕ → ArbResult (QuoteResult × V3QuoteDiagnostics)
quote_exact_in_with_ticks_diagnostics state initialized_ticks token_in amount_in =
    if is_empty initialized_ticks
    then err (quote "missing initialized ticks")
    else if not (token_in == state.token0) && not (token_in == state.token1)
    then err (quote "token_in not in pool")
    else do
      sqrt_price_x96 ← ok_or state.sqrt_price_x96 (quote "missing sqrt_price_x96")
      liquidity ← ok_or state.liquidity (quote "missing liquidity")
      current_tick ← ok_or state.tick (quote "missing tick")
      fee_pips ← v3_fee_pips state
      result ←
          simulate (token_in == state.token0) amount_in sqrt_price_x96 liquidity current_tick
            initialized_ticks fee_pips
      ok (quoted amount_in result.0, result.1)

unfoldable pub quote_exact_in_with_ticks :
    PoolState → List TickState → Address → ℕ → ArbResult QuoteResult
quote_exact_in_with_ticks state initialized_ticks token_in amount_in = do
  result ← quote_exact_in_with_ticks_diagnostics state initialized_ticks token_in amount_in
  ok result.0
