-- ===== src/Searcher/Rough.antt =====
-- crates/searcher/src/strategy.rs: the rough quote of an edge, which ranks cycles before they are quoted
-- in full, and what its failures say.
use Prim.Native.String.{String, ◌++◌}
use text.Mathlib.Text.{◌==◌ as ◌===◌}
use dexmoney.Prelude.{
  ℕ, zero, suc, Bool, true, false, ◌&&◌, ◌||◌, not, Option, none, some, Result, ok, err, ◌>>=◌,
  ok_or, map_err, ◌==◌, if◌then◌else◌, unwrap_or, max,
}
use dexmoney.Prelude.Texts.{text_contains}
use dexmoney.Word.{u256_max, saturating_mul, checked_div}
use dexmoney.Common.Errors.{ArbBotError, config, quote, risk_gate, simulation, storage}
use dexmoney.Common.Pool.{Address, PoolState, PoolVariant}
use dexmoney.Dex.Volatile
use dexmoney.Dex.Stable
use dexmoney.Dex.V3.{spot_quote_exact_in}
use dexmoney.Searcher.Graph.{OwnedPoolEdge}

pub data RoughQuoteFailure : Type 0 where
  missing_reserves token_mismatch missing_decimals stable_quote_failed v2_quote_failed :
      RoughQuoteFailure
  balancer_quote_failed missing_v3_state v3_spot_quote_failed v3_spot_overflow : RoughQuoteFailure
  unsupported_pool zero_output : RoughQuoteFailure

-- The display form of an error.
unfoldable pub to_string : ArbBotError → String
to_string (config text) = "config error: " ++ text
to_string (quote text) = "quote error: " ++ text
to_string (risk_gate text) = "risk gate rejected: " ++ text
to_string (simulation text) = "simulation error: " ++ text
to_string (storage text) = "storage error: " ++ text

unfoldable pub classify_v3_spot_quote_failure : ArbBotError → RoughQuoteFailure
unfolding to_string
classify_v3_spot_quote_failure e =
    let message = to_string e in
    if text_contains message "token_in not in pool"
    then token_mismatch
    else if text_contains message "missing sqrt_price_x96"
        || text_contains message "empty sqrt_price_x96"
    then missing_v3_state
    else if text_contains message "overflow"
    then v3_spot_overflow
    else v3_spot_quote_failed

unfoldable pub is_balancer_variant : Option PoolVariant → Bool
is_balancer_variant (some PoolVariant.balancer_v3) = true
is_balancer_variant _ = false

unfoldable pub should_include_rough_quote_failure : RoughQuoteFailure → Option PoolVariant → Bool
unfolding is_balancer_variant
should_include_rough_quote_failure v3_spot_quote_failed variant = true
should_include_rough_quote_failure v3_spot_overflow variant = true
should_include_rough_quote_failure missing_decimals variant = is_balancer_variant variant
should_include_rough_quote_failure _ variant = false

unfoldable pub pow10_u256 : ℕ → ℕ
pow10_u256 zero = 1
pow10_u256 (suc decimals) = saturating_mul u256_max (pow10_u256 decimals) 10

unfoldable pub decimal_normalized_optimistic_quote :
    PoolState → Address → Address → ℕ → Result RoughQuoteFailure ℕ
unfolding pow10_u256
decimal_normalized_optimistic_quote state token_in token_out amount_in =
    if not (
      (token_in == state.token0 && token_out == state.token1)
      || (token_in == state.token1 && token_out == state.token0))
    then err token_mismatch
    else do
      decimals0 ← ok_or state.token0_decimals missing_decimals
      decimals1 ← ok_or state.token1_decimals missing_decimals
      let forward = token_in == state.token0
      let input_unit = pow10_u256 (if forward then decimals0 else decimals1)
      let output_unit = pow10_u256 (if forward then decimals1 else decimals0)
      let normalized =
          unwrap_or (checked_div (saturating_mul u256_max amount_in output_unit) input_unit)
            u256_max
      ok (max (saturating_mul u256_max normalized 1_000) 1)

-- The failure of a quoter, whatever it says.
abbrev any_failure : RoughQuoteFailure → ArbBotError → RoughQuoteFailure
any_failure failure e = failure

unfoldable pub rough_classic : OwnedPoolEdge → PoolState → ℕ → Result RoughQuoteFailure ℕ
rough_classic edge state amount_in = do
  reserve0 ← ok_or state.reserve0 missing_reserves
  reserve1 ← ok_or state.reserve1 missing_reserves
  let forward = edge.token_in == state.token0
  if not forward && not (edge.token_in == state.token1) then err token_mismatch else (do
    let reserve_in = if forward then reserve0 else reserve1
    let reserve_out = if forward then reserve1 else reserve0
    if unwrap_or state.stable false
        then (do
          decimals0 ← ok_or state.token0_decimals missing_decimals
          decimals1 ← ok_or state.token1_decimals missing_decimals
          map_err (any_failure stable_quote_failed) (
              Stable.quote_amount_out reserve_in reserve_out amount_in state.fee_bps
                (if forward then decimals0 else decimals1)
                (if forward then decimals1 else decimals0)))
        else map_err (any_failure v2_quote_failed)
            (Volatile.quote_amount_out reserve_in reserve_out amount_in state.fee_bps))

abbrev is_weighted_model : Option String → Bool
is_weighted_model none = false
is_weighted_model (some model) = model === "weighted"

-- The weighted Balancer formula on floating-point numbers is the section's parameter.
module _
    (quote_balancer_weighted_exact_in : PoolState → Address → Address → ℕ → Result String ℕ) where
  unfoldable pub rough_of_variant :
      PoolVariant → OwnedPoolEdge → PoolState → ℕ → Result RoughQuoteFailure ℕ
  unfolding rough_classic decimal_normalized_optimistic_quote classify_v3_spot_quote_failure
  rough_of_variant PoolVariant.aerodrome_volatile edge state amount_in =
      rough_classic edge state amount_in
  rough_of_variant PoolVariant.balancer_v3 edge state amount_in =
      if is_weighted_model state.balancer_model
      then map_err (λ e. balancer_quote_failed)
          (quote_balancer_weighted_exact_in state edge.token_in edge.token_out amount_in)
      else decimal_normalized_optimistic_quote state edge.token_in edge.token_out amount_in
  rough_of_variant _ edge state amount_in =
      map_err classify_v3_spot_quote_failure (spot_quote_exact_in state edge.token_in amount_in)

  unfoldable pub rough_quote_edge_upper_bound :
      OwnedPoolEdge → PoolState → ℕ → Result RoughQuoteFailure ℕ
  unfolding rough_of_variant
  rough_quote_edge_upper_bound edge state amount_in =
      rough_of_variant state.variant edge state amount_in
