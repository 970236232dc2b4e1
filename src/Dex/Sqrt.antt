-- ===== src/Dex/Sqrt.antt =====
-- Square-root prices and amount deltas of crates/dex/src/uniswap_v3.rs.
pub mod Deltas
use dexmoney.Prelude.{ℕ, ◌-◌, ◌*◌, Bool, true, ◌>>=◌, ok_or, if◌then◌else◌}
use dexmoney.Word.{checked_add, checked_add_u512, checked_div, checked_shl}
use dexmoney.Common.Errors.{quote, ArbResult}
use dexmoney.Dex.MulDiv.{
  q96, ordered, div_round, mul_div, mul_div_rounding_up, mul_div_rounding_up_u512,
}

unfoldable pub amount0_delta : ℕ → ℕ → ℕ → Bool → ArbResult ℕ
amount0_delta liquidity sqrt_a sqrt_b round_up = do
  let (lower, upper) = ordered sqrt_a sqrt_b
  let diff = upper - lower
  numerator1 ← ok_or (checked_shl liquidity 96) (quote "amount0 numerator overflow")
  if round_up
      then (do value ← mul_div_rounding_up numerator1 diff upper; div_round value lower true)
      else (do
        value ← mul_div numerator1 diff upper
        ok_or (checked_div value lower) (quote "amount0 denominator overflow"))

unfoldable pub amount1_delta : ℕ → ℕ → ℕ → Bool → ArbResult ℕ
amount1_delta liquidity sqrt_a sqrt_b round_up =
    let (lower, upper) = ordered sqrt_a sqrt_b in
    let diff = upper - lower in
    if round_up then mul_div_rounding_up liquidity diff q96 else mul_div liquidity diff q96

unfoldable pub next_sqrt_price_from_amount0_in : ℕ → ℕ → ℕ → ArbResult ℕ
next_sqrt_price_from_amount0_in sqrt_price liquidity amount_in = do
  numerator1 ← ok_or (checked_shl liquidity 96) (quote "next sqrt numerator overflow")
  denominator ←
      ok_or (checked_add_u512 numerator1 (amount_in * sqrt_price))
        (quote "next sqrt denominator overflow")
  mul_div_rounding_up_u512 numerator1 sqrt_price denominator

unfoldable pub next_sqrt_price_from_amount1_in : ℕ → ℕ → ℕ → ArbResult ℕ
next_sqrt_price_from_amount1_in sqrt_price liquidity amount_in = do
  delta ← mul_div amount_in q96 liquidity
  ok_or (checked_add sqrt_price delta) (quote "next sqrt overflow")
