-- ===== src/Dex/Volatile.antt =====
-- `AerodromeVolatileQuoter` of crates/dex/src/aerodrome.rs: the constant-product quote.
pub mod Product
use dexmoney.Prelude.{ℕ, ◌/◌, ok, err, ◌>>=◌, ok_or, and_then, ◌==◌, ◌||◌, if◌then◌else◌, none}
use dexmoney.Word.{checked_add, checked_mul, checked_sub}
use dexmoney.Common.Errors.{quote, ArbResult}
use dexmoney.Common.Pool.{Address, PoolState, QuoteResult}

abbrev pub fee_denominator : ℕ
fee_denominator = 10_000

unfoldable pub quote_amount_out : ℕ → ℕ → ℕ → ℕ → ArbResult ℕ
quote_amount_out reserve_in reserve_out amount_in fee_bps =
    if reserve_in == 0 || reserve_out == 0
    then err (quote "empty reserve")
    else if amount_in == 0
    then ok 0
    else do
      fee_numerator ← ok_or (checked_sub fee_denominator fee_bps) (quote "invalid fee")
      amount_in_with_fee ← ok_or (checked_mul amount_in fee_numerator) (quote "amount_in overflow")
      numerator ← ok_or (checked_mul amount_in_with_fee reserve_out) (quote "numerator overflow")
      denominator ←
          ok_or
            (and_then (checked_mul reserve_in fee_denominator)
              λ v. checked_add v amount_in_with_fee)
            (quote "denominator overflow")
      ok (numerator / denominator)

-- `DexQuoter::quote_exact_in`
unfoldable pub quote_exact_in : PoolState → Address → ℕ → ArbResult QuoteResult
quote_exact_in state token_in amount_in = do
  reserve0 ← ok_or state.reserve0 (quote "missing reserve0")
  reserve1 ← ok_or state.reserve1 (quote "missing reserve1")
  amount_out ←
      if token_in == state.token0
      then quote_amount_out reserve0 reserve1 amount_in state.fee_bps
      else if token_in == state.token1
      then quote_amount_out reserve1 reserve0 amount_in state.fee_bps
      else err (quote "token_in not in pool")
  ok (record { amount_in = amount_in; amount_out = amount_out; gas_estimate = none })
