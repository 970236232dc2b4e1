-- ===== src/Dex/Stable.antt =====
-- `AerodromeStableQuoter` of crates/dex/src/aerodrome.rs: quotes on the curve x³y + xy³, with
-- amounts scaled to 18 decimals.
pub mod Solver
pub mod Curve
use dexmoney.Prelude.{
  ℕ, zero, suc, ◌-◌, none, Option, ok, err, ◌>>=◌, ok_or, and_then, ltb, ◌==◌, ◌||◌, if◌then◌else◌,
}
use dexmoney.Word.{checked_add, checked_mul, checked_sub, checked_div}
use dexmoney.Common.Errors.{quote, ArbResult}
use dexmoney.Common.Pool.{Address, PoolState, QuoteResult}

abbrev pub fee_denominator : ℕ
fee_denominator = 10_000

abbrev pub one : ℕ
one = 1_000_000_000_000_000_000

-- The loop of `pow10`, with the rounds left.
unfoldable pub pow10_from : ℕ → ℕ → ArbResult ℕ
pow10_from zero value = ok value
pow10_from (suc n) value = do
  next ← ok_or (checked_mul value 10) (quote "decimal scale overflow")
  pow10_from n next

unfoldable pub pow10 : ℕ → ArbResult ℕ
pow10 decimals = pow10_from decimals 1

unfoldable pub fee_numerator : ℕ → ArbResult ℕ
fee_numerator fee_bps = ok_or (checked_sub fee_denominator fee_bps) (quote "invalid fee")

unfoldable pub scale_to_1e18 : ℕ → ℕ → ArbResult ℕ
scale_to_1e18 value decimals = do
  scale ← pow10 decimals
  ok_or (and_then (checked_mul value one) (λ v. checked_div v scale))
      (quote "stable scale overflow")

unfoldable pub unscale_from_1e18 : ℕ → ℕ → ArbResult ℕ
unscale_from_1e18 value decimals = do
  scale ← pow10 decimals
  ok_or (and_then (checked_mul value scale) (λ v. checked_div v one))
      (quote "stable unscale overflow")

unfoldable pub stable_k : ℕ → ℕ → ArbResult ℕ
stable_k x y = do
  a ← ok_or (and_then (checked_mul x y) (λ v. checked_div v one)) (quote "stable k a overflow")
  x2 ← ok_or (and_then (checked_mul x x) (λ v. checked_div v one)) (quote "stable k x2 overflow")
  y2 ← ok_or (and_then (checked_mul y y) (λ v. checked_div v one)) (quote "stable k y2 overflow")
  b ← ok_or (checked_add x2 y2) (quote "stable k b overflow")
  ok_or (and_then (checked_mul a b) (λ v. checked_div v one)) (quote "stable k overflow")

unfoldable pub stable_f : ℕ → ℕ → ArbResult ℕ
stable_f x0 y = do
  a ← ok_or (and_then (checked_mul x0 y) (λ v. checked_div v one)) (quote "stable f a overflow")
  x2 ← ok_or (and_then (checked_mul x0 x0) (λ v. checked_div v one)) (quote "stable f x2 overflow")
  y2 ← ok_or (and_then (checked_mul y y) (λ v. checked_div v one)) (quote "stable f y2 overflow")
  b ← ok_or (checked_add x2 y2) (quote "stable f b overflow")
  ok_or (and_then (checked_mul a b) (λ v. checked_div v one)) (quote "stable f overflow")

unfoldable pub stable_d : ℕ → ℕ → ArbResult ℕ
stable_d x0 y = do
  y2 ← ok_or (and_then (checked_mul y y) (λ v. checked_div v one)) (quote "stable d y2 overflow")
  left ←
      ok_or
        (and_then (and_then (checked_mul 3 x0) (λ v. checked_mul v y2)) (λ v. checked_div v one))
        (quote "stable d left overflow")
  x2 ← ok_or (and_then (checked_mul x0 x0) (λ v. checked_div v one)) (quote "stable d x2 overflow")
  right ←
      ok_or (and_then (checked_mul x2 x0) (λ v. checked_div v one))
        (quote "stable d right overflow")
  ok_or (checked_add left right) (quote "stable d overflow")

-- How a round of `get_y` ends.
pub data Newton : Type 0 where
  found : ℕ → Newton
  again : ℕ → Newton

-- The step by 1 of the branch for a value below the target. (The source adds 1 a second time where
-- it goes on; that sum is `y_plus_one` again.)
unfoldable pub nudge_up : ℕ → ℕ → ℕ → ArbResult Newton
nudge_up x0 xy y = do
  y_plus_one ← ok_or (checked_add y 1) (quote "stable y add overflow")
  f ← stable_f x0 y_plus_one
  if ltb xy f then ok (found y_plus_one) else ok (again y_plus_one)

-- That branch, with the change that Newton's method asks for.
unfoldable pub newton_up : ℕ → ℕ → ℕ → ℕ → ℕ → ArbResult Newton
newton_up x0 xy y k dy =
    if dy == 0
    then (if k == xy then ok (found y) else nudge_up x0 xy y)
    else (do next ← ok_or (checked_add y dy) (quote "stable y add overflow"); ok (again next))

-- The other branch from `if dy > y` on, and its step by 1.
unfoldable pub newton_decrease : ℕ → ℕ → ArbResult Newton
newton_decrease y dy = if ltb y dy then err (quote "stable y underflow") else ok (again (y - dy))

unfoldable pub nudge_down : ℕ → ℕ → ℕ → ArbResult Newton
nudge_down x0 xy y = do
  f ← stable_f x0 (y - 1)
  if ltb f xy then ok (found y) else newton_decrease y 1

unfoldable pub newton_down : ℕ → ℕ → ℕ → ℕ → ℕ → ArbResult Newton
newton_down x0 xy y k dy =
    if dy == 0
    then (if k == xy || y == 0 then ok (found y) else nudge_down x0 xy y)
    else newton_decrease y dy

-- The change of Newton's method from the two values' distance and the slope.
unfoldable pub newton_change : ℕ → ℕ → ℕ → Option ℕ
newton_change high low d =
    and_then (and_then (checked_sub high low) (λ v. checked_mul v one)) (λ v. checked_div v d)

-- A round from its values `k` on the curve and `d`, the slope.
unfoldable pub newton_branch : ℕ → ℕ → ℕ → ℕ → ℕ → ArbResult Newton
newton_branch x0 xy y k d =
    if ltb k xy
    then (do
      dy ← ok_or (newton_change xy k d) (quote "stable y increment overflow")
      newton_up x0 xy y k dy)
    else (do
      dy ← ok_or (newton_change k xy d) (quote "stable y decrement overflow")
      newton_down x0 xy y k dy)

unfoldable pub newton_round : ℕ → ℕ → ℕ → ArbResult Newton
newton_round x0 xy y = do
  k ← stable_f x0 y
  d ← stable_d x0 y
  if d == 0 then err (quote "stable derivative is zero") else newton_branch x0 xy y k d

unfoldable pub get_y_rounds : ℕ → ℕ → ℕ → ℕ → ArbResult ℕ
get_y_rounds zero x0 xy y = err (quote "stable y did not converge")
get_y_rounds (suc rounds) x0 xy y = do
  r ← newton_round x0 xy y
  elim r [ found y' ↦ ok y' | again y' ↦ get_y_rounds rounds x0 xy y' ]

unfoldable pub get_y : ℕ → ℕ → ℕ → ArbResult ℕ
get_y = get_y_rounds 255

unfoldable pub quote_amount_out : ℕ → ℕ → ℕ → ℕ → ℕ → ℕ → ArbResult ℕ
quote_amount_out reserve_in reserve_out amount_in fee_bps decimals_in decimals_out =
    if reserve_in == 0 || reserve_out == 0
    then err (quote "empty reserve")
    else if amount_in == 0
    then ok 0
    else do
      numerator ← fee_numerator fee_bps
      amount_in_after_fee ←
          ok_or (and_then (checked_mul amount_in numerator) (λ v. checked_div v fee_denominator))
            (quote "amount_in fee overflow")
      reserve_in_scaled ← scale_to_1e18 reserve_in decimals_in
      reserve_out_scaled ← scale_to_1e18 reserve_out decimals_out
      amount_in_scaled ← scale_to_1e18 amount_in_after_fee decimals_in
      xy ← stable_k reserve_in_scaled reserve_out_scaled
      x0 ← ok_or (checked_add reserve_in_scaled amount_in_scaled) (quote "stable x overflow")
      y ← get_y x0 xy reserve_out_scaled
      if ltb reserve_out_scaled y
          then err (quote "stable y overflow")
          else unscale_from_1e18 (reserve_out_scaled - y) decimals_out

-- `DexQuoter::quote_exact_in`
unfoldable pub quote_exact_in : PoolState → Address → ℕ → ArbResult QuoteResult
quote_exact_in state token_in amount_in = do
  reserve0 ← ok_or state.reserve0 (quote "missing reserve0")
  reserve1 ← ok_or state.reserve1 (quote "missing reserve1")
  decimals0 ← ok_or state.token0_decimals (quote "missing token0 decimals")
  decimals1 ← ok_or state.token1_decimals (quote "missing token1 decimals")
  amount_out ←
      if token_in == state.token0
      then quote_amount_out reserve0 reserve1 amount_in state.fee_bps decimals0 decimals1
      else if token_in == state.token1
      then quote_amount_out reserve1 reserve0 amount_in state.fee_bps decimals1 decimals0
      else err (quote "token_in not in pool")
  ok (record { amount_in = amount_in; amount_out = amount_out; gas_estimate = none })
