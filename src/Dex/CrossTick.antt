-- ===== src/Dex/CrossTick.antt =====
-- `simulate_zero_for_one` and `simulate_one_for_zero` of crates/dex/src/uniswap_v3.rs: a swap across
-- initialized ticks. The two loops differ in the side of the ticks, the sign of a tick's net
-- liquidity and the last target, which is what `zero_for_one` selects here. A net liquidity is not
-- the least i128, whose negation would overflow, and there are fewer than 2^32 ticks, so the counters
-- do not.
pub mod Progress
pub mod Diagnostics
use dexmoney.Prelude.{
  ℕ, ◌+◌, ◌-◌, Bool, true, false, List, [], ◌∷◌, ok, ◌>>=◌, ok_or, ◌==◌, ◌||◌, if◌then◌else◌,
  retain,
}
use dexmoney.Prelude.Int.{ℤ, pos, negsuc, negate, leb_ℤ, ltb_ℤ}
use dexmoney.Prelude.Sorting.{sort}
use dexmoney.Word.{u256_max, checked_add}
use dexmoney.Common.Errors.{quote, ArbResult}
use dexmoney.Common.Pool.{TickState}
use dexmoney.Dex.SwapStep.{SwapStepResult, compute_swap_step}
use dexmoney.Dex.Tick.{sqrt_ratio_at_tick}

pub record V3QuoteDiagnostics : Type 0 where
  pub ticks_used : ℕ
  pub crossed_ticks : ℕ
  pub tick_range_exhausted : Bool

-- The mutable variables of the loop.
pub record Walk : Type 0 where
  pub amount_remaining : ℕ
  pub sqrt_price : ℕ
  pub liquidity : ℕ
  pub amount_out : ℕ
  pub diagnostics : V3QuoteDiagnostics

-- How a round ends: the loop goes on, or the function returns.
pub data Round : Type 0 where
  going : Walk → Round
  returned : ℕ → V3QuoteDiagnostics → Round

unfoldable pub apply_liquidity_delta : ℕ → ℤ → ArbResult ℕ
apply_liquidity_delta liquidity (pos n) =
    ok_or (checked_add liquidity n) (quote "liquidity overflow")
apply_liquidity_delta liquidity (negsuc n) = ok (liquidity - (n + 1))

abbrev pub net_delta : Bool → TickState → ℤ
net_delta zero_for_one tick = if zero_for_one then negate tick.liquidity_net else tick.liquidity_net

-- `diagnostics.ticks_used += 1` and `diagnostics.crossed_ticks += 1`
abbrev pub used_tick : V3QuoteDiagnostics → V3QuoteDiagnostics
used_tick d = record d { ticks_used = d.ticks_used + 1 }

abbrev pub crossed_tick : V3QuoteDiagnostics → V3QuoteDiagnostics
crossed_tick d = record d { crossed_ticks = d.crossed_ticks + 1 }

-- A round in a range without liquidity jumps to the tick.
unfoldable pub jump_round : Bool → TickState → ℕ → Walk → ArbResult Round
jump_round zero_for_one tick target_sqrt w = do
  liquidity ← apply_liquidity_delta w.liquidity (net_delta zero_for_one tick)
  ok (
      going (record w {
        sqrt_price = target_sqrt;
        liquidity = liquidity;
        diagnostics = crossed_tick (used_tick w.diagnostics);
      }))

-- What a round does with its swap step.
unfoldable pub after_step : Bool → TickState → ℕ → Walk → SwapStepResult → ArbResult Round
after_step zero_for_one tick target_sqrt w step = do
  step_consumed ← ok_or (checked_add step.amount_in step.fee_amount) (quote "step amount overflow")
  amount_out ← ok_or (checked_add w.amount_out step.amount_out) (quote "amount_out overflow")
  if step.sqrt_next == target_sqrt
      then (do
        liquidity ← apply_liquidity_delta w.liquidity (net_delta zero_for_one tick)
        ok (
            going (record {
              amount_remaining = w.amount_remaining - step_consumed;
              sqrt_price = step.sqrt_next;
              liquidity = liquidity;
              amount_out = amount_out;
              diagnostics = crossed_tick (used_tick w.diagnostics);
            })))
      else ok (returned amount_out (used_tick w.diagnostics))

unfoldable pub swap_round : Bool → ℕ → TickState → ℕ → Walk → ArbResult Round
swap_round zero_for_one fee_pips tick target_sqrt w = do
  step ←
      compute_swap_step w.sqrt_price target_sqrt w.liquidity w.amount_remaining fee_pips
        zero_for_one
  after_step zero_for_one tick target_sqrt w step

unfoldable pub tick_round : Bool → ℕ → TickState → Walk → ArbResult Round
tick_round zero_for_one fee_pips tick w = do
  target_sqrt ← sqrt_ratio_at_tick tick.tick
  if w.liquidity == 0
      then jump_round zero_for_one tick target_sqrt w
      else swap_round zero_for_one fee_pips tick target_sqrt w

-- The loop over the ticks, which ends early when nothing remains.
unfoldable pub walk_ticks : Bool → ℕ → List TickState → Walk → ArbResult Round
walk_ticks zero_for_one fee_pips [] w = ok (going w)
walk_ticks zero_for_one fee_pips (tick ∷ ticks) w =
    if w.amount_remaining == 0 then ok (going w) else (do
      r ← tick_round zero_for_one fee_pips tick w
      elim r [
        | going w' ↦ walk_ticks zero_for_one fee_pips ticks w'
        | returned out d ↦ ok (returned out d)
      ])

-- After the loop: what remains is swapped beyond the last known tick, and reported as such.
unfoldable pub finish : Bool → ℕ → Walk → ArbResult (ℕ × V3QuoteDiagnostics)
finish zero_for_one fee_pips w =
    if w.amount_remaining == 0 || w.liquidity == 0 then ok (w.amount_out, w.diagnostics) else do
      step ←
          compute_swap_step w.sqrt_price (if zero_for_one then 1 else u256_max) w.liquidity
            w.amount_remaining fee_pips zero_for_one
      amount_out ← ok_or (checked_add w.amount_out step.amount_out) (quote "amount_out overflow")
      ok (amount_out, record w.diagnostics { tick_range_exhausted = true })

unfoldable pub conclude : Bool → ℕ → Round → ArbResult (ℕ × V3QuoteDiagnostics)
conclude zero_for_one fee_pips (going w) = finish zero_for_one fee_pips w
conclude zero_for_one fee_pips (returned out d) = ok (out, d)

-- The ticks in the order in which a falling and a rising price meet them.
unfoldable pub ticks_ahead : Bool → ℤ → List TickState → List TickState
ticks_ahead true current_tick ticks =
    sort (λ a b. leb_ℤ b.tick a.tick) (retain (λ t. leb_ℤ t.tick current_tick) ticks)
ticks_ahead false current_tick ticks =
    sort (λ a b. leb_ℤ a.tick b.tick) (retain (λ t. ltb_ℤ current_tick t.tick) ticks)

abbrev pub start_walk : ℕ → ℕ → ℕ → Walk
start_walk amount sqrt_price liquidity = record {
  amount_remaining = amount;
  sqrt_price = sqrt_price;
  liquidity = liquidity;
  amount_out = 0;
  diagnostics = record { ticks_used = 0; crossed_ticks = 0; tick_range_exhausted = false };
}

unfoldable pub simulate :
    Bool → ℕ → ℕ → ℕ → ℤ → List TickState → ℕ → ArbResult (ℕ × V3QuoteDiagnostics)
simulate zero_for_one amount sqrt_price liquidity current_tick initialized_ticks fee_pips = do
  r ←
      walk_ticks zero_for_one fee_pips (ticks_ahead zero_for_one current_tick initialized_ticks)
        (start_walk amount sqrt_price liquidity)
  conclude zero_for_one fee_pips r
