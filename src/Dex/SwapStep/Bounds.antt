-- ===== src/Dex/SwapStep/Bounds.antt =====
-- The price and the amounts of a swap step.
use dexmoney.Prelude.{
  ℕ, ◌+◌, ◌-◌, ◌*◌, ◌^◌, ◌≤◌, ◌<◌, ◌≡◌, ◌≢◌, ◌||◌, true, false, inl, inr, ok, arith, leb, ◌==◌,
  Bool-cases, >>=-elim,
}
use dexmoney.Dex.MulDiv.Rounding.{IsFloor, mul_div-IsFloor, mul_div_rounding_up-IsCeiling}
use dexmoney.Dex.MulDiv.{mul_div, mul_div_rounding_up}
use dexmoney.Dex.Sqrt.{
  amount0_delta, amount1_delta, next_sqrt_price_from_amount0_in, next_sqrt_price_from_amount1_in,
}
use dexmoney.Dex.Sqrt.Deltas.{
  amount0_delta_up-IsCeiling, amount1_delta_up-IsCeiling, next_sqrt_price_from_amount0_in-IsCeiling,
  next_sqrt_price_from_amount1_in-IsFloor,
}
use dexmoney.Dex.SwapStep.{SwapStepResult, compute_swap_step}
use dexmoney.Dex.SwapStep.Geometry.{
  full_step_fits, less_fits, sell0_price, sell0_amount, sell1_price, sell1_amount,
}

-- The step used `amount_in + fee_amount` of the input: never more than remains, and all of it
-- unless the target was reached.
pub record Uses (remaining target : ℕ) (step : SwapStepResult) : Type 0 where
  pub within : step.amount_in + step.fee_amount ≤ remaining
  pub whole : step.sqrt_next ≢ target → step.amount_in + step.fee_amount ≡ remaining

module _ (price target liquidity remaining fee : ℕ) (active : 0 < liquidity) where
  -- The last part of a step that reaches its target, and of one that stops short.
  full_step :
      (less to_target amount charged out : ℕ) {step : SwapStepResult}
      → IsFloor (remaining * (1_000_000 - fee)) 1_000_000 less
      → leb to_target less ≡ true
      → amount ≡ to_target
      → mul_div_rounding_up amount fee (1_000_000 - fee) ≡ ok charged
      → step
        ≡ record { sqrt_next = target; amount_in = amount; amount_out = out; fee_amount = charged }
      → (step.sqrt_next ≡ target) × Uses remaining target step
  full_step less to_target amount charged out part reached same charge e =
      let fits =
        full_step_fits remaining fee less amount charged part
          (mul_div_rounding_up-IsCeiling amount fee (1_000_000 - fee) charge) (ground arith) in
      ground arith

  short_step :
      (less amount next out : ℕ) {step : SwapStepResult}
      → IsFloor (remaining * (1_000_000 - fee)) 1_000_000 less
      → amount ≤ less
      → step ≡ record {
        sqrt_next = next;
        amount_in = amount;
        amount_out = out;
        fee_amount = remaining - amount;
      }
      → (step.sqrt_next ≡ next) × Uses remaining target step
  short_step less amount next out part le e =
      let fits = less_fits remaining fee less part in ground arith

  -- A step that sells token 0 in a range with liquidity, towards a target at or under the price: the next
  -- price lies between the target and the price, input and fee use no more than remains, and they use
  -- all of it unless the target is reached.
  pub sell0_step :
      {step : SwapStepResult}
      → target ≤ price
      → compute_swap_step price target liquidity remaining fee true ≡ ok step
      → (target ≤ step.sqrt_next) × (step.sqrt_next ≤ price) × Uses remaining target step
  unfolding compute_swap_step
  sell0_step {step} below h = elim (Bool-cases (remaining == 0 || liquidity == 0)) [
    | inl idle ↦ ground arith
    | inr busy ↦
        >>=-elim (mul_div remaining (1_000_000 - fee) 1_000_000) _ (rw busy at h) λ less part h1.
          >>=-elim (amount0_delta liquidity target price true) _ h1 λ to_target far h2.
            elim (Bool-cases (leb to_target less)) [
              | inl reached ↦
                  >>=-elim (amount0_delta liquidity target price true) _ (rw reached at h2)
                    λ amount spent h3.
                      >>=-elim (amount1_delta liquidity target price false) _ h3 λ out _ h4.
                        >>=-elim (mul_div_rounding_up amount fee (1_000_000 - fee)) _ h4
                          λ charged charge h5. ground (
                            arith,
                            full_step less to_target amount charged out {step = step}
                                (mul_div-IsFloor remaining (1_000_000 - fee) 1_000_000 part) reached
                                (cc) charge (cc),
                          )
              | inr short ↦
                  >>=-elim (next_sqrt_price_from_amount0_in price liquidity less) _ (rw short at h2)
                    λ next priced h3.
                      >>=-elim (amount0_delta liquidity next price true) _ h3 λ amount spent h4.
                        >>=-elim (amount1_delta liquidity next price false) _ h4 λ out _ h5.
                          let n = liquidity * 2 ^ 96 in
                          let ceiling =
                            next_sqrt_price_from_amount0_in-IsCeiling price liquidity less priced in
                          let (lo, hi) =
                            sell0_price n price target less to_target next below
                              (amount0_delta_up-IsCeiling liquidity target price below far)
                              (ground arith) ceiling in
                          let le =
                            sell0_amount n price target less to_target next below amount hi ceiling
                              (amount0_delta_up-IsCeiling liquidity next price hi spent) in
                          ground (
                            arith,
                            short_step less amount next out {step = step}
                                (mul_div-IsFloor remaining (1_000_000 - fee) 1_000_000 part) le
                                (cc),
                          )
            ]
  ]

  -- A step that sells token 1 in a range with liquidity, towards a target at or over the price: the next
  -- price lies between the price and the target, input and fee use no more than remains, and they use
  -- all of it unless the target is reached.
  pub sell1_step :
      {step : SwapStepResult}
      → price ≤ target
      → compute_swap_step price target liquidity remaining fee false ≡ ok step
      → (price ≤ step.sqrt_next) × (step.sqrt_next ≤ target) × Uses remaining target step
  unfolding compute_swap_step
  sell1_step {step} above h = elim (Bool-cases (remaining == 0 || liquidity == 0)) [
    | inl idle ↦ ground arith
    | inr busy ↦
        >>=-elim (mul_div remaining (1_000_000 - fee) 1_000_000) _ (rw busy at h) λ less part h1.
          >>=-elim (amount1_delta liquidity price target true) _ h1 λ to_target far h2.
            elim (Bool-cases (leb to_target less)) [
              | inl reached ↦
                  >>=-elim (amount1_delta liquidity price target true) _ (rw reached at h2)
                    λ amount spent h3.
                      >>=-elim (amount0_delta liquidity price target false) _ h3 λ out _ h4.
                        >>=-elim (mul_div_rounding_up amount fee (1_000_000 - fee)) _ h4
                          λ charged charge h5. ground (
                            arith,
                            full_step less to_target amount charged out {step = step}
                                (mul_div-IsFloor remaining (1_000_000 - fee) 1_000_000 part) reached
                                (cc) charge (cc),
                          )
              | inr short ↦
                  >>=-elim (next_sqrt_price_from_amount1_in price liquidity less) _ (rw short at h2)
                    λ next priced h3.
                      >>=-elim (amount1_delta liquidity price next true) _ h3 λ amount spent h4.
                        >>=-elim (amount0_delta liquidity price next false) _ h4 λ out _ h5.
                          let (lo, floor) =
                            next_sqrt_price_from_amount1_in-IsFloor price liquidity less priced in
                          let hi =
                            sell1_price liquidity price target less to_target next above
                              (amount1_delta_up-IsCeiling liquidity price target above far)
                              (ground arith) lo floor in
                          let le =
                            sell1_amount liquidity price target less to_target next above amount
                              floor (amount1_delta_up-IsCeiling liquidity price next lo spent) in
                          ground (
                            arith,
                            short_step less amount next out {step = step}
                                (mul_div-IsFloor remaining (1_000_000 - fee) 1_000_000 part) le
                                (cc),
                          )
            ]
  ]
