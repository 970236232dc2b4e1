-- ===== src/Dex/V3/Agreement.antt =====
-- The cross-tick step beside the current-tick quoter.
use dexmoney.Prelude.{
  ℕ, ◌-◌, ◌<◌, ◌≡◌, ◌≢◌, inl, inr, true, false, ok, arith, >>=-elim, ok_injective, sym, ap, leb,
  ◌==◌, ◌||◌, Bool-cases,
}
use dexmoney.Dex.MulDiv.{mul_div, mul_div_rounding_up}
use dexmoney.Dex.Sqrt.{
  amount0_delta, amount1_delta, next_sqrt_price_from_amount0_in, next_sqrt_price_from_amount1_in,
}
use dexmoney.Dex.SwapStep.{SwapStepResult, compute_swap_step}
use dexmoney.Dex.V3.{quote_token0_for_token1, quote_token1_for_token0}

module _ (price target liquidity remaining fee less : ℕ) where
  -- A cross-tick step that sells token 0, with liquidity, an input and something left of it after the fee,
  -- and that stops short of its target pays what the current-tick quoter pays for the input less the fee.
  pub step-eq-current_tick0 :
      {step : SwapStepResult}
      → 0 < remaining
      → 0 < liquidity
      → mul_div remaining (1_000_000 - fee) 1_000_000 ≡ ok less
      → 0 < less
      → compute_swap_step price target liquidity remaining fee true ≡ ok step
      → step.sqrt_next ≢ target
      → quote_token0_for_token1 less price liquidity ≡ ok step.amount_out
  unfolding compute_swap_step quote_token0_for_token1
  step-eq-current_tick0 {step} pr pl e pe h short =
      let busy : (remaining == 0 || liquidity == 0) ≡ false = ground arith in
      let some_less : (less == 0) ≡ false = ground arith in
      >>=-elim (amount0_delta liquidity target price true) _ (rw (busy, e) at h) λ to_target _ h1.
        elim (Bool-cases (leb to_target less)) [
          | inl reached ↦
              >>=-elim (amount0_delta liquidity target price true) _ (rw reached at h1)
                λ amount _ h2.
                  >>=-elim (amount1_delta liquidity target price false) _ h2 λ out _ h3.
                    >>=-elim (mul_div_rounding_up amount fee (1_000_000 - fee)) _ h3 λ charged _ h4.
                      absurd (short (sym (ap (λ r. r.sqrt_next) (ok_injective _ step h4))))
          | inr under ↦
              >>=-elim (next_sqrt_price_from_amount0_in price liquidity less) _ (rw under at h1)
                λ next priced h2.
                  >>=-elim (amount0_delta liquidity next price true) _ h2 λ amount _ h3.
                    >>=-elim (amount1_delta liquidity next price false) _ h3 λ out paid h4.
                      let same = ap (λ r. r.amount_out) (ok_injective _ step h4) in
                      rw (some_less, priced, paid, same)
        ]

  -- A cross-tick step that sells token 1, with liquidity, an input and something left of it after the fee,
  -- and that stops short of its target pays what the current-tick quoter pays for the input less the fee.
  pub step-eq-current_tick1 :
      {step : SwapStepResult}
      → 0 < remaining
      → 0 < liquidity
      → mul_div remaining (1_000_000 - fee) 1_000_000 ≡ ok less
      → 0 < less
      → compute_swap_step price target liquidity remaining fee false ≡ ok step
      → step.sqrt_next ≢ target
      → quote_token1_for_token0 less price liquidity ≡ ok step.amount_out
  unfolding compute_swap_step quote_token1_for_token0
  step-eq-current_tick1 {step} pr pl e pe h short =
      let busy : (remaining == 0 || liquidity == 0) ≡ false = ground arith in
      let some_less : (less == 0) ≡ false = ground arith in
      >>=-elim (amount1_delta liquidity price target true) _ (rw (busy, e) at h) λ to_target _ h1.
        elim (Bool-cases (leb to_target less)) [
          | inl reached ↦
              >>=-elim (amount1_delta liquidity price target true) _ (rw reached at h1)
                λ amount _ h2.
                  >>=-elim (amount0_delta liquidity price target false) _ h2 λ out _ h3.
                    >>=-elim (mul_div_rounding_up amount fee (1_000_000 - fee)) _ h3 λ charged _ h4.
                      absurd (short (sym (ap (λ r. r.sqrt_next) (ok_injective _ step h4))))
          | inr under ↦
              >>=-elim (next_sqrt_price_from_amount1_in price liquidity less) _ (rw under at h1)
                λ next priced h2.
                  >>=-elim (amount1_delta liquidity price next true) _ h2 λ amount _ h3.
                    >>=-elim (amount0_delta liquidity price next false) _ h3 λ out paid h4.
                      let same = ap (λ r. r.amount_out) (ok_injective _ step h4) in
                      rw (some_less, priced, paid, same)
        ]
