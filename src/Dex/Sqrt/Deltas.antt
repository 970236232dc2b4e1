-- ===== src/Dex/Sqrt/Deltas.antt =====
-- Deltas and next prices as exact quotients.
use mathlib.Core.Path.{subst}
use native.Mathlib.Nat.{mul-le-mul, le_refl}
use dexmoney.Prelude.{ℕ, ◌+◌, ◌-◌, ◌*◌, ◌^◌, ◌≤◌, ◌≡◌, true, ok, arith, >>=-elim, false, ok_or}
use dexmoney.Word.{checked_shl}
use dexmoney.Common.Errors.{ArbBotError, quote}
use dexmoney.Word.Division.{div_bounds}
use dexmoney.Dex.MulDiv.{ordered_le, mul_div, mul_div_rounding_up}
use dexmoney.Dex.MulDiv.Rounding.{
  IsFloor, IsCeiling, mul_div-IsFloor, mul_div_rounding_up-IsCeiling,
  mul_div_rounding_up_u512-IsCeiling, div_round_up-IsCeiling,
}
use dexmoney.Dex.Sqrt.{
  amount0_delta, amount1_delta, next_sqrt_price_from_amount0_in, next_sqrt_price_from_amount1_in,
}

-- Rounding up twice is rounding up once, by the product of the divisors.
IsCeiling-twice : (n u l v q : ℕ) → IsCeiling n u v → IsCeiling v l q → IsCeiling n (u * l) q
IsCeiling-twice n u l v q (pu, a, b) (pl, c, d) =
    let up : v * u ≤ q * l * u = mul-le-mul c (le_refl u) in
    let down : (q * l + 1) * u ≤ (v + l) * u = mul-le-mul (omega arith) (le_refl u) in
    (grind arith, omega arith, omega arith)

shl_lem :
    (liquidity : ℕ) (e : ArbBotError) {n : ℕ}
    → ok_or (checked_shl liquidity 96) e ≡ ok n
    → n ≡ liquidity * 2 ^ 96
shl_lem liquidity e h = ground arith

pub amount0_delta_up-IsCeiling :
    (liquidity lower upper : ℕ) {q : ℕ}
    → lower ≤ upper
    → amount0_delta liquidity lower upper true ≡ ok q
    → IsCeiling (liquidity * 2 ^ 96 * (upper - lower)) (upper * lower) q
unfolding amount0_delta
amount0_delta_up-IsCeiling liquidity lower upper {q} le h =
    >>=-elim (ok_or (checked_shl liquidity 96) (quote "amount0 numerator overflow")) _
      (rw (ordered_le lower upper le) at h)
      λ n shl rest. >>=-elim (mul_div_rounding_up n (upper - lower) upper) _ rest λ v up round.
        let e : n ≡ liquidity * 2 ^ 96 = shl_lem liquidity _ shl in
        let ceiling : IsCeiling (n * (upper - lower)) (upper * lower) q =
          IsCeiling-twice (n * (upper - lower)) upper lower v q
            (mul_div_rounding_up-IsCeiling n (upper - lower) upper up)
            (div_round_up-IsCeiling v lower round) in
        subst (λ m. IsCeiling (m * (upper - lower)) (upper * lower) q) e ceiling

pub amount1_delta_up-IsCeiling :
    (liquidity lower upper : ℕ) {q : ℕ}
    → lower ≤ upper
    → amount1_delta liquidity lower upper true ≡ ok q
    → IsCeiling (liquidity * (upper - lower)) (2 ^ 96) q
unfolding amount1_delta
amount1_delta_up-IsCeiling liquidity lower upper le h =
    mul_div_rounding_up-IsCeiling liquidity (upper - lower) (2 ^ 96)
      (rw (ordered_le lower upper le) at h)

pub next_sqrt_price_from_amount0_in-IsCeiling :
    (price liquidity amount : ℕ) {next : ℕ}
    → next_sqrt_price_from_amount0_in price liquidity amount ≡ ok next
    → IsCeiling (liquidity * 2 ^ 96 * price) (liquidity * 2 ^ 96 + amount * price) next
unfolding next_sqrt_price_from_amount0_in
next_sqrt_price_from_amount0_in-IsCeiling price liquidity amount {next} h = ground (
  arith,
  mul_div_rounding_up_u512-IsCeiling (liquidity * 2 ^ 96) price
      (liquidity * 2 ^ 96 + amount * price) {q = next},
)

pub next_sqrt_price_from_amount1_in-IsFloor :
    (price liquidity amount : ℕ) {next : ℕ}
    → next_sqrt_price_from_amount1_in price liquidity amount ≡ ok next
    → (price ≤ next) × IsFloor (amount * 2 ^ 96) liquidity (next - price)
unfolding next_sqrt_price_from_amount1_in
next_sqrt_price_from_amount1_in-IsFloor price liquidity amount h =
    >>=-elim (mul_div amount (2 ^ 96) liquidity) _ h
      λ delta q sum. ground (arith, mul_div-IsFloor amount (2 ^ 96) liquidity q)

pub amount1_delta_down-IsFloor :
    (liquidity lower upper : ℕ) {q : ℕ}
    → lower ≤ upper
    → amount1_delta liquidity lower upper false ≡ ok q
    → IsFloor (liquidity * (upper - lower)) (2 ^ 96) q
unfolding amount1_delta
amount1_delta_down-IsFloor liquidity lower upper le h =
    mul_div-IsFloor liquidity (upper - lower) (2 ^ 96) (rw (ordered_le lower upper le) at h)

pub amount0_delta_down-IsFloor :
    (liquidity lower upper : ℕ) {q : ℕ}
    → lower ≤ upper
    → amount0_delta liquidity lower upper false ≡ ok q
    → (v : ℕ) × IsFloor (liquidity * 2 ^ 96 * (upper - lower)) upper v × IsFloor v lower q
unfolding amount0_delta
amount0_delta_down-IsFloor liquidity lower upper le h =
    >>=-elim (ok_or (checked_shl liquidity 96) (quote "amount0 numerator overflow")) _
      (rw (ordered_le lower upper le) at h)
      λ n shl rest. >>=-elim (mul_div n (upper - lower) upper) _ rest λ v down last.
        let e : n ≡ liquidity * 2 ^ 96 = shl_lem liquidity _ shl in
        let part = mul_div-IsFloor n (upper - lower) upper down in
        (
          v,
          subst (λ m. IsFloor (m * (upper - lower)) upper v) e part,
          ground (arith, div_bounds v lower),
        )
