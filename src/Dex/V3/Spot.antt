-- ===== src/Dex/V3/Spot.antt =====
-- The spot quote beside the current-tick quote.
use mathlib.Core.Path.{subst}
use native.Mathlib.Nat.{mul-le-mul, le_refl, le_trans}
use dexmoney.Prelude.{
  ℕ, ◌+◌, ◌-◌, ◌*◌, ◌^◌, ◌≤◌, ◌<◌, ◌≡◌, some, ok_or-eq-ok, inl, inr, true, false, ok, arith,
  >>=-elim, ok_or, ok_injective, never, ◌==◌, ◌||◌, ◌&&◌, not, Bool-cases, ap,
}
use dexmoney.Word.{checked_mul_u512}
use dexmoney.Word.Division.{lt_of_mul_lt}
use dexmoney.Common.Errors.{quote}
use dexmoney.Common.Pool.{Address, PoolState, QuoteResult}
use dexmoney.Dex.MulDiv.{mul_div}
use dexmoney.Dex.MulDiv.Rounding.{IsCeiling, mul_div-IsFloor, mul_div_u512-IsFloor, le_of_IsFloor}
use dexmoney.Dex.Sqrt.{next_sqrt_price_from_amount0_in, next_sqrt_price_from_amount1_in}
use dexmoney.Dex.Sqrt.Deltas.{
  amount1_delta_down-IsFloor, amount0_delta_down-IsFloor, next_sqrt_price_from_amount0_in-IsCeiling,
  next_sqrt_price_from_amount1_in-IsFloor,
}
use dexmoney.Dex.SwapStep.Geometry.{less_fits}
use dexmoney.Dex.V3.{
  v3_fee_pips, quote_token0_for_token1, quote_token1_for_token0, quote_exact_in,
  spot_quote_exact_in,
}

-- Inequalities over the exact quotients, with `n` the shifted liquidity and `q` the fixed point.
sell0_le :
    (liquidity q amount price next out : ℕ)
    → next ≤ price
    → liquidity * q * price ≤ next * (liquidity * q + amount * price)
    → out * q ≤ liquidity * (price - next)
    → out * (q * q) ≤ amount * (price * price)
sell0_le liquidity q amount price next out le c f =
    let e : price ≡ next + (price - next) = omega arith in
    let first = ap (λ m. liquidity * q * m) e in
    let second = ap (λ m. m * (amount * price)) e in
    let scaled : out * q * q ≤ liquidity * (price - next) * q = mul-le-mul f (le_refl q) in
    omega arith

sell1_le :
    (liquidity q amount price next v out : ℕ)
    → price ≤ next
    → (next - price) * liquidity ≤ amount * q
    → v * next ≤ liquidity * q * (next - price)
    → out * price ≤ v
    → out * (price * price) ≤ amount * (q * q)
sell1_le liquidity q amount price next v out le f g h =
    let scaled : (next - price) * liquidity * q ≤ amount * q * q = mul-le-mul f (le_refl q) in
    let wide : out * price * price ≤ v * next = mul-le-mul h le in omega arith

next_le : (n amount price next : ℕ) → IsCeiling (n * price) (n + amount * price) next → next ≤ price
next_le n amount price next (p, c, d) =
    let strict : next < price + 1 =
      lt_of_mul_lt next (price + 1) (n + amount * price) (omega arith) in
    omega arith

pub quote_token0_bound :
    (amount price liquidity : ℕ) {out : ℕ}
    → quote_token0_for_token1 amount price liquidity ≡ ok out
    → out * 2 ^ 192 ≤ amount * (price * price)
unfolding quote_token0_for_token1
quote_token0_bound amount price liquidity {out} h = elim (Bool-cases (amount == 0)) [
  | inl idle ↦ let e = ok_injective 0 out (rw idle at h) in omega arith
  | inr busy ↦
      >>=-elim (next_sqrt_price_from_amount0_in price liquidity amount) _ (rw busy at h) λ next e k.
        let (p, c, d) = next_sqrt_price_from_amount0_in-IsCeiling price liquidity amount e in
        let le = next_le (liquidity * 2 ^ 96) amount price next (p, c, d) in
        let (_, f, _) = amount1_delta_down-IsFloor liquidity next price le k in
        omega (arith, sell0_le liquidity (2 ^ 96) amount price next out le c f)
]

pub quote_token1_bound :
    (amount price liquidity : ℕ) {out : ℕ}
    → quote_token1_for_token0 amount price liquidity ≡ ok out
    → out * (price * price) ≤ amount * 2 ^ 192
unfolding quote_token1_for_token0
quote_token1_bound amount price liquidity {out} h = elim (Bool-cases (amount == 0)) [
  | inl idle ↦
      let e = ok_injective 0 out (rw idle at h) in omega (arith, ap (λ m. m * (price * price)) e)
  | inr busy ↦
      >>=-elim (next_sqrt_price_from_amount1_in price liquidity amount) _ (rw busy at h) λ next e k.
        let (le, (_, f, _)) = next_sqrt_price_from_amount1_in-IsFloor price liquidity amount e in
        let (v, (_, g, _), (_, i, _)) = amount0_delta_down-IsFloor liquidity price next le k in
        omega (arith, sell1_le liquidity (2 ^ 96) amount price next v out le f g i)
]

-- A successful spot quote is the greatest amount under the price.
abbrev IsSpot : ℕ → ℕ → ℕ → ℕ → Type 0
IsSpot scale amount price s = (x : ℕ) → x * scale ≤ amount * price → x ≤ s

abbrev SpotAt : PoolState → Address → ℕ → ℕ → ℕ → Type 0
SpotAt state token amount s price =
    ((token == state.token0) ≡ true → IsSpot (2 ^ 192) amount (price * price) s)
    × ((token == state.token0) ≡ false → IsSpot (price * price) amount (2 ^ 192) s)

spot_parts :
    (state : PoolState) (token : Address) (amount price : ℕ) {s : ℕ}
    → state.sqrt_price_x96 ≡ some price
    → spot_quote_exact_in state token amount ≡ ok s
    → SpotAt state token amount s price
unfolding spot_quote_exact_in
spot_parts state token amount price {s} known h =
    >>=-elim (ok_or state.sqrt_price_x96 (quote "missing sqrt_price_x96")) _ h λ p e h1.
      let same : p ≡ price =
        ground (arith, ok_or-eq-ok state.sqrt_price_x96 (quote "missing sqrt_price_x96") e) in
      subst (SpotAt state token amount s) same (elim (Bool-cases (p == 0)) [
        | inl zero_price ↦ absurd (never (rw zero_price at h1))
        | inr some_price ↦
            >>=-elim (ok_or (checked_mul_u512 p p) (quote "price overflow")) _ (rw some_price at h1)
              λ square sq h2.
                let e2 : square ≡ p * p = ground arith in
                (
                  λ sell0 x.
                      le_of_IsFloor (amount * (p * p)) (2 ^ 192) s x
                        (mul_div_u512-IsFloor amount (p * p) (2 ^ 192) (rw (sell0, e2) at h2)),
                  λ sell1 x. elim (Bool-cases (token == state.token1)) [
                    | inl known1 ↦ le_of_IsFloor (amount * 2 ^ 192) (p * p) s x (
                        mul_div_u512-IsFloor amount (2 ^ 192) (p * p)
                          (rw (sell1, known1, e2) at h2))
                    | inr unknown ↦ absurd (never (rw (sell1, unknown) at h2))
                  ],
                )
      ])

-- Wherever both quoters succeed, the spot quote is at least what the current-tick quoter pays: the
-- spot price is an upper bound of the output.
pub spot_bounds_current_tick :
    (state : PoolState) (token_in : Address) (amount_in : ℕ) {q : QuoteResult} {s : ℕ}
    → quote_exact_in state token_in amount_in ≡ ok q
    → spot_quote_exact_in state token_in amount_in ≡ ok s
    → q.amount_out ≤ s
unfolding quote_exact_in
spot_bounds_current_tick state token amount {q} {s} h k =
    elim (Bool-cases (not (token == state.token0) && not (token == state.token1))) [
      | inl unknown ↦ absurd (never (rw unknown at h))
      | inr known ↦
          >>=-elim (ok_or state.sqrt_price_x96 (quote "missing sqrt_price_x96")) _ (rw known at h)
            λ price e h0.
              >>=-elim (ok_or state.liquidity (quote "missing liquidity")) _ h0 λ liquidity _ h1.
                let (sell0, sell1) =
                  spot_parts state token amount price (ok_or-eq-ok state.sqrt_price_x96 _ e) k in
                elim (Bool-cases (price == 0 || liquidity == 0)) [
                  | inl empty ↦ absurd (never (rw empty at h1))
                  | inr full ↦ >>=-elim (v3_fee_pips state) _ (rw full at h1) λ fee _ h2.
                      >>=-elim (mul_div amount (1_000_000 - fee) 1_000_000) _ h2 λ less part h3.
                        let le =
                          less_fits amount fee less
                            (mul_div-IsFloor amount (1_000_000 - fee) 1_000_000 part) in
                        elim (Bool-cases (token == state.token0)) [
                          | inl first ↦
                              >>=-elim (quote_token0_for_token1 less price liquidity) _
                                (rw first at h3)
                                λ out paid h4.
                                  let bound = quote_token0_bound less price liquidity paid in
                                  let more : less * (price * price) ≤ amount * (price * price) =
                                    mul-le-mul le (le_refl (price * price)) in
                                  subst (λ r. r.amount_out ≤ s) (ok_injective _ q h4)
                                    (sell0 first out (le_trans bound more))
                          | inr second ↦
                              >>=-elim (quote_token1_for_token0 less price liquidity) _
                                (rw second at h3)
                                λ out paid h4.
                                  let bound = quote_token1_bound less price liquidity paid in
                                  let more : less * 2 ^ 192 ≤ amount * 2 ^ 192 =
                                    mul-le-mul le (le_refl (2 ^ 192)) in
                                  subst (λ r. r.amount_out ≤ s) (ok_injective _ q h4)
                                    (sell1 second out (le_trans bound more))
                        ]
                ]
    ]
