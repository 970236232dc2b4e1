-- ===== src/Dex/Stable/Curve.antt =====
-- A stable quote and the pool's curve.
use mathlib.Core.Path.{subst}
use native.Mathlib.Nat.{mul-le-mul, le_refl}
use dexmoney.Prelude.{
  ℕ, ◌+◌, ◌-◌, ◌*◌, ◌/◌, ◌≤◌, ◌<◌, ◌≡◌, ◌∙◌, ap, inl, inr, false, ok, arith, >>=-elim, ok_or,
  and_then, never, ltb, ◌==◌, ◌||◌, Bool-cases,
}
use dexmoney.Word.{checked_add, checked_mul, checked_div}
use dexmoney.Word.Division.{div_bounds, le_of_mul_le}
use dexmoney.Common.Errors.{ArbBotError, quote}
use dexmoney.Dex.Stable.{
  one, fee_denominator, pow10, fee_numerator, scale_to_1e18, unscale_from_1e18, stable_k, stable_f,
  get_y, quote_amount_out,
}
use dexmoney.Dex.Stable.Solver.{get_y-Solves}

-- The curve's value as the solver computes it is the pool's.
pub stable_f-eq-stable_k : (x y : ℕ) {v : ℕ} → stable_f x y ≡ ok v → stable_k x y ≡ ok v
unfolding stable_f stable_k
stable_f-eq-stable_k x y h = ground arith

scale_bounds :
    (value decimals p : ℕ) {s : ℕ}
    → pow10 decimals ≡ ok p
    → scale_to_1e18 value decimals ≡ ok s
    → s * p ≤ value * one
unfolding scale_to_1e18
scale_bounds value decimals p e h = let k = rw e at h in ground (arith, div_bounds (value * one) p)

unscale_bounds :
    (value decimals : ℕ) {s : ℕ}
    → unscale_from_1e18 value decimals ≡ ok s
    → (p : ℕ) × (pow10 decimals ≡ ok p) × (s * one ≤ value * p)
unfolding unscale_from_1e18
unscale_bounds value decimals h =
    >>=-elim (pow10 decimals) _ h λ p e k. (p, e, ground (arith, div_bounds (value * p) one))

fee_numerator_lem : (fee g : ℕ) → fee_numerator fee ≡ ok g → g ≡ 10_000 - fee
unfolding fee_numerator
fee_numerator_lem fee g h = ground arith

net_lem :
    (a fee g net : ℕ) (e : ArbBotError)
    → g ≡ 10_000 - fee
    → ok_or (and_then (checked_mul a g) (λ v. checked_div v fee_denominator)) e ≡ ok net
    → net ≡ a * (10_000 - fee) / 10_000
net_lem a fee g net e same h =
    let value : net ≡ a * g / 10_000 = ground arith in value ∙ ap (λ n. a * n / 10_000) same

-- The scaled amounts of a swap: `x` and `y` are the reserves, `add` the input `net` of the fee, and
-- `kept` is what stays of `y`.
pub record CurveSwap (reserve_in reserve_out amount_in fee_bps decimals_in decimals_out out : ℕ)
    : Type 0 where
  pub net : ℕ
  pub net_of_fee : net ≡ amount_in * (10_000 - fee_bps) / 10_000
  pub x : ℕ
  pub y : ℕ
  pub add : ℕ
  pub kept : ℕ
  pub before : ℕ
  pub after : ℕ
  pub scaled_in : scale_to_1e18 reserve_in decimals_in ≡ ok x
  pub scaled_out : scale_to_1e18 reserve_out decimals_out ≡ ok y
  pub scaled_net : scale_to_1e18 net decimals_in ≡ ok add
  pub curve_before : stable_k x y ≡ ok before
  pub curve_after : stable_k (x + add) kept ≡ ok after
  pub grows : before ≤ after
  pub kept_le : kept ≤ y
  pub paid : unscale_from_1e18 (y - kept) decimals_out ≡ ok out

-- A successful quote of a positive input belongs to a swap of the input less the fee, all scaled to 18
-- decimals, after which the curve's value, computed as the pool computes it, is at least what it was.
pub quote_keeps_curve :
    (reserve_in reserve_out amount_in fee_bps decimals_in decimals_out : ℕ) {out : ℕ}
    → 0 < amount_in
    → quote_amount_out reserve_in reserve_out amount_in fee_bps decimals_in decimals_out ≡ ok out
    → CurveSwap reserve_in reserve_out amount_in fee_bps decimals_in decimals_out out
unfolding quote_amount_out
quote_keeps_curve r s a fee din dout {out} pa h = elim (Bool-cases (r == 0 || s == 0)) [
  | inl empty ↦ absurd (never (rw empty at h))
  | inr full ↦
      let nonzero : (a == 0) ≡ false = ground arith in
      >>=-elim (fee_numerator fee) _ (rw (full, nonzero) at h) λ g eg h1.
        >>=-elim
          (ok_or (and_then (checked_mul a g) (λ v. checked_div v fee_denominator))
            (quote "amount_in fee overflow"))
          _ h1
          λ net en h2. >>=-elim (scale_to_1e18 r din) _ h2 λ x ex h3.
            >>=-elim (scale_to_1e18 s dout) _ h3 λ y ey h4.
              >>=-elim (scale_to_1e18 net din) _ h4 λ add ea h5.
                >>=-elim (stable_k x y) _ h5 λ k ek h6.
                  >>=-elim (ok_or (checked_add x add) (quote "stable x overflow")) _ h6 λ x0 ex0 h7.
                    >>=-elim (get_y x0 k y) _ h7 λ kept ekept h8.
                      let solved = get_y-Solves x0 k y ekept in
                      let sum : x0 ≡ x + add = ground arith in
                      elim (Bool-cases (ltb y kept)) [
                        | inl over ↦ absurd (never (rw over at h8))
                        | inr under ↦ record {
                          net = net;
                          net_of_fee = net_lem a fee g net _ (fee_numerator_lem fee g eg) en;
                          scaled_net = ea;
                          x = x;
                          y = y;
                          add = add;
                          kept = kept;
                          before = k;
                          after = solved.value;
                          scaled_in = ex;
                          scaled_out = ey;
                          curve_before = ek;
                          curve_after =
                              subst (λ z. stable_k z kept ≡ ok solved.value) sum
                                (stable_f-eq-stable_k x0 kept solved.at_y);
                          grows = solved.reaches;
                          kept_le = ground arith;
                          paid = rw under at h8;
                        }
                      ]
]

-- A successful quote of a positive input pays no more than the pool's reserve.
pub quote-le-reserve :
    (reserve_in reserve_out amount_in fee_bps decimals_in decimals_out : ℕ) {out : ℕ}
    → 0 < amount_in
    → quote_amount_out reserve_in reserve_out amount_in fee_bps decimals_in decimals_out ≡ ok out
    → out ≤ reserve_out
quote-le-reserve r s a fee din dout {out} pa h =
    let c = quote_keeps_curve r s a fee din dout pa h in
    let (p, e, le) = unscale_bounds (c.y - c.kept) dout c.paid in
    let upper = scale_bounds s dout p e c.scaled_out in
    let part : (c.y - c.kept) * p ≤ c.y * p = mul-le-mul (omega arith) (le_refl p) in
    le_of_mul_le out s one (omega arith) (omega arith)
