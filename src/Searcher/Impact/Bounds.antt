-- ===== src/Searcher/Impact/Bounds.antt =====
-- Bounds of the haircut and of the price impact.
use native.Mathlib.Nat.{mul-le-mul, le_refl}
use dexmoney.Prelude.{
  ap, ℕ, ◌-◌, ◌*◌, ◌/◌, ◌≤◌, ◌<◌, ◌≡◌, min, ok, ok_or, and_then, ok_injective, ◌==◌, ◌||◌,
  Bool-cases, inl, inr, true, >>=-elim, arith,
}
use dexmoney.Word.{checked_sub, checked_mul, checked_div, saturating_mul, u256_max}
use dexmoney.Word.Division.{div_bounds, le_of_mul_le}
use dexmoney.Searcher.Impact.{
  invalid_haircut, haircut_overflow, apply_quote_haircut, impact_from_spot,
}

whole_bound :
    (amount haircut_bps kept : ℕ)
    → (haircut_bps == 0 || amount == 0) ≡ true
    → amount ≡ kept
    → (kept * 10_000 ≤ amount * (10_000 - min haircut_bps 10_000)) × (kept ≤ amount)
whole_bound amount haircut_bps kept e same = elim (Bool-cases (haircut_bps == 0)) [
  | inl z ↦ ground arith
  | inr z ↦ ground arith
]

remainder :
    (haircut_bps numerator : ℕ)
    → ok_or (checked_sub 10_000 (min haircut_bps 10_000)) invalid_haircut ≡ ok numerator
    → numerator ≡ 10_000 - min haircut_bps 10_000
remainder haircut_bps numerator h = ground arith

cut_bound :
    (amount numerator left kept : ℕ)
    → ok_or
        (and_then (checked_mul amount numerator) (λ value. checked_div value 10_000))
        haircut_overflow
      ≡ ok kept
    → numerator ≤ 10_000
    → numerator ≡ left
    → (kept * 10_000 ≤ amount * left) × (kept ≤ amount)
cut_bound amount numerator left kept h small same =
    let value : kept ≡ amount * numerator / 10_000 = ground arith in
    let whole : amount * numerator ≤ amount * 10_000 = mul-le-mul (le_refl amount) small in
    let part = (div_bounds (amount * numerator) 10_000 (omega arith)).0 in
    (omega (arith, value, part, ap (λ n. amount * n) same), omega (arith, value, part, whole))

-- A haircut of the amount by some basis points keeps at most the rest of the 10,000, and all of it
-- without a haircut: what is left is never more than the amount.
pub haircut_bound :
    (amount haircut_bps kept : ℕ)
    → apply_quote_haircut amount haircut_bps ≡ ok kept
    → (kept * 10_000 ≤ amount * (10_000 - min haircut_bps 10_000)) × (kept ≤ amount)
unfolding apply_quote_haircut
haircut_bound amount haircut_bps kept h = elim (Bool-cases (haircut_bps == 0 || amount == 0)) [
  | inl e ↦
      let same : amount ≡ kept = ok_injective amount kept (rw e at h) in
      whole_bound amount haircut_bps kept e same
  | inr e ↦
      >>=-elim (ok_or (checked_sub 10_000 (min haircut_bps 10_000)) invalid_haircut) _ (rw e at h)
        λ numerator h1 h2.
          let left : numerator ≡ 10_000 - min haircut_bps 10_000 =
            remainder haircut_bps numerator h1 in
          cut_bound amount numerator _ kept h2 (omega (arith, left)) left
]

-- The impact never exceeds 10,000 basis points.
pub impact_bound : (spot_out actual_out : ℕ) → impact_from_spot spot_out actual_out ≤ 10_000
unfolding impact_from_spot
impact_bound spot_out actual_out = elim (Bool-cases (spot_out == 0)) [
  | inl e ↦ rw e (omega arith)
  | inr e ↦
      let slipped = saturating_mul u256_max (spot_out - actual_out) 10_000 in
      let below : slipped ≤ 10_000 * spot_out = ground arith in
      let positive : 0 < spot_out = ground arith in
      let bound : slipped / spot_out ≤ 10_000 =
        le_of_mul_le (slipped / spot_out) 10_000 spot_out positive
          (omega (arith, (div_bounds slipped spot_out positive).0, below)) in
      rw e (ground (arith, bound))
]

-- An output of at least the spot output has no impact.
pub impact_free :
    (spot_out actual_out : ℕ) → spot_out ≤ actual_out → impact_from_spot spot_out actual_out ≡ 0
unfolding impact_from_spot
impact_free spot_out actual_out above = ground arith
