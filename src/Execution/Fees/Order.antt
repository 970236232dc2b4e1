-- ===== src/Execution/Fees/Order.antt =====
-- How the computed fees compare with the chain's and with earlier ones.
use native.Mathlib.Nat.{mul-le-mul, le_refl}
use dexmoney.Prelude.{ℕ, ◌+◌, ◌*◌, ◌/◌, ◌≤◌, ◌<◌, ◌≡◌, arith}
use dexmoney.Word.{u256_max}
use dexmoney.Word.Division.{div_bounds, le-div}
use dexmoney.Execution.Fees.{
  bump_gas_limit, apply_bps, bump_fee, Eip1559FeeSuggestion, aggressive_fees,
}

apply_bps-fits :
    (value bps : ℕ) → value * bps ≤ u256_max → apply_bps value bps ≡ value * bps / 10_000
unfolding apply_bps
apply_bps-fits value bps fits = ground arith

-- Where the product of a fee and a bump of at least 10,000 basis points fits in a word, the bumped fee is
-- strictly greater than the fee.
pub bump_fee-exceeds :
    (value bps : ℕ) → 10_000 ≤ bps → value * bps ≤ u256_max → value < bump_fee value bps
unfolding bump_fee
bump_fee-exceeds value bps raised fits =
    let large : value * 10_000 ≤ value * bps = mul-le-mul (le_refl value) raised in
    let over : value ≤ value * bps / 10_000 =
      le-div value (value * bps) 10_000 (omega arith) large in
    let under = div_bounds (value * bps) 10_000 (omega arith) in
    rw (apply_bps-fits value bps fits) (ground (arith, over, under.0))

apply_bps_bound : (value bps : ℕ) → apply_bps value bps ≤ u256_max
unfolding apply_bps
apply_bps_bound value bps = ground arith

apply_bps_mono : (a b bps : ℕ) → a ≤ b → apply_bps a bps ≤ apply_bps b bps
unfolding apply_bps
apply_bps_mono a b bps le =
    let scaled : a * bps ≤ b * bps = mul-le-mul le (le_refl bps) in ground (arith, scaled)

pub bump_fee_mono : (a b bps : ℕ) → a ≤ b → bump_fee a bps ≤ bump_fee b bps
unfolding bump_fee
bump_fee_mono a b bps le = ground (arith, apply_bps_mono a b bps le)

-- The suggested priority fee is at most the suggested fee, as long as the configured smallest priority
-- fits in a word.
pub aggressive_fees-ordered :
    (min_priority priority_bps max_fee_bps : ℕ) (suggested : Eip1559FeeSuggestion)
    → min_priority ≤ u256_max
    → (aggressive_fees min_priority priority_bps max_fee_bps suggested).max_priority_fee_per_gas
      ≤ (aggressive_fees min_priority priority_bps max_fee_bps suggested).max_fee_per_gas
unfolding aggressive_fees
aggressive_fees-ordered min_priority priority_bps max_fee_bps suggested small =
    ground (arith, apply_bps_bound suggested.max_priority_fee_per_gas priority_bps)

-- An estimate whose multiple by 12,000 fits in a word is raised by 25,000 at least, and by no more than a
-- fifth of it above that.
pub bump_gas_limit_bounds :
    (value : ℕ)
    → value * 12_000 ≤ u256_max
    → (value + 25_000 ≤ bump_gas_limit value) × (5 * bump_gas_limit value ≤ 6 * value + 125_000)
unfolding bump_gas_limit
bump_gas_limit_bounds value fits = ground arith
