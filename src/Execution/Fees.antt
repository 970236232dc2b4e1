-- ===== src/Execution/Fees.antt =====
-- crates/execution-manager/src/tx_manager.rs: gas limits and fees.
pub mod Order
use dexmoney.Prelude.{ℕ, max, unwrap_or}
use dexmoney.Word.{saturating_add, saturating_mul, checked_div, u256_max}

abbrev pub gas_limit_multiplier_bps : ℕ
gas_limit_multiplier_bps = 12_000

unfoldable pub bump_gas_limit : ℕ → ℕ
bump_gas_limit value =
    saturating_add u256_max
      (unwrap_or (checked_div (saturating_mul u256_max value gas_limit_multiplier_bps) 10_000)
        value)
      25_000

unfoldable pub apply_bps : ℕ → ℕ → ℕ
apply_bps value bps = unwrap_or (checked_div (saturating_mul u256_max value bps) 10_000) value

unfoldable pub bump_fee : ℕ → ℕ → ℕ
bump_fee value bump_bps = saturating_add u256_max (apply_bps value bump_bps) 1

-- crates/chain/src/provider.rs
pub record Eip1559FeeSuggestion : Type 0 where
  pub base_fee_per_gas : ℕ
  pub max_fee_per_gas : ℕ
  pub max_priority_fee_per_gas : ℕ

-- The chain's `suggested` fees raised by the two multipliers, the priority to `min_priority` at
-- least.
unfoldable pub aggressive_fees : ℕ → ℕ → ℕ → Eip1559FeeSuggestion → Eip1559FeeSuggestion
aggressive_fees min_priority priority_bps max_fee_bps suggested =
    let priority = max (apply_bps suggested.max_priority_fee_per_gas priority_bps) min_priority in
    let base_component = apply_bps suggested.base_fee_per_gas max_fee_bps in
    record {
      base_fee_per_gas = suggested.base_fee_per_gas;
      max_fee_per_gas =
          max (saturating_add u256_max base_component priority) suggested.max_fee_per_gas;
      max_priority_fee_per_gas = priority;
    }
