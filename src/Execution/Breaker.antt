-- ===== src/Execution/Breaker.antt =====
-- crates/execution-manager/src/main.rs: `ExecutionCircuitBreaker`, which halts the submissions when too few
-- of the transactions that were followed to their receipt succeeded.
pub mod Halting
use dexmoney.Prelude.{ℕ, Bool, true, false, List, [], ◌∷◌, ltb, if◌then◌else◌, unwrap_or}
use dexmoney.Word.{saturating_add, saturating_mul, checked_div, u64_max}

pub record ExecutionCircuitBreaker : Type 0 where
  pub min_txs : ℕ
  pub arb_receipts : ℕ
  pub arb_successes : ℕ
  pub halted : Bool

unfoldable pub new : ℕ → ExecutionCircuitBreaker
new min_txs = record { min_txs = min_txs; arb_receipts = 0; arb_successes = 0; halted = false }

unfoldable pub count_receipt : Bool → ExecutionCircuitBreaker → ExecutionCircuitBreaker
count_receipt success breaker = record breaker {
  arb_receipts = saturating_add u64_max breaker.arb_receipts 1;
  arb_successes =
      if success then saturating_add u64_max breaker.arb_successes 1 else breaker.arb_successes;
}

unfoldable pub success_rate_bps : ExecutionCircuitBreaker → ℕ
success_rate_bps breaker =
    unwrap_or
      (checked_div (saturating_mul u64_max breaker.arb_successes 10_000) breaker.arb_receipts) 0

-- What follows the counting.
unfoldable pub judge : ℕ → ExecutionCircuitBreaker → ExecutionCircuitBreaker
unfolding success_rate_bps
judge execution_min_success_rate_bps breaker =
    if ltb breaker.arb_receipts breaker.min_txs
    then breaker
    else if ltb (success_rate_bps breaker) execution_min_success_rate_bps
    then record breaker { halted = true }
    else breaker

unfoldable pub observe_arb_receipt : ℕ → Bool → ExecutionCircuitBreaker → ExecutionCircuitBreaker
unfolding count_receipt judge
observe_arb_receipt execution_min_success_rate_bps success breaker =
    judge execution_min_success_rate_bps (count_receipt success breaker)

unfoldable pub is_halted : ExecutionCircuitBreaker → Bool
is_halted breaker = breaker.halted

-- Receipts observed one after the other.
unfoldable pub observe_all : ℕ → List Bool → ExecutionCircuitBreaker → ExecutionCircuitBreaker
unfolding observe_arb_receipt
observe_all execution_min_success_rate_bps [] breaker = breaker
observe_all execution_min_success_rate_bps (success ∷ receipts) breaker =
    observe_all execution_min_success_rate_bps receipts
      (observe_arb_receipt execution_min_success_rate_bps success breaker)
