-- ===== src/Tests/Breaker.antt =====
-- The circuit breaker over four receipts.
use dexmoney.Prelude.{
  ℕ, ◌*◌, ◌≤◌, ◌<◌, ◌≡◌, ◌↔◌, Bool, true, false, List, [], ◌∷◌, take, length, arith,
}
use dexmoney.Execution.Breaker.{new, observe_all, is_halted}
use dexmoney.Execution.Breaker.Halting.{successes, observe_all-halted_iff}

abbrev receipts : List Bool
receipts = true ∷ false ∷ false ∷ true ∷ []

observe_all-halted_iff_example :
    (is_halted (observe_all 5_000 receipts (new 3)) ≡ true)
    ↔ (n : ℕ) × (0 < n)
      × (n ≤ length receipts)
      × (3 ≤ n)
      × (successes (take n receipts) * 10_000 < 5_000 * n)
observe_all-halted_iff_example = observe_all-halted_iff 3 5_000 receipts (omega arith)
