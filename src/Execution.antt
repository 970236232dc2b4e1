-- ===== src/Execution.antt =====
-- The crate crates/execution-manager: the candidates that it works on, the circuit breaker, and the lanes of
-- the accounts that send transactions.
pub mod Lane
pub mod Fees
pub mod Handler
pub mod Pending
pub mod Candidates
pub mod Breaker
