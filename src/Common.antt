-- ===== src/Common.antt =====
-- The crate crates/common: the data that the services exchange, and their errors.
pub mod Errors
pub mod Pool
pub mod Opportunity
pub mod Transaction
