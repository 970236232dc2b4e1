-- ===== src/MarketData.antt =====
-- The crate crates/market-data: what the events of pools say, and how they change states and ticks.
pub mod Decode
pub mod Events
pub mod Ticks
pub mod Freshness
