-- ===== src/Tests.antt =====
-- The theorems at concrete inputs.
mod Quoters
mod Ticks
mod Lanes
mod Searches
mod Cycles
mod Markets
mod Candidates
mod Breaker
