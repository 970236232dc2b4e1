-- ===== src/Searcher.antt =====
-- The crate crates/searcher: the search for cycles of pools, the quotes of paths, and the candidates worth
-- sending.
pub mod Impact
pub mod Quote
pub mod Search
pub mod Risk
pub mod Graph
pub mod Cycle
pub mod Rough
pub mod Labels
pub mod CyclePath
pub mod Score
pub mod Scan
