-- ===== src/Dex.antt =====
-- The crate crates/dex: local quoters of the pool families.
pub mod Volatile
pub mod Stable
pub mod MulDiv
pub mod Sqrt
pub mod SwapStep
pub mod Tick
pub mod CrossTick
pub mod V3
