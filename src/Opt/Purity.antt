-- ===== src/Opt/Purity.antt =====
-- `PurityAnalysis` of analysis/pure.rs.
pub mod Defs
pub mod Pure
pub mod Walked
pub mod Closed
pub mod Visited
pub mod Safe
pub mod Honest
pub mod Known
pub mod Total
pub mod Tests
