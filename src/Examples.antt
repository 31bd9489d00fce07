-- ===== src/Examples.antt =====
-- Each theorem at a concrete input where its hypotheses hold.
pub mod Pools
pub mod Sessions
pub mod Scans
pub mod Writers
pub mod Cells
pub mod RowTexts
pub mod Queries
pub mod Protocols
