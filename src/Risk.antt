-- ===== src/Risk.antt =====
-- The admission of evaluations by the risk evaluation runner (src/quantiqmt/risk/runner.py).
pub mod Ownership
pub mod Handoff
pub mod VersionFilter
mod Examples
