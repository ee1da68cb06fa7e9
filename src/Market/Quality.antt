-- ===== src/Market/Quality.antt =====
-- src/quantiqmt/market/quality.py: the state, the evidence registry and the pipeline; then
-- the lemmas and theorems about them.
pub mod State
pub mod Registry
pub mod Drain
pub mod Store
pub mod Pipeline
pub mod Recovery
pub mod Relation
pub mod Moves
pub mod Follows
pub mod Diagram
pub mod Counters
pub mod Coherence
pub mod Replay
pub mod Records
pub mod Redelivery
pub mod Evidence
mod Examples
