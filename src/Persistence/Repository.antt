-- ===== src/Persistence/Repository.antt =====
-- The order repository of `InMemoryOrderPersistence`
-- (src/quantiqmt/order/infrastructure/memory.py).
pub mod Store
pub mod Commit
pub mod Recovery
pub mod Pages
pub mod Commits
pub mod Invariant
pub mod Preserved
pub mod Calls
pub mod Again
pub mod Restored
pub mod Recovered
pub mod Paging
pub mod Ids
pub mod Snapshots
pub mod Replay
pub mod Published
pub mod ExampleData
mod Examples
mod SnapshotExamples
