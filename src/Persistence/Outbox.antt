-- ===== src/Persistence/Outbox.antt =====
-- The transactional outbox of `InMemoryOrderPersistence`
-- (src/quantiqmt/order/infrastructure/memory.py).
pub mod Record
pub mod Claim
pub mod Settle
pub mod Selection
pub mod Entries
pub mod Invariant
pub mod Grants
pub mod Fencing
pub mod Retry
pub mod Safety
mod ClaimExamples
mod Examples
