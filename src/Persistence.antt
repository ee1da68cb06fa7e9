-- ===== src/Persistence.antt =====
-- The in-memory order persistence (src/quantiqmt/order/infrastructure/memory.py and
-- src/quantiqmt/order/application/persistence).
pub mod Json
pub mod Call
pub mod Payload
pub mod Registration
pub mod StatePayload
pub mod Restore
pub mod RoundTrip
pub mod Canonical
pub mod Journal
pub mod Outbox
pub mod ExamplePlatform
pub mod Repository
pub mod Messages
mod MessageExamples
