-- ===== src/Persistence/RoundTrip.antt =====
-- Reading back the payload that was written of a persisted order: `order_state_payload`
-- (src/quantiqmt/order/application/persistence/serialization.py) and
-- `_persisted_from_state_payload` (src/quantiqmt/order/infrastructure/memory.py).
pub mod Registration
pub mod Facts
pub mod Order
pub mod Whole
pub mod View
