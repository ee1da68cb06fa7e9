-- ===== src/Persistence/Journal.antt =====
-- The journal of an order: its entries, their checksums, and the chain that they form
-- (src/quantiqmt/order/application/persistence and src/quantiqmt/order/infrastructure/memory.py).
pub mod Record
pub mod Chain
pub mod Verified
