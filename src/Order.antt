-- ===== src/Order.antt =====
-- The order aggregate (src/quantiqmt/order/domain/model.py).
pub mod States
pub mod Evidence
pub mod Catalog
pub mod Guards
pub mod Record
pub mod Aggregate
pub mod StateQuantity
pub mod Accounting
pub mod Wellformed
pub mod Routes
pub mod Effects
pub mod Facts
pub mod Replay
pub mod Authority
pub mod Trace
pub mod Trades
pub mod Final
mod TradeExamples
mod Examples
