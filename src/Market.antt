-- ===== src/Market.antt =====
-- The market data quality pipeline (src/quantiqmt/market).
pub mod Quality
pub mod Policy
pub mod Gateway
