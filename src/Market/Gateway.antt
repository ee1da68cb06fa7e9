-- ===== src/Market/Gateway.antt =====
-- src/quantiqmt/market/gateway.py: the batches that the gateway takes off a queue.
pub mod Batch
pub mod Core
pub mod Ingress
pub mod Admission
pub mod Verdict
pub mod Bounds
pub mod Tokens
mod Examples
mod CoreExamples
