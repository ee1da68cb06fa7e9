-- ===== src/Market/Policy.antt =====
-- src/quantiqmt/market/policy.py: the store of accepted policies.
pub mod Authority
pub mod Binding
mod Examples
