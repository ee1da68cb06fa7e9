-- ===== src/Messaging.antt =====
-- Messaging (src/quantiqmt/messaging).
pub mod Health
