-- ===== src/Shared.antt =====
-- The value objects that all contexts share (src/quantiqmt/shared).
pub mod Platform
pub mod Numerals
pub mod Milliseconds
pub mod Time
pub mod Values
