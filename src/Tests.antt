-- ===== src/Tests.antt =====
-- Theorems applied to concrete controllers and frames.
pub mod Session
pub mod Samples
pub mod Link
pub mod Receive
pub mod Outputs
pub mod Wire
pub mod Alarms
pub mod Transport
