-- ===== src/Cyclic.antt =====
-- src/cyclic.rs: the cyclic IO controller.
pub mod State
pub mod Rx
pub mod Watchdog
pub mod Tx
pub mod Stop
pub mod Calls
