-- ===== src/Listener.antt =====
-- src/alarm_listener.rs: the RTA transport of alarms.
pub mod Header
pub mod Frame
pub mod Sequencer
pub mod Channel
pub mod Pass
pub mod Control
