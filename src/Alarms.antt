-- ===== src/Alarms.antt =====
-- src/alarms.rs: alarm notifications and their items.
pub mod Item
pub mod Notification
