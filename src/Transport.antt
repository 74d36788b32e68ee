-- ===== src/Transport.antt =====
-- src/transport.rs: what the RPC client reads from the datagrams of a device, and what it answers.
pub mod Words
pub mod Header
pub mod Reply
pub mod Blocks
pub mod Connect
pub mod Control
pub mod Session
