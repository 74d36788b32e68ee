-- ===== src/Dcp.antt =====
-- src/dcp.rs: the frames of the Discovery and Configuration Protocol.
pub mod Request
pub mod Response
pub mod Identify
