-- ===== src/Rt.antt =====
-- src/rt.rs: RT_CLASS_1 frames, the layout of the cyclic data and the double-buffered builder.
pub mod Frame
pub mod Config
pub mod Builder
