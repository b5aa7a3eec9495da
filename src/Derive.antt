-- ===== src/Derive.antt =====
-- hirpdag_derive/src: what the macro computes about its configuration.
pub mod Config
pub mod Schema
pub mod Builder
pub mod Module
