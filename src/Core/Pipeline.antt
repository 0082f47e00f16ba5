-- ===== src/Core/Pipeline.antt =====
-- src/core/pipeline.c and include/zmk/pointing_tools/core/pipeline.h: ordered stages before a sink.
pub mod Types
pub mod Engine
pub mod Validate
pub mod Activate
pub mod Push
pub mod Flush
pub mod Deactivate
pub mod Invariant
pub mod Sound
pub mod Returns
pub mod Idle
pub mod Sample
mod Tests
