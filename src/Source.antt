-- ===== src/Source.antt =====
-- The sources of motion: src/source.
pub mod MotionSource
pub mod DeviceCaps
pub mod CompactSplit
pub mod SourceIngress
pub mod SensorControl
mod Tests
