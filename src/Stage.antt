-- ===== src/Stage.antt =====
-- The stages: src/stage. Each is an api for the pipeline, its code a script; the configuration of a
-- stage is an argument of its api.
pub mod Effect
pub mod Suppression
pub mod Orientation
pub mod ResolutionNormalize
pub mod CursorTransfer
pub mod CursorQuantizer
pub mod ScrollBatcher
pub mod TextNav
pub mod AxisIntent
pub mod AxisIntentStage
pub mod AxisConstraint
pub mod CursorCoalescer
pub mod MotionGate
pub mod MotionGateStage
pub mod CursorAcceleration
pub mod Tuning
mod Tests
