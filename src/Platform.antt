-- ===== src/Platform.antt =====
-- The adapters to ZMK with a state of their own: src/platform/zmk.
pub mod DeadlineWork
pub mod KeypressSuppression
pub mod RouterExecutor
pub mod RouterLocks
mod Tests
