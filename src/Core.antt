-- ===== src/Core.antt =====
-- src/core and include/zmk/pointing_tools/core: the platform-neutral runtime.
pub mod Fixed
pub mod Signal
pub mod Pipeline
pub mod Router
pub mod RouteOverride
