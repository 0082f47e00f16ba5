-- ===== src/Lib.antt =====
-- The processing core of zmk-pointing-tools: signals from pointing devices travel through pipelines
-- of stages to a sink, a router keeps one of several pipelines active, and sources turn sensor counts
-- into signals.
--
-- The parts, with the code that they model:
--   Base                 numbers, integers, lists, options and `int` results (negative errno)
--   Core/Fixed           include/zmk/pointing_tools/core/fixed.h
--   Core/Signal          include/zmk/pointing_tools/core/signal.h
--   Core/Pipeline        src/core/pipeline.c and its header
--   Core/Router          src/core/router.c and its header
--   Core/RouteOverride   src/core/route_override.c and its header; Stack and Refines relate the table to
--                        a stack of held keys
--   Source/MotionSource  src/source/frame_assembler.c, src/source/motion_source.c and their headers
--   Source/DeviceCaps    src/source/device_caps.c and its header
--   Source/CompactSplit  src/source/transport/compact_split_codec.c and its header
--   Source/SourceIngress src/source/source_ingress.c and its header
--   Source/SensorControl src/source/sensor_control_session.c and the headers of the wire and the session
--   Stage/Orientation    src/stage/orientation.c
--   Stage/CursorQuantizer src/stage/cursor_quantizer/cursor_quantizer.c and its header
--   Stage/ResolutionNormalize, Stage/CursorTransfer, Stage/ScrollBatcher, Stage/TextNav,
--   Stage/AxisIntent, Stage/AxisIntentStage, Stage/AxisConstraint, Stage/CursorCoalescer,
--   Stage/MotionGate, Stage/MotionGateStage, Stage/CursorAcceleration
--                        the files of src/stage that the names say, with their headers under
--                        include/zmk/pointing_tools/stage; the gate is coherent_displacement.c and
--                        coherent_displacement_stage.c
--   Service/Tuning       src/service/tuning.c and include/zmk/pointing_tools/service/tuning.h
--   Stage/Tuning         src/stage/stage_tuning.c and its header; Stage/Tuning/Tunable joins both
--   Stage/Suppression    include/zmk/pointing_tools/policy/suppression.h
--   Stage/Effect         what a stage's script does when the runtime's calls succeed
--   Platform/KeypressSuppression src/platform/zmk/keypress_suppression.c
--   Platform/DeadlineWork, Platform/RouterExecutor
--                        src/platform/zmk/router_executor.c
--   Platform/RouterLocks src/platform/zmk/stage_tuning.c, and of router.c and router_executor.c beside it
--                        what concerns the locks
-- A function zpt_x_y of the code is x_y or, inside its component, y here, with the object that it
-- changes as an argument and in its answer.
--
-- How the state corresponds. A pipeline is a record with its list of stages and its sink. The code of
-- a stage is a `Script`: its calls of zpt_stage_emit, zpt_stage_schedule_flush,
-- zpt_stage_cancel_flush and zpt_stage_notify, each with what it does next on the answer, and its new
-- state at the end; the theorems hold for every script. zpt_stage_emit defers at most one signal, which
-- the drain dispatches after the stage has returned, as in the code. Observers are a trace of
-- the calls that they get. A router is a record with a list of distinct pipelines, and its
-- operations run those of the pipeline.
--
-- Pointers that the code refuses when they are NULL are values here, so that those guards have
-- nothing to compare; callbacks and arrays that may be NULL are options. The flag bits are a record
-- of booleans, and a union with its kind is one data type. Machine integers keep their wrap-around
-- where they can reach it; an int64_t is an integer, with its range as a hypothesis. The counters of a
-- pipeline operation cannot pass its uint32_t budget and are not wrapped.
--
-- The drain of a pipeline runs on fuel, dispatch_budget + 2: each round is one dispatch from the
-- budget. An answer `none` would mean that the fuel has run out, or that a stage without a flush
-- callback is flushed; the results below include that an answer is given.
--
-- The configuration of a stage is an argument of its callbacks. A suppression policy and the current
-- link are code of the platform: values of the configuration. The search of the acceleration curve runs
-- on fuel 7, one round for each segment, and the square root on the exponent of its bit.
--
-- The tuning service keeps a list of targets, whose size the build limits. Applying a configuration is
-- code of the platform: a function of the binding, which copies the candidate where it succeeds.
--
-- Not modelled: the telemetry of src/service and its transports, the observer of
-- src/observer, and the other adapters of src/platform,
-- which are glue to devices and work queues.
pub mod Base
pub mod Core
pub mod Source
pub mod Platform
pub mod Service
pub mod Stage
