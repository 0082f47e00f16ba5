-- ===== src/Stage/CursorAcceleration.antt =====
-- src/stage/cursor_acceleration/cursor_acceleration.c: motion is scaled by a sensitivity that a curve
-- gives for the speed. Of the arrays of the configuration, functions here, only 0 to 7 are read.
-- The callback that the runtime calls stands here; its parts are in the children.
pub mod IntegerSqrt
pub mod Curve
pub mod Speed
pub mod Scale
pub mod Decay
pub mod Distance
pub mod Follows
pub mod Sensitivity
use zmk_pointing_tools.Base.{
  Bool, List, Status, err, einval, success, none, some, false, true, not, ◌||◌, if◌then◌else◌, ℕ,
}
use zmk_pointing_tools.Base.Int.{ℤ, pos}
use zmk_pointing_tools.Core.Pipeline.Types.{Script, ResetReason, StageApi, emit, finish}
use zmk_pointing_tools.Core.Signal.{
  Signal, kind, kind_eq, normalized_motion, payload_x, payload_y, fixed_vector, only,
}
use zmk_pointing_tools.Stage.CursorAcceleration.Curve.{
  AccelerationConfig, cursor_acceleration_validate, sensitivity,
}
use zmk_pointing_tools.Stage.CursorAcceleration.Speed.{AccelerationState, observe}
use zmk_pointing_tools.Stage.CursorAcceleration.Scale.{scale}

unfoldable pub cursor_acceleration_stage_activate :
    AccelerationConfig → AccelerationState → ResetReason → AccelerationState × Status
cursor_acceleration_stage_activate config state reason =
    (state, cursor_acceleration_validate config)

unfoldable pub cursor_acceleration_stage_reset : AccelerationState → ResetReason → AccelerationState
cursor_acceleration_stage_reset state reason = record { speed = pos 0; last_frame_ms = none }

-- The frame that the stage emits at a speed.
unfoldable pub accelerated : AccelerationConfig → Signal → ℤ → Signal
accelerated config signal speed =
    let (x, clipped_x) = scale (payload_x signal.payload) (sensitivity config speed) in
    let (y, clipped_y) = scale (payload_y signal.payload) (sensitivity config speed) in
    record signal {
      payload = fixed_vector x y;
      annotations = record (signal.annotations) { speed_per_second = speed };
      metadata = record (signal.metadata) {
        flags = record (signal.metadata.flags) {
          clipped = signal.metadata.flags.clipped || clipped_x || clipped_y;
        };
      };
    }

unfoldable pub cursor_acceleration_stage_process :
    AccelerationConfig → AccelerationState → Signal → ℕ → Script AccelerationState
unfolding accelerated
cursor_acceleration_stage_process config state signal now_ms =
    if not (kind_eq (kind signal) normalized_motion)
    then finish state (err einval)
    else (let observed =
          observe state config (payload_x signal.payload) (payload_y signal.payload)
            signal.metadata in
        emit (accelerated config signal observed.speed) (λ ret. finish observed ret))

unfoldable pub cursor_acceleration_stage_api :
    List ℕ → AccelerationConfig → StageApi AccelerationState
cursor_acceleration_stage_api strategy_id config = record {
  strategy_id = strategy_id;
  accepted_kinds = only normalized_motion;
  output_kind = normalized_motion;
  stateful = true;
  process = cursor_acceleration_stage_process config;
  flush = none;
  activate = some (cursor_acceleration_stage_activate config);
  deactivate = none;
  reset = some cursor_acceleration_stage_reset;
}
