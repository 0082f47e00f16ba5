-- ===== src/Stage/ScrollBatcher.antt =====
-- src/stage/scroll_batcher/scroll_batcher.c: motion is summed and becomes wheel steps at a deadline.
pub mod Sums
use zmk_pointing_tools.Base.{
  is_error, true, not, einval, Bool, false, none, ℕ, List, err, some, add_u32, Status, success,
  ◌==◌, if◌then◌else◌, ◌+◌, ◌&&◌, ◌||◌,
}
use zmk_pointing_tools.Base.Int.{pos, nat_abs, ltb_ℤ, eqb_ℤ, ℤ, ◌-ℤ◌, ◌*ℤ◌}
use zmk_pointing_tools.Core.Fixed.{saturating_add, fixed_one, multiply, to_int32}
use zmk_pointing_tools.Core.Pipeline.Types.{
  suppressed, emit, flushed, notify, Script, schedule, finish, ResetReason, StageApi,
}
use zmk_pointing_tools.Core.Signal.{
  only, normalized_motion, scroll_steps, payload_y, payload_x, Signal, zero_metadata, kind, steps,
  kind_eq,
}
use zmk_pointing_tools.Stage.Suppression.{suppression_active, SuppressionPolicy}
use zmk_pointing_tools.Stage.Effect.{no_signal}

-- struct zpt_scroll_batcher_config
pub record ScrollBatcherConfig : Type 0 where
  pub steps_per_millimeter : ℤ
  pub report_interval_ms : ℕ  -- uint16_t
  pub suppression : SuppressionPolicy

-- struct zpt_scroll_batcher_state
pub record ScrollBatcher : Type 0 where
  pub pending_x : ℤ
  pub pending_y : ℤ
  pub remainder_x : ℤ
  pub remainder_y : ℤ
  pub armed : Bool

abbrev pub empty_batcher : ScrollBatcher
empty_batcher = record {
  pending_x = pos 0;
  pending_y = pos 0;
  remainder_x = pos 0;
  remainder_y = pos 0;
  armed = false;
}

unfoldable pub scroll_batcher_stage_activate :
    ScrollBatcherConfig → ScrollBatcher → ResetReason → ScrollBatcher × Status
scroll_batcher_stage_activate config state reason = (
  state,
  if not (ltb_ℤ (pos 0) config.steps_per_millimeter) || config.report_interval_ms == 0
      then err einval
      else success,
)

unfoldable pub scroll_batcher_stage_reset : ScrollBatcher → ResetReason → ScrollBatcher
scroll_batcher_stage_reset state reason = empty_batcher

unfoldable pub accumulate : ScrollBatcher → ℤ → ℤ → ScrollBatcher
accumulate state x y = record state {
  pending_x = saturating_add state.pending_x x;
  pending_y = saturating_add state.pending_y y;
}

unfoldable pub scroll_batcher_stage_process :
    ScrollBatcherConfig → ScrollBatcher → Signal → ℕ → Script ScrollBatcher
unfolding accumulate
scroll_batcher_stage_process config state signal now =
    if not (kind_eq (kind signal) normalized_motion)
    then finish state (err einval)
    else if suppression_active config.suppression signal now
    then notify suppressed (pos 0)
        (finish (record state { pending_x = pos 0; pending_y = pos 0 }) success)
    else (let summed = accumulate state (payload_x signal.payload) (payload_y signal.payload) in
        if state.armed
        then finish summed success
        else schedule (add_u32 now config.report_interval_ms) (λ ret.
          if is_error ret
          then finish summed ret
          else finish (record summed { armed = true }) success))

-- The steps of one axis, and its new remainder.
unfoldable pub take_steps : ℤ → ℤ → ℤ → ℤ × ℤ
take_steps steps_per_millimeter pending remainder =
    let units = saturating_add (multiply pending steps_per_millimeter) remainder in
    let steps = to_int32 units in (steps, units -ℤ steps *ℤ pos fixed_one)

unfoldable pub scroll_batcher_stage_flush :
    ScrollBatcherConfig → ScrollBatcher → ℕ → ℕ → Script ScrollBatcher
unfolding take_steps
scroll_batcher_stage_flush config state deadline_ms now_ms =
    let (steps_x, remainder_x) =
      take_steps config.steps_per_millimeter state.pending_x state.remainder_x in
    let (steps_y, remainder_y) =
      take_steps config.steps_per_millimeter state.pending_y state.remainder_y in
    let taken : ScrollBatcher = record {
      pending_x = pos 0;
      pending_y = pos 0;
      remainder_x = remainder_x;
      remainder_y = remainder_y;
      armed = false;
    } in
    if eqb_ℤ steps_x (pos 0) && eqb_ℤ steps_y (pos 0)
    then finish taken success
    else notify flushed (pos (nat_abs steps_x + nat_abs steps_y)) (
        emit
          (record no_signal {
            metadata = record zero_metadata { observed_at_ms = deadline_ms };
            payload = steps steps_x steps_y;
          })
          (λ ret. finish taken ret))

unfoldable pub scroll_batcher_stage_api : List ℕ → ScrollBatcherConfig → StageApi ScrollBatcher
scroll_batcher_stage_api strategy_id config = record {
  strategy_id = strategy_id;
  accepted_kinds = only normalized_motion;
  output_kind = scroll_steps;
  stateful = true;
  process = scroll_batcher_stage_process config;
  flush = some (scroll_batcher_stage_flush config);
  activate = some (scroll_batcher_stage_activate config);
  deactivate = none;
  reset = some scroll_batcher_stage_reset;
}
