-- ===== src/Stage/AxisConstraint.antt =====
-- src/stage/axis_constraint/axis_constraint.c: motion off the intended axis is dropped, and motion
-- without an intent waits for one.
pub mod OneAxis
use zmk_pointing_tools.Base.{
  Bool, some, einval, leb, List, false, not, none, err, add_u32, Option, true, ℕ, success, ◌==◌,
  if◌then◌else◌, ◌+◌, ◌&&◌, ◌||◌,
}
use zmk_pointing_tools.Base.Int.{ℤ, pos, nat_abs}
use zmk_pointing_tools.Core.Fixed.{saturating_add}
use zmk_pointing_tools.Core.Pipeline.Types.{
  StageApi, notify, cancel, flushed, Script, emit, discarded, ResetReason, suppressed, schedule,
  finish,
}
use zmk_pointing_tools.Core.Signal.{
  only, kind_eq, Signal, undecided, vertical, normalized_motion, payload_x, payload_y, horizontal,
  fixed_vector, AxisIntent, kind, zero_metadata,
}
use zmk_pointing_tools.Stage.Effect.{since, intent_eq, is_none, with_vector, no_signal}
use zmk_pointing_tools.Stage.Suppression.{SuppressionPolicy, suppression_active}
use zmk_pointing_tools.Core.Router.Calls.{deactivate, flush, activate}

-- struct zpt_axis_constraint_config
pub record AxisConstraintConfig : Type 0 where
  pub discard_unclassified : Bool
  pub idle_timeout_ms : ℕ  -- uint16_t
  pub fold_interval_ms : ℕ  -- uint16_t
  pub suppression : SuppressionPolicy

-- struct zpt_axis_constraint_state; `last_frame_ms` joins have_last_frame.
pub record AxisConstraint : Type 0 where
  pub undecided_x : ℤ
  pub undecided_y : ℤ
  pub previous_intent : AxisIntent
  pub last_frame_ms : Option ℕ
  pub have_undecided : Bool

unfoldable pub clear_undecided : AxisConstraint → AxisConstraint
clear_undecided state = record state {
  undecided_x = pos 0;
  undecided_y = pos 0;
  have_undecided = false;
}

unfoldable pub axis_constraint_stage_reset : AxisConstraint → ResetReason → AxisConstraint
unfolding clear_undecided
axis_constraint_stage_reset state reason = record (clear_undecided state) {
  previous_intent = undecided;
  last_frame_ms = none;
}

abbrev pub expiry_interval : AxisConstraintConfig → ℕ
expiry_interval config =
    if config.fold_interval_ms == 0 then config.idle_timeout_ms else config.fold_interval_ms

unfoldable pub schedule_undecided_expiry :
    AxisConstraintConfig → ℕ → Bool → Script AxisConstraint → Script AxisConstraint
schedule_undecided_expiry config now have_undecided next =
    if expiry_interval config == 0
    then next
    else if have_undecided
    then schedule (add_u32 now (expiry_interval config)) (λ ret. next)
    else cancel next

abbrev pub emit_zeroed_frame : Signal → AxisConstraint → Script AxisConstraint
emit_zeroed_frame signal state = emit (with_vector signal (pos 0) (pos 0)) (λ ret. finish state ret)

-- A vector filtered by an intent.
abbrev pub along_x : AxisIntent → ℤ → ℤ → ℤ
along_x intent sum x = if intent_eq intent vertical then sum else saturating_add sum x

abbrev pub along_y : AxisIntent → ℤ → ℤ → ℤ
along_y intent sum y = if intent_eq intent horizontal then sum else saturating_add sum y

abbrev pub folds : AxisConstraint → Bool
folds state = intent_eq state.previous_intent undecided && state.have_undecided

-- The end of axis_constraint_stage_process for a decided intent; `fold_undecided_motion` first.
unfoldable pub constrain :
    AxisConstraintConfig → AxisConstraint → ℕ → AxisIntent → Signal → Script AxisConstraint
unfolding clear_undecided schedule_undecided_expiry
constrain config state now intent signal =
    if folds state
    then schedule_undecided_expiry config now false (
        emit
          (with_vector signal
            (along_x intent (along_x intent (pos 0) state.undecided_x) (payload_x signal.payload))
            (along_y intent (along_y intent (pos 0) state.undecided_y) (payload_y signal.payload)))
          (λ ret. finish (record (clear_undecided state) { previous_intent = intent }) ret))
    else emit
        (with_vector signal (along_x intent (pos 0) (payload_x signal.payload))
          (along_y intent (pos 0) (payload_y signal.payload)))
        (λ ret. finish (record state { previous_intent = intent }) ret)

-- A first frame, or one after a gap, finds nothing buffered.
unfoldable pub begin_constraint : AxisConstraintConfig → AxisConstraint → ℕ → AxisConstraint
unfolding clear_undecided
begin_constraint config state now =
    record (if is_none state.last_frame_ms
        || (not (config.idle_timeout_ms == 0)
            && leb config.idle_timeout_ms (since state.last_frame_ms now))
      then record (clear_undecided state) { previous_intent = undecided }
      else state) { last_frame_ms = some now }

unfoldable pub buffer : AxisConstraint → ℤ → ℤ → AxisConstraint
buffer state x y = record state {
  undecided_x = saturating_add state.undecided_x x;
  undecided_y = saturating_add state.undecided_y y;
  have_undecided = true;
}

unfoldable pub axis_constraint_stage_process :
    AxisConstraintConfig → AxisConstraint → Signal → ℕ → Script AxisConstraint
unfolding clear_undecided begin_constraint buffer constrain schedule_undecided_expiry
axis_constraint_stage_process config state signal now =
    if not (kind_eq (kind signal) normalized_motion)
    then finish state (err einval)
    else if suppression_active config.suppression signal now
    then notify suppressed (pos 0) (emit_zeroed_frame signal (clear_undecided state))
    else (let begun = begin_constraint config state now in
        let intent = signal.annotations.axis_intent in
        if intent_eq intent undecided
        then schedule_undecided_expiry config now true (
            emit_zeroed_frame signal
              (buffer begun (payload_x signal.payload) (payload_y signal.payload)))
        else constrain config begun now intent signal)

-- The value of the event is the exact sum of the sizes; the source adds two int64_t.
unfoldable pub axis_constraint_stage_flush :
    AxisConstraintConfig → AxisConstraint → ℕ → ℕ → Script AxisConstraint
unfolding clear_undecided
axis_constraint_stage_flush config state deadline_ms now_ms =
    if not state.have_undecided
    then finish state success
    else if config.discard_unclassified
    then notify discarded (pos 0) (finish (clear_undecided state) success)
    else notify flushed (pos (nat_abs state.undecided_x + nat_abs state.undecided_y)) (
        emit
          (record no_signal {
            metadata = record zero_metadata { observed_at_ms = deadline_ms };
            payload = fixed_vector state.undecided_x state.undecided_y;
          })
          (λ ret. finish (clear_undecided state) ret))

unfoldable pub axis_constraint_stage_api : List ℕ → AxisConstraintConfig → StageApi AxisConstraint
axis_constraint_stage_api strategy_id config = record {
  strategy_id = strategy_id;
  accepted_kinds = only normalized_motion;
  output_kind = normalized_motion;
  stateful = true;
  process = axis_constraint_stage_process config;
  flush = some (axis_constraint_stage_flush config);
  activate = some (λ state reason. (state, success));
  deactivate = none;
  reset = some axis_constraint_stage_reset;
}
