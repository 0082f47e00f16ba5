-- ===== src/Stage/AxisIntentStage.antt =====
-- src/stage/axis_intent/axis_intent_stage.c: the estimator of Stage/AxisIntent as a stage, which
-- annotates the motion.
use zmk_pointing_tools.Base.{
  Bool, Option, some, true, ℕ, ltb, List, false, not, none, Status, leb, ◌==◌, if◌then◌else◌, ◌-◌,
  ◌*◌, ◌/◌, ◌^◌, ◌&&◌, ◌||◌,
}
use zmk_pointing_tools.Base.Int.{pos, int64_max, ℤ}
use zmk_pointing_tools.Core.Fixed.{magnitude, saturating_add_u64}
use zmk_pointing_tools.Core.Pipeline.Types.{
  emit, intent_changed, finish, suppressed, ResetReason, notify, Script, StageApi,
}
use zmk_pointing_tools.Core.Signal.{
  only, AxisIntent, normalized_motion, payload_y, payload_x, Signal, undecided,
}
use zmk_pointing_tools.Stage.AxisIntent.{
  axis_intent_validate, policy_adaptive, axis_intent_reset, AxisPolicy, axis_intent_estimate,
  axis_intent_confidence, AxisIntentSettings, AxisIntentState,
}
use zmk_pointing_tools.Stage.Effect.{notify_if, is_none, intent_eq, intent_id, with_vector, since}
use zmk_pointing_tools.Stage.Suppression.{suppression_active, SuppressionPolicy}

-- struct zpt_axis_intent_stage_config
pub record AxisIntentStageConfig : Type 0 where
  pub settings : AxisIntentSettings
  pub policy : AxisPolicy
  pub idle_timeout_ms : ℕ  -- uint16_t
  pub suppression : SuppressionPolicy

-- struct zpt_axis_intent_stage_state. `last_frame_ms` joins have_last_frame, and an intent that was not
-- notified yet, UINT8_MAX, is none.
pub record AxisIntentStageState : Type 0 where
  pub estimator : AxisIntentState
  pub last_frame_ms : Option ℕ
  pub last_notified_intent : Option AxisIntent

unfoldable pub axis_speed_per_second : ℤ → ℤ → ℕ → ℤ
axis_speed_per_second x y elapsed_ms =
    if elapsed_ms == 0
    then pos 0
    else (let magnitude_total = saturating_add_u64 (magnitude x) (magnitude y) in
        if ltb ((2 ^ 63 - 1) / 1000) magnitude_total
        then int64_max
        else pos (magnitude_total * 1000 / elapsed_ms))

unfoldable pub axis_intent_stage_activate :
    AxisIntentStageConfig → AxisIntentStageState → ResetReason → AxisIntentStageState × Status
axis_intent_stage_activate config state reason = (state, axis_intent_validate config.settings)

unfoldable pub axis_intent_stage_reset : AxisIntentStageState → ResetReason → AxisIntentStageState
axis_intent_stage_reset state reason = record {
  estimator = axis_intent_reset;
  last_frame_ms = none;
  last_notified_intent = none;
}

abbrev pub was_notified : Option AxisIntent → AxisIntent → Bool
was_notified none intent = false
was_notified (some last) intent = intent_eq last intent

abbrev pub is_stale : AxisIntentStageConfig → AxisIntentStageState → Bool → ℕ → Bool
is_stale config state suppressed_now now =
    suppressed_now
    || is_none state.last_frame_ms
    || (not (config.idle_timeout_ms == 0)
        && leb config.idle_timeout_ms (since state.last_frame_ms now))

-- The state after reset_estimator_if_stale.
unfoldable pub reset_estimator_if_stale :
    AxisIntentStageConfig → AxisIntentStageState → Bool → ℕ → AxisIntentStageState
reset_estimator_if_stale config state suppressed_now now =
    if is_stale config state suppressed_now now
    then record state { estimator = axis_intent_reset; last_notified_intent = some undecided }
    else state

-- The end of axis_intent_stage_process for a frame that is not suppressed.
unfoldable pub annotate :
    AxisIntentStageConfig → AxisIntentStageState → ℕ → Signal → Script AxisIntentStageState
unfolding axis_speed_per_second
annotate config state elapsed signal =
    let x = payload_x signal.payload in
    let y = payload_y signal.payload in
    let (estimator, intent) =
      axis_intent_estimate state.estimator config.settings config.policy x y elapsed in
    notify_if (not (was_notified state.last_notified_intent intent)) intent_changed
      (pos (intent_id intent))
      (emit
        (record signal {
          annotations = record {
            axis_intent = intent;
            axis_confidence_percent = elim config.policy [
              | policy_adaptive ↦ axis_intent_confidence estimator
              | _ ↦ 100
            ];
            speed_per_second = axis_speed_per_second x y elapsed;
          };
        })
        (λ ret.
          finish (record state { estimator = estimator; last_notified_intent = some intent }) ret))

unfoldable pub axis_intent_stage_process :
    AxisIntentStageConfig → AxisIntentStageState → Signal → ℕ → Script AxisIntentStageState
unfolding reset_estimator_if_stale annotate
axis_intent_stage_process config state signal now =
    let suppressed_now = suppression_active config.suppression signal now in
    let fresh = record (reset_estimator_if_stale config state suppressed_now now) {
      last_frame_ms = some now;
    } in
    notify_if
      (is_stale config state suppressed_now now
        && not suppressed_now
        && not (was_notified state.last_notified_intent undecided))
      intent_changed (pos 0)
      (if suppressed_now
        then notify suppressed (pos 0)
            (emit (with_vector signal (pos 0) (pos 0)) (λ ret. finish fresh ret))
        else annotate config fresh (since state.last_frame_ms now) signal)

unfoldable pub axis_intent_stage_api :
    List ℕ → AxisIntentStageConfig → StageApi AxisIntentStageState
axis_intent_stage_api strategy_id config = record {
  strategy_id = strategy_id;
  accepted_kinds = only normalized_motion;
  output_kind = normalized_motion;
  stateful = true;
  process = axis_intent_stage_process config;
  flush = none;
  activate = some (axis_intent_stage_activate config);
  deactivate = none;
  reset = some axis_intent_stage_reset;
}
