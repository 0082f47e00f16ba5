-- ===== src/Stage/Tests.antt =====
-- Tests and witnesses for the stages.
use mathlib.Core.Logic.{◌↔◌}
use zmk_pointing_tools.Base.{
  ◌≡◌, ◌<◌, ◌⊎◌, some, inl, none, ◌+◌, ◌*◌, ◌≤◌, arith, true, false, refl, [], ◌∷◌,
}
use zmk_pointing_tools.Base.Int.{◌≤ℤ◌, asr, negsuc, ◌*ℤ◌, pos, ◌*ℤ◌}
use zmk_pointing_tools.Core.Fixed.{
  ratio_dominates, magnitude, saturating_add, saturating_add_u64, fixed_one,
}
use zmk_pointing_tools.Stage.CursorQuantizer.{CursorQuantizerState}
use zmk_pointing_tools.Stage.CursorQuantizer.Conserves.{
  IsFrame, quantize_frames, quantize_frames-IsLossless, IsLossless,
}
use zmk_pointing_tools.Stage.Orientation.{
  orientation_apply, orientation_apply-IsOriented, OrientationConfig, IsOriented,
}
use zmk_pointing_tools.Core.Signal.{
  zero_annotations, fixed_vector, Metadata, undecided, horizontal, zero_metadata, Signal, pointer,
}
use zmk_pointing_tools.Stage.AxisConstraint.{
  AxisConstraint, AxisConstraintConfig, axis_constraint_stage_process,
}
use zmk_pointing_tools.Stage.AxisConstraint.OneAxis.{process-IsConstrained, IsConstrained}
use zmk_pointing_tools.Stage.AxisIntent.{
  axis_intent_estimate, AxisIntentSettings, axis_intent_reset, add_energy, axis_intent_validate,
}
use zmk_pointing_tools.Stage.AxisIntent.Hysteresis.{minor, axis_intent_estimate-engages, major}
use zmk_pointing_tools.Stage.CursorAcceleration.Curve.{
  sensitivity, cursor_acceleration_validate, AccelerationConfig,
}
use zmk_pointing_tools.Stage.CursorAcceleration.Follows.{
  observe-follows, IsFollowed, IsSpeed, time_constant, kept_share,
}
use zmk_pointing_tools.Stage.CursorAcceleration.Sensitivity.{sensitivity-bounds}
use zmk_pointing_tools.Stage.CursorAcceleration.Speed.{
  observe, observe, restart_us, instant_speed, frame_interval_us, AccelerationState,
}
use zmk_pointing_tools.Stage.CursorCoalescer.{
  CursorCoalescerConfig, cursor_coalescer_stage_flush, cursor_coalescer_stage_process,
  empty_coalescer,
}
use zmk_pointing_tools.Stage.CursorCoalescer.Covered.{IsCovered, process-flush-IsCovered}
use zmk_pointing_tools.Stage.CursorCoalescer.Sums.{process-IsConserved, IsConserved}
use zmk_pointing_tools.Stage.Effect.{effect, no_signal}
use zmk_pointing_tools.Stage.MotionGate.{
  coherent_displacement_validate, coherent_displacement_update, GateSettings,
  coherent_displacement_reset,
}
use zmk_pointing_tools.Stage.MotionGate.Holds.{IsHeld, coherent_displacement_update-IsHeld}
use zmk_pointing_tools.Stage.ResolutionNormalize.{counts_to_millimeters}
use zmk_pointing_tools.Stage.ResolutionNormalize.Rounded.{
  IsConverted, counts_to_millimeters-IsConverted,
}
use zmk_pointing_tools.Stage.ScrollBatcher.{ScrollBatcherConfig, empty_batcher, ScrollBatcher}
use zmk_pointing_tools.Stage.Suppression.{SuppressionPolicy}

orientation_apply-IsOriented_example :
    let config : OrientationConfig = record { swap_xy = true; invert_x = true; invert_y = false } in
    IsOriented config (pos 3, negsuc 4) (orientation_apply config (pos 3, negsuc 4))
orientation_apply-IsOriented_example =
    orientation_apply-IsOriented (record { swap_xy = true; invert_x = true; invert_y = false })
      (pos 3) (negsuc 4) (omega arith, omega arith) (omega arith, omega arith)

-- Half a millimetre up and a little to the left, at 254 counts per inch.
abbrev half_frame : Signal
half_frame = record no_signal {
  metadata = record zero_metadata { resolution_cpi = 254 };
  payload = fixed_vector (pos 32769) (negsuc 2);
}

half_frame-IsFrame : IsFrame half_frame
unfolding asr ◌*ℤ◌
half_frame-IsFrame = record {
  normalized = refl;
  resolved = refl;
  reportable_x = (omega arith, omega arith);
  reportable_y = (omega arith, omega arith);
}

abbrev no_remainder : CursorQuantizerState
no_remainder = record { remainder_x = pos 0; remainder_y = pos 0 }

quantize_frames-IsLossless_example :
    IsLossless no_remainder
      (half_frame ∷ half_frame ∷ [])
      (quantize_frames no_remainder (half_frame ∷ half_frame ∷ []))
quantize_frames-IsLossless_example =
    quantize_frames-IsLossless (half_frame ∷ half_frame ∷ []) no_remainder
      (half_frame-IsFrame, (half_frame-IsFrame, tt)) (omega arith, omega arith)
      (omega arith, omega arith)

abbrev right_frame : Signal
right_frame = record no_signal { payload = pointer (pos 40000) (pos 0) }

abbrev usb_config : CursorCoalescerConfig
usb_config = record { usb_report_interval_ms = 8; ble_report_interval_ms = 15; current_link = none }

process-flush-IsCovered_example :
    IsCovered empty_coalescer.armed
      (effect (cursor_coalescer_stage_process usb_config empty_coalescer right_frame 100))
    × IsCovered false (effect (cursor_coalescer_stage_flush usb_config empty_coalescer 100 100))
process-flush-IsCovered_example =
    process-flush-IsCovered usb_config empty_coalescer right_frame 100 100 (inl refl)

process-IsConserved_example :
    IsConserved
      (saturating_add empty_coalescer.pending_x (pos 40000))
      (saturating_add empty_coalescer.pending_y (pos 0))
      (effect (cursor_coalescer_stage_process usb_config empty_coalescer right_frame 100))
process-IsConserved_example = process-IsConserved usb_config empty_coalescer right_frame 100 refl

abbrev half_step : ScrollBatcher
half_step = record empty_batcher {
  pending_x = pos 98304;
  pending_y = negsuc 98303;
  remainder_x = pos 100;
}

abbrev no_suppression : SuppressionPolicy
no_suppression = none

abbrev one_step_per_millimeter : ScrollBatcherConfig
one_step_per_millimeter = record {
  steps_per_millimeter = pos fixed_one;
  report_interval_ms = 10;
  suppression = no_suppression;
}

abbrev constraint_config : AxisConstraintConfig
constraint_config = record {
  discard_unclassified = false;
  idle_timeout_ms = 100;
  fold_interval_ms = 0;
  suppression = no_suppression;
}

abbrev buffered : AxisConstraint
buffered = record {
  undecided_x = pos 5;
  undecided_y = pos 7;
  previous_intent = undecided;
  last_frame_ms = some 90;
  have_undecided = true;
}

abbrev horizontal_frame : Signal
horizontal_frame = record no_signal {
  annotations = record zero_annotations { axis_intent = horizontal };
  payload = fixed_vector (pos 3) (pos 4);
}

process-IsConstrained_example :
    IsConstrained horizontal
      (effect (axis_constraint_stage_process constraint_config buffered horizontal_frame 100))
process-IsConstrained_example =
    process-IsConstrained constraint_config buffered horizontal_frame 100 refl

abbrev intent_settings : AxisIntentSettings
intent_settings = record {
  engage_ratio_percent = 200;
  release_ratio_percent = 120;
  activation_distance = pos 50;
  window_ms = 100;
}

axis_intent_estimate-engages_example :
    let seen = add_energy axis_intent_reset intent_settings (pos 100) (pos 10) 5 in
    (minor horizontal seen * 200 ≤ major horizontal seen * 100)
    × (50 ≤ saturating_add_u64 seen.horizontal_energy seen.vertical_energy)
unfolding axis_intent_validate axis_intent_estimate saturating_add_u64 magnitude ratio_dominates
axis_intent_estimate-engages_example =
    axis_intent_estimate-engages axis_intent_reset intent_settings horizontal (pos 100) (pos 10) 5
      refl refl (λ e. ground (arith, e)) refl (omega arith)

abbrev gate_settings : GateSettings
gate_settings = record {
  enabled = true;
  activation_distance = pos 10;
  coherence_percent = 50;
  qualification_timeout_ms = 100;
  idle_timeout_ms = 200;
}

coherent_displacement_update-IsHeld_example :
    IsHeld coherent_displacement_reset gate_settings (pos 30) (pos 0) 5 false (
      coherent_displacement_update coherent_displacement_reset gate_settings
        (pos 30)
        (pos 0)
        5
        false)
unfolding coherent_displacement_validate
coherent_displacement_update-IsHeld_example =
    coherent_displacement_update-IsHeld coherent_displacement_reset gate_settings (pos 30) (pos 0) 5
      false refl refl (inl refl)

counts_to_millimeters-IsConverted_example :
    IsConverted (negsuc 99) 400 (counts_to_millimeters (negsuc 99) 400)
counts_to_millimeters-IsConverted_example = counts_to_millimeters-IsConverted (negsuc 99) 400

abbrev curve_config : AccelerationConfig
curve_config = record {
  curve_speed_mm_per_s = λ i. 20 * i + 10;
  curve_percent = λ i. 50 + 20 * i;
  speed_rise_ms = 10;
  speed_fall_ms = 20;
}

sensitivity-bounds_example :
    (pos 655 ≤ℤ sensitivity curve_config (pos 1000000))
    × (sensitivity curve_config (pos 1000000) ≤ℤ pos 655360)
unfolding cursor_acceleration_validate
sensitivity-bounds_example = sensitivity-bounds curve_config (pos 1000000) refl

abbrev rolling : AccelerationState
rolling = record { speed = pos 300000; last_frame_ms = some 90 }

observe-follows_example :
    let frame : Metadata = record zero_metadata { observed_at_ms = 98 } in
    let next = (observe rolling curve_config (pos 3000) (pos 4000) frame).speed in
    let interval_us = frame_interval_us rolling frame in
    let instant = instant_speed (pos 3000) (pos 4000) interval_us in
    let kept = kept_share curve_config (pos 300000) instant interval_us in
    IsSpeed next
    × (kept < fixed_one)
    × ((kept ≡ 0) ↔ (
        (restart_us ≤ interval_us)
        ⊎ (8000 * time_constant curve_config (pos 300000) instant ≤ interval_us)))
    × IsFollowed kept (pos 300000) (pos instant) next
observe-follows_example =
    observe-follows rolling curve_config (pos 3000) (pos 4000)
      (record zero_metadata { observed_at_ms = 98 }) (omega arith, omega arith)
      (omega arith, omega arith) (omega arith, omega arith)
