-- ===== src/Stage/CursorCoalescer.antt =====
-- src/stage/cursor_coalescer/cursor_coalescer.c: at most one cursor report for each interval. The link
-- that the configuration's function reports, code of the platform, is a value of the configuration
-- that a call is given.
pub mod Covered
pub mod Sums
use zmk_pointing_tools.Base.{
  List, Bool, false, none, success, true, is_error, ltb, sub_u32, Status, is_success, add_u32,
  einval, not, ℕ, Option, err, leb, some, if◌then◌else◌, ◌-◌, ◌^◌, ◌&&◌, ◌||◌,
}
use zmk_pointing_tools.Base.Int.{negsuc, ℤ, pos, eqb_ℤ, clamp_ℤ, ◌-ℤ◌}
use zmk_pointing_tools.Core.Fixed.{saturating_add}
use zmk_pointing_tools.Core.Pipeline.Types.{finish, ResetReason, StageApi, Script, schedule, emit}
use zmk_pointing_tools.Core.Signal.{
  only, kind, Metadata, payload_x, payload_y, zero_annotations, pointer, zero_metadata, Signal,
  kind_eq, pointer_delta,
}
use zmk_pointing_tools.Core.Router.Calls.{activate, deactivate, flush}

-- enum zpt_cursor_link
pub data CursorLink : Type 0 where
  usb ble : CursorLink

-- struct zpt_cursor_coalescer_config
pub record CursorCoalescerConfig : Type 0 where
  pub usb_report_interval_ms : ℕ  -- uint16_t
  pub ble_report_interval_ms : ℕ  -- uint16_t
  pub current_link : Option CursorLink

-- struct zpt_cursor_coalescer_state
pub record CursorCoalescer : Type 0 where
  pub pending_x : ℤ
  pub pending_y : ℤ
  pub metadata : Metadata
  pub pending_frames : ℕ  -- uint32_t
  pub last_report_ms : ℕ  -- uint32_t
  pub have_report : Bool
  pub armed : Bool

abbrev pub empty_coalescer : CursorCoalescer
empty_coalescer = record {
  pending_x = pos 0;
  pending_y = pos 0;
  metadata = zero_metadata;
  pending_frames = 0;
  last_report_ms = 0;
  have_report = false;
  armed = false;
}

-- The value of one report.
abbrev pub report_axis : ℤ → ℤ
report_axis pending = clamp_ℤ (negsuc (2 ^ 15 - 1)) (pos (2 ^ 15 - 1)) pending

-- The report's value, and what stays pending.
unfoldable pub take_report_axis : ℤ → ℤ × ℤ
take_report_axis pending = (report_axis pending, pending -ℤ report_axis pending)

unfoldable pub cursor_coalescer_interval_ms : CursorCoalescerConfig → ℕ
cursor_coalescer_interval_ms config = elim config.current_link [
  | some ble ↦ config.ble_report_interval_ms
  | _ ↦ config.usb_report_interval_ms
]

unfoldable pub interval_elapsed : CursorCoalescer → ℕ → ℕ → Bool
interval_elapsed state now_ms interval_ms =
    not state.have_report || leb interval_ms (sub_u32 now_ms state.last_report_ms)

-- What follows gets the state, armed if the schedule succeeds, and the status.
unfoldable pub arm :
    CursorCoalescer
    → ℕ
    → (CursorCoalescer → Status → Script CursorCoalescer)
    → Script CursorCoalescer
arm state deadline_ms next =
    if state.armed
    then next state success
    else schedule deadline_ms
        (λ ret. if is_success ret then next (record state { armed = true }) ret else next state ret)

abbrev pub has_motion : CursorCoalescer → Bool
has_motion state = not (eqb_ℤ state.pending_x (pos 0)) || not (eqb_ℤ state.pending_y (pos 0))

-- The state once a report is taken.
unfoldable pub reported : CursorCoalescer → ℕ → CursorCoalescer
unfolding take_report_axis
reported state now_ms = record state {
  pending_x = (take_report_axis state.pending_x).1;
  pending_y = (take_report_axis state.pending_y).1;
  pending_frames = 0;
  last_report_ms = now_ms;
  have_report = true;
}

unfoldable pub report_signal : CursorCoalescer → ℕ → Signal
unfolding take_report_axis
report_signal state now_ms = record {
  metadata = record (state.metadata) {
    observed_at_ms = now_ms;
    flags =
        if ltb 1 state.pending_frames
        then record (state.metadata.flags) { coalesced = true }
        else state.metadata.flags;
  };
  annotations = zero_annotations;
  payload = pointer (take_report_axis state.pending_x).0 (take_report_axis state.pending_y).0;
}

unfoldable pub send_report : CursorCoalescer → ℕ → ℕ → Script CursorCoalescer
unfolding arm reported report_signal
send_report state now_ms interval_ms =
    let after = reported state now_ms in
    if has_motion after
    then arm after (add_u32 now_ms interval_ms) (λ armed_state ret.
      if is_error ret
      then finish armed_state ret
      else emit (report_signal state now_ms) (λ ret. finish armed_state ret))
    else emit (report_signal state now_ms) (λ ret. finish after ret)

unfoldable pub cursor_coalescer_stage_reset : CursorCoalescer → ResetReason → CursorCoalescer
cursor_coalescer_stage_reset state reason = empty_coalescer

-- The state with a frame added, if it moves.
unfoldable pub add_frame : CursorCoalescer → Signal → CursorCoalescer
add_frame state signal =
    if not (eqb_ℤ (payload_x signal.payload) (pos 0))
      || not (eqb_ℤ (payload_y signal.payload) (pos 0))
    then record state {
      pending_x = saturating_add state.pending_x (payload_x signal.payload);
      pending_y = saturating_add state.pending_y (payload_y signal.payload);
      metadata = signal.metadata;
      pending_frames = add_u32 state.pending_frames 1;
    }
    else state

-- A report now, or a flush that is set.
unfoldable pub report_or_arm : CursorCoalescer → ℕ → ℕ → Script CursorCoalescer
unfolding send_report arm interval_elapsed
report_or_arm state now_ms interval_ms =
    if not state.armed && interval_elapsed state now_ms interval_ms
    then send_report state now_ms interval_ms
    else arm state (add_u32 state.last_report_ms interval_ms) finish

unfoldable pub cursor_coalescer_stage_process :
    CursorCoalescerConfig → CursorCoalescer → Signal → ℕ → Script CursorCoalescer
unfolding add_frame report_or_arm cursor_coalescer_interval_ms
cursor_coalescer_stage_process config state signal now =
    if not (kind_eq (kind signal) pointer_delta)
    then finish state (err einval)
    else (let added = add_frame state signal in
        if not (has_motion added)
        then finish added success
        else report_or_arm added now (cursor_coalescer_interval_ms config))

unfoldable pub cursor_coalescer_stage_flush :
    CursorCoalescerConfig → CursorCoalescer → ℕ → ℕ → Script CursorCoalescer
unfolding send_report cursor_coalescer_interval_ms
cursor_coalescer_stage_flush config state deadline_ms now_ms =
    let disarmed = record state { armed = false } in
    if has_motion disarmed
    then send_report disarmed now_ms (cursor_coalescer_interval_ms config)
    else finish disarmed success

unfoldable pub cursor_coalescer_stage_api :
    List ℕ → CursorCoalescerConfig → StageApi CursorCoalescer
cursor_coalescer_stage_api strategy_id config = record {
  strategy_id = strategy_id;
  accepted_kinds = only pointer_delta;
  output_kind = pointer_delta;
  stateful = true;
  process = cursor_coalescer_stage_process config;
  flush = some (cursor_coalescer_stage_flush config);
  activate = some (λ state reason. (state, success));
  deactivate = none;
  reset = some cursor_coalescer_stage_reset;
}
