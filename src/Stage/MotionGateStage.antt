-- ===== src/Stage/MotionGateStage.antt =====
-- src/stage/motion_gate/coherent_displacement_stage.c: the gate of Stage/MotionGate as a stage.
use zmk_pointing_tools.Base.{
  List, einval, Bool, err, sub_u32, some, ltb, ℕ, add_u32, is_error, not, true, success, Status,
  none, Option, ◌==◌, if◌then◌else◌, ◌+◌, ◌-◌, ◌^◌, ◌&&◌, ◌||◌,
}
use zmk_pointing_tools.Base.Int.{pos}
use zmk_pointing_tools.Core.Pipeline.Types.{
  cancel, schedule, notify, suppressed, finish, ResetReason, discarded, emit, StageApi, qualified,
  Script,
}
use zmk_pointing_tools.Core.Signal.{
  only, payload_x, fixed_vector, kind, normalized_motion, or_flags, kind_eq, payload_y, Signal,
}
use zmk_pointing_tools.Stage.Effect.{notify_if, no_signal}
use zmk_pointing_tools.Stage.MotionGate.{
  coherent_displacement_validate, GateState, GateSettings, gate_pending, GateResult,
  coherent_displacement_update, gate_idle, coherent_displacement_reset, gate_active, gate_bypass,
  MotionGatePhase, coherent_displacement_expire, has_pending,
}
use zmk_pointing_tools.Stage.Suppression.{suppression_active, SuppressionPolicy}

-- struct zpt_coherent_displacement_stage_config
pub record GateStageConfig : Type 0 where
  pub settings : GateSettings
  pub suppression : SuppressionPolicy

-- struct zpt_coherent_displacement_stage_state; `pending_evidence` joins have_pending_evidence.
pub record GateStageState : Type 0 where
  pub strategy : GateState
  pub pending_evidence : Option Signal

abbrev pub clear_pending_evidence : GateStageState → GateStageState
clear_pending_evidence state = record state { pending_evidence = none }

-- The evidence with the metadata of one more frame.
unfoldable pub merge_evidence : Option Signal → Signal → Signal
unfolding or_flags
merge_evidence none signal = signal
merge_evidence (some evidence) signal =
    let previous_span = evidence.metadata.sample_span_us in
    let next_span = signal.metadata.sample_span_us in
    let overflows = ltb (2 ^ 32 - 1 - previous_span) next_span in
    record evidence {
      metadata = record (evidence.metadata) {
        sample_span_us = if overflows then 2 ^ 32 - 1 else previous_span + next_span;
        flags =
            or_flags
              (if overflows
                then record (evidence.metadata.flags) { sample_span_clipped = true }
                else evidence.metadata.flags)
              signal.metadata.flags;
        observed_at_ms = signal.metadata.observed_at_ms;
        sequence = signal.metadata.sequence;
      };
      annotations = signal.annotations;
    }

-- Of the strategy's deadlines, the earlier one from now.
unfoldable pub next_gate_deadline : GateSettings → GateState → ℕ → ℕ
next_gate_deadline settings state now =
    let deadline =
      add_u32 (elim state.last_frame_ms [ none ↦ 0 | some last ↦ last ]) settings.idle_timeout_ms in
    let qualification = add_u32 state.pending_started_ms settings.qualification_timeout_ms in
    if not state.active
      && has_pending state
      && ltb (sub_u32 qualification now) (sub_u32 deadline now)
    then qualification
    else deadline

unfoldable pub schedule_next_deadline :
    GateSettings → GateState → ℕ → (Status → Script GateStageState) → Script GateStageState
unfolding next_gate_deadline
schedule_next_deadline settings state now next =
    if not settings.enabled || (not state.active && not (has_pending state))
    then cancel (next success)
    else schedule (next_gate_deadline settings state now) next

unfoldable pub coherent_stage_activate :
    GateStageConfig → GateStageState → ResetReason → GateStageState × Status
coherent_stage_activate config state reason =
    (state, coherent_displacement_validate config.settings)

unfoldable pub coherent_stage_reset : GateStageState → ResetReason → GateStageState
coherent_stage_reset state reason = record {
  strategy = coherent_displacement_reset;
  pending_evidence = none;
}

abbrev pub phase_id : MotionGatePhase → ℕ
phase_id gate_idle = 0
phase_id gate_pending = 1
phase_id gate_active = 2
phase_id gate_bypass = 3

-- The evidence after observe_result.
unfoldable pub observe_evidence : Option Signal → Signal → GateResult → Bool → Option Signal
unfolding merge_evidence
observe_evidence evidence signal result had_pending =
    let cleared =
      if result.suppressed
        || phase_id result.phase == 3
        || result.reset_for_idle
        || result.reset_for_timeout
        || not had_pending
      then none
      else evidence in
    if phase_id result.phase == 1 || result.qualified
    then some (merge_evidence cleared signal)
    else cleared

-- The notifications of observe_result.
abbrev pub notify_result : GateResult → Script GateStageState → Script GateStageState
notify_result result next =
    if result.suppressed
    then notify suppressed (pos 0) next
    else notify_if (result.discarded && (result.reset_for_idle || result.reset_for_timeout))
        discarded (pos 0) next

unfoldable pub qualified_signal : Option Signal → GateResult → Bool → Signal
qualified_signal evidence result had_pending =
    let output : Signal = elim evidence [ none ↦ no_signal | some signal ↦ signal ] in
    record output {
      payload = fixed_vector result.x result.y;
      metadata = record (output.metadata) {
        flags = record (output.metadata.flags) {
          clipped = output.metadata.flags.clipped || result.clipped;
          coalesced = output.metadata.flags.coalesced || had_pending;
        };
      };
    }

-- The end of coherent_stage_process, by the result's phase.
unfoldable pub pass_result : GateStageState → Signal → GateResult → Bool → Script GateStageState
unfolding qualified_signal
pass_result state signal result had_pending =
    if phase_id result.phase == 3
    then emit signal (λ ret. finish state ret)
    else if result.qualified
    then notify qualified (pos 0) (
        emit (qualified_signal state.pending_evidence result had_pending)
          (λ ret. finish (clear_pending_evidence state) ret))
    else if phase_id result.phase == 2
    then emit signal (λ ret. finish state ret)
    else finish state success

unfoldable pub coherent_stage_process :
    GateStageConfig → GateStageState → Signal → ℕ → Script GateStageState
unfolding observe_evidence schedule_next_deadline pass_result
coherent_stage_process config state signal now =
    if not (kind_eq (kind signal) normalized_motion)
    then finish state (err einval)
    else (let had_pending = has_pending state.strategy in
        let (strategy, result) =
          coherent_displacement_update state.strategy config.settings (payload_x signal.payload)
            (payload_y signal.payload) now (suppression_active config.suppression signal now) in
        let updated : GateStageState = record {
          strategy = strategy;
          pending_evidence = observe_evidence state.pending_evidence signal result had_pending;
        } in
        notify_result result (
          schedule_next_deadline config.settings strategy now (λ ret.
            if is_error ret
            then finish updated ret
            else pass_result updated signal result had_pending)))

unfoldable pub coherent_stage_flush :
    GateStageConfig → GateStageState → ℕ → ℕ → Script GateStageState
unfolding schedule_next_deadline
coherent_stage_flush config state deadline_ms now_ms =
    let (strategy, result) = coherent_displacement_expire state.strategy config.settings now_ms in
    let expired = result.reset_for_idle || result.reset_for_timeout in
    let updated : GateStageState = record {
      strategy = strategy;
      pending_evidence = if expired then none else state.pending_evidence;
    } in
    notify_if (expired && result.discarded) discarded (pos 0)
      (schedule_next_deadline config.settings strategy now_ms (λ ret. finish updated ret))

unfoldable pub coherent_displacement_stage_api : List ℕ → GateStageConfig → StageApi GateStageState
coherent_displacement_stage_api strategy_id config = record {
  strategy_id = strategy_id;
  accepted_kinds = only normalized_motion;
  output_kind = normalized_motion;
  stateful = true;
  process = coherent_stage_process config;
  flush = some (coherent_stage_flush config);
  activate = some (coherent_stage_activate config);
  deactivate = none;
  reset = some coherent_stage_reset;
}
