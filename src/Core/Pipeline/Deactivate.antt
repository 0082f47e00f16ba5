-- ===== src/Core/Pipeline/Deactivate.antt =====
-- zpt_pipeline_deactivate in src/core/pipeline.c.
use zmk_pointing_tools.Base.{
  ℕ, zero, suc, false, not, ◌∷◌, none, some, Status, err, einval, ealready, success,
  first_of_errors, if◌then◌else◌, get_elem?, length,
}
use zmk_pointing_tools.Core.Pipeline.Types.{
  Sink, Stage, Pipeline, Operation, clear_result, ResetReason, lifecycle,
}
use zmk_pointing_tools.Core.Pipeline.Engine.{Outcome, run_script, drain, update_stage}
use zmk_pointing_tools.Core.Pipeline.Validate.{pipeline_reset}
use zmk_pointing_tools.Core.Pipeline.Push.{Reply, then_drain, begin_operation, enough_fuel}

module _ {S T : Type 0} where
  module _ (rounds : Operation S T → Status → Outcome S T) (reason : ResetReason) where
    -- One turn of the loop of zpt_pipeline_deactivate: the deadline is cleared, and what the
    -- deactivate callback emits is drained. It keeps the first error.
    unfoldable pub leave_stage : ℕ → Stage S → Status → Operation S T → Outcome S T
    unfolding update_stage
    leave_stage index stage first_error o =
        let cleared = update_stage index (λ stage. record stage { deadline_pending = false }) o in
        elim stage.api.deactivate [
          | none ↦ some (cleared, first_error)
          | some deactivate ↦
              elim (then_drain rounds
                (run_script rounds (deactivate stage.state o.now_ms reason) index cleared)) [
                  | none ↦ none
                  | some (after, ret) ↦ some (after, first_of_errors first_error ret)
                ]
        ]

    -- The loop of zpt_pipeline_deactivate over the `left` stages from `index` on: every stage leaves.
    unfoldable pub deactivate_from : ℕ → ℕ → Status → Operation S T → Outcome S T
    deactivate_from index zero first_error o = some (o, first_error)
    deactivate_from index (suc left) first_error o = elim (get_elem? o.pipeline.stages index) [
      | none ↦ some (o, first_error)
      | some stage ↦ elim (leave_stage index stage first_error o) [
        | none ↦ none
        | some (after, error) ↦ deactivate_from (suc index) left error after
      ]
    ]

module _ {T : Type 0} where
  unfoldable pub deactivate_sink : ResetReason → Status → Sink T → Sink T × Status
  deactivate_sink reason first_error sink = elim sink.api.deactivate [
    | none ↦ (sink, first_error)
    | some deactivate ↦
        let (state, ret) = deactivate sink.state reason in
        (record sink { state = state }, first_of_errors first_error ret)
  ]

module _ {S T : Type 0} where
  -- zpt_pipeline_deactivate after the stages: the sink, and the pipeline becomes idle.
  unfoldable pub become_idle : ResetReason → Operation S T → Status → Reply S T
  become_idle reason o first_error =
      let (sink, ret) = deactivate_sink reason first_error o.pipeline.sink in
      let idle = pipeline_reset reason (record (o.pipeline) { sink = sink; active = false }) in
      some (record idle { trace = lifecycle false ∷ idle.trace }, o.result, ret)

  unfoldable pub pipeline_deactivate : ℕ → ResetReason → Pipeline S T → Reply S T
  unfolding begin_operation
  pipeline_deactivate now_ms reason p =
      if not p.validated
      then some (p, clear_result, err einval)
      else if not p.active
      then some (p, clear_result, err ealready)
      else elim (deactivate_from (drain (enough_fuel p)) reason 0 (length p.stages) success
          (begin_operation p now_ms)) [
            | none ↦ none
            | some (done, first_error) ↦ become_idle reason done first_error
          ]
