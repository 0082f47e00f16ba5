-- ===== src/Core/Pipeline/Tests.antt =====
-- Tests and witnesses for the pipeline.
use zmk_pointing_tools.Base.{
  success, some, ℕ, Option, none, refl, false, true, List, Status, [], ◌≡◌, ◌∷◌,
}
use zmk_pointing_tools.Core.Pipeline.Activate.{pipeline_activate}
use zmk_pointing_tools.Core.Pipeline.Deactivate.{pipeline_deactivate}
use zmk_pointing_tools.Core.Pipeline.Flush.{pipeline_flush}
use zmk_pointing_tools.Core.Pipeline.Idle.{Entered, activate-enters, AllIdle, deactivate-leaves}
use zmk_pointing_tools.Core.Pipeline.Push.{begin_operation, push_running, Reply, pipeline_push}
use zmk_pointing_tools.Core.Pipeline.Returns.{IsWithinBudget, flush-Returns, Returns, push-Returns}
use zmk_pointing_tools.Core.Pipeline.Sample.{
  sample_stage, sample_signal, running_pipeline, ready_pipeline,
}
use zmk_pointing_tools.Core.Pipeline.Sound.{AllFlushable}
use zmk_pointing_tools.Core.Pipeline.Types.{pipeline_entered, pipeline_left}
use zmk_pointing_tools.Core.Signal.{kind_valid, kind_accepted, Signal}
use zmk_pointing_tools.Core.Pipeline.Engine.{
  observe, put_sink, drain_round, hold, charge, emit_to_sink, stage_emit, count_output,
  stage_schedule_flush, run_script, deliver, hold_next, update_stage, dispatch_at, drain, put_stage,
}

sample_flushable : AllFlushable (sample_stage ∷ [])
sample_flushable = (λ pending. refl, tt)

-- The counters and the status of an operation.
abbrev outcome : Reply ℕ (List Signal) → Option (ℕ × ℕ × Status)
outcome none = none
outcome (some (p, result, ret)) = some (result.dispatches, result.outputs, ret)

-- One dispatch to the stage, and one to the sink.
push_runs : outcome (pipeline_push sample_signal (running_pipeline 1)) ≡ some (2, 1, success)
unfolding pipeline_push push_running begin_operation dispatch_at kind_accepted kind_valid deliver
    run_script stage_schedule_flush stage_emit hold_next emit_to_sink drain drain_round charge
    count_output observe hold put_sink put_stage update_stage
push_runs = refl

push-Returns_example :
    Returns
      (λ p' result ret. IsWithinBudget (running_pipeline 1) p' result × (p'.active ≡ true))
      (pipeline_push sample_signal (running_pipeline 1))
push-Returns_example = push-Returns (running_pipeline 1) sample_signal sample_flushable

flush-Returns_example :
    Returns
      (λ p' result ret. IsWithinBudget (running_pipeline 1) p' result × (p'.active ≡ true))
      (pipeline_flush 7 (running_pipeline 1))
flush-Returns_example = flush-Returns (running_pipeline 1) 7 sample_flushable

deactivate-leaves_example :
    Returns
      (λ p' result ret.
        IsWithinBudget (running_pipeline 1) p' result × (p'.active ≡ false) × AllIdle p'.stages)
      (pipeline_deactivate 7 pipeline_left (running_pipeline 1))
deactivate-leaves_example =
    deactivate-leaves 7 pipeline_left (running_pipeline 1) sample_flushable refl refl

activate-enters_example :
    let (p', ret) = pipeline_activate pipeline_entered (ready_pipeline 1) in
    Entered (ready_pipeline 1) p' ret
activate-enters_example = activate-enters pipeline_entered (ready_pipeline 1) refl refl
