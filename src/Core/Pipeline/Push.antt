-- ===== src/Core/Pipeline/Push.antt =====
-- zpt_pipeline_push in src/core/pipeline.c.
use zmk_pointing_tools.Base.{
  ℕ, ◌+◌, not, Option, none, some, Status, err, einval, eacces, eprototype, if◌then◌else◌,
}
use zmk_pointing_tools.Core.Signal.{Signal, kind, kind_eq}
use zmk_pointing_tools.Core.Pipeline.Types.{
  Pipeline, PipelineResult, Operation, clear_result, input, input_done,
}
use zmk_pointing_tools.Core.Pipeline.Engine.{Outcome, dispatch_at, drain, observe}

-- What an operation leaves: the pipeline, the counters, and the status returned. `none` means that
-- the fuel of `drain` ran out, or that a NULL flush callback was called.
abbrev pub Reply : Type 0 → Type 0 → Type 0
Reply S T = Option (Pipeline S T × PipelineResult × Status)

module _ {S T : Type 0} where
  unfoldable pub begin_operation : Pipeline S T → ℕ → Operation S T
  begin_operation p now_ms = record {
    pipeline = p;
    result = clear_result;
    now_ms = now_ms;
    remaining_dispatches = p.dispatch_budget;
    pending = none;
  }

  -- Fuel for one operation: one round for each dispatch of the budget, one for the dispatch that
  -- the budget refuses, and one to end.
  abbrev pub enough_fuel : Pipeline S T → ℕ
  enough_fuel p = p.dispatch_budget + 2

  -- drain(&operation, call): the rounds that follow a callback of a stage.
  abbrev pub then_drain : (Operation S T → Status → Outcome S T) → Outcome S T → Outcome S T
  then_drain rounds none = none
  then_drain rounds (some (o, ret)) = rounds o ret

  abbrev pub reply_of : Outcome S T → Reply S T
  reply_of none = none
  reply_of (some (o, ret)) = some (o.pipeline, o.result, ret)

  -- zpt_pipeline_push past its guards: the observers' calls around the dispatching.
  unfoldable pub push_running : Signal → Pipeline S T → Outcome S T
  unfolding begin_operation observe
  push_running signal p =
      let operation = begin_operation p signal.metadata.observed_at_ms in
      let rounds = drain (enough_fuel p) in
      elim (then_drain rounds (dispatch_at rounds 0 signal (observe (input signal) operation))) [
        | none ↦ none
        | some (done, ret) ↦ some (observe input_done done, ret)
      ]

  unfoldable pub pipeline_push : Signal → Pipeline S T → Reply S T
  pipeline_push signal p =
      if not p.validated
      then some (p, clear_result, err einval)
      else if not p.active
      then some (p, clear_result, err eacces)
      else if not (kind_eq (kind signal) p.input_kind)
      then some (p, clear_result, err eprototype)
      else reply_of (push_running signal p)
