-- ===== src/Core/Pipeline/Activate.antt =====
-- zpt_pipeline_activate in src/core/pipeline.c.
use zmk_pointing_tools.Base.{
  true, not, List, [], ◌∷◌, none, some, Status, ok, err, einval, ealready, success, if◌then◌else◌,
}
use zmk_pointing_tools.Core.Pipeline.Types.{Stage, Sink, Pipeline, ResetReason, lifecycle}
use zmk_pointing_tools.Core.Pipeline.Validate.{pipeline_reset}

module _ {S : Type 0} where
  -- The loop over the stages' activate callbacks, which stops at the first that fails.
  unfoldable pub activate_stages : ResetReason → List (Stage S) → List (Stage S) × Status
  activate_stages reason [] = ([], success)
  activate_stages reason (stage ∷ rest) =
      let (rest', ret) = activate_stages reason rest in
      elim stage.api.activate [
        | none ↦ (stage ∷ rest', ret)
        | some activate ↦
            let (state, own) = activate stage.state reason in
            let stage' = record stage { state = state } in
            elim own [ ok n ↦ (stage' ∷ rest', ret) | err e ↦ (stage' ∷ rest, err e) ]
      ]

module _ {T : Type 0} where
  unfoldable pub activate_sink : ResetReason → Sink T → Sink T × Status
  activate_sink reason sink = elim sink.api.activate [
    | none ↦ (sink, success)
    | some activate ↦
        let (state, ret) = activate sink.state reason in (record sink { state = state }, ret)
  ]

module _ {S T : Type 0} where
  -- The end of zpt_pipeline_activate: what the sink answers decides.
  unfoldable pub enter : ResetReason → Pipeline S T → Sink T × Status → Pipeline S T × Status
  enter reason p (sink, err e) = (pipeline_reset reason (record p { sink = sink }), err e)
  enter reason p (sink, ok n) =
      (record p { sink = sink; active = true; trace = lifecycle true ∷ p.trace }, success)

  -- The middle of zpt_pipeline_activate, on a pipeline that has been reset: the stages' answer.
  unfoldable pub enter_stages :
      ResetReason → Pipeline S T → List (Stage S) × Status → Pipeline S T × Status
  unfolding enter
  enter_stages reason p (stages, err e) =
      (pipeline_reset reason (record p { stages = stages }), err e)
  enter_stages reason p (stages, ok n) =
      enter reason (record p { stages = stages }) (activate_sink reason p.sink)

  unfoldable pub pipeline_activate : ResetReason → Pipeline S T → Pipeline S T × Status
  pipeline_activate reason p =
      if not p.validated
      then (p, err einval)
      else if p.active
      then (p, err ealready)
      else (let fresh = pipeline_reset reason p in
          enter_stages reason fresh (activate_stages reason fresh.stages))
