-- ===== src/Core/Pipeline/Idle.antt =====
-- Entering and leaving a pipeline: a reset clears every deadline, and the lifecycle flag follows the
-- status that is returned.
use zmk_pointing_tools.Base.{
  some, success, none, Bool, if◌then◌else◌, ◌∙◌, Status, ok, err, [], Option-cases, true, map,
  length, not, inl, List, length-map, inr, false, is_error, arith, ◌∷◌, ℕ, ◌≡◌, refl,
}
use zmk_pointing_tools.Core.Pipeline.Activate.{
  enter, activate_sink, enter_stages, pipeline_activate, activate_stages,
}
use zmk_pointing_tools.Core.Pipeline.Deactivate.{deactivate_sink, become_idle, pipeline_deactivate}
use zmk_pointing_tools.Core.Pipeline.Returns.{
  deactivate_from-Kept, begin-Kept, Returns, IsWithinBudget,
}
use zmk_pointing_tools.Core.Pipeline.Sound.{IsSound, AllFlushable}
use zmk_pointing_tools.Core.Pipeline.Types.{
  PipelineResult, Sink, Operation, Stage, Pipeline, ResetReason,
}
use zmk_pointing_tools.Core.Pipeline.Validate.{reset_stage, pipeline_reset}
use zmk_pointing_tools.Core.Pipeline.Engine.{Outcome}
use zmk_pointing_tools.Core.Pipeline.Invariant.{Ensures, Bounded}
use zmk_pointing_tools.Core.Pipeline.Push.{Reply}

module _ {S : Type 0} where
  -- No stage waits for a deadline.
  abbrev pub AllIdle : List (Stage S) → Type 0
  AllIdle [] = Unit
  AllIdle (stage ∷ rest) = (stage.deadline_pending ≡ false) × AllIdle rest

  pub AllIdle-AllFlushable : (stages : List (Stage S)) → AllIdle stages → AllFlushable stages
  AllIdle-AllFlushable [] h = h
  AllIdle-AllFlushable (stage ∷ rest) h = ((λ p. cc), AllIdle-AllFlushable rest h.1)

  reset_stage-idle :
      (reason : ResetReason) (stage : Stage S) → (reset_stage reason stage).deadline_pending ≡ false
  unfolding reset_stage
  reset_stage-idle reason stage = ground arith

  pub map-reset_stage-AllIdle :
      (reason : ResetReason) (stages : List (Stage S)) → AllIdle (map (reset_stage reason) stages)
  map-reset_stage-AllIdle reason [] = tt
  map-reset_stage-AllIdle reason (stage ∷ rest) =
      (reset_stage-idle reason stage, map-reset_stage-AllIdle reason rest)

  activate_stages-AllIdle :
      (reason : ResetReason) (stages : List (Stage S))
      → AllIdle stages
      → AllIdle (activate_stages reason stages).0
  unfolding activate_stages
  activate_stages-AllIdle reason [] h = h
  activate_stages-AllIdle reason (stage ∷ rest) h =
      ground (arith, activate_stages-AllIdle reason rest h.1)

  length-activate_stages :
      (reason : ResetReason) (stages : List (Stage S))
      → length (activate_stages reason stages).0 ≡ length stages
  unfolding activate_stages
  length-activate_stages reason [] = refl
  length-activate_stages reason (stage ∷ rest) = ground (arith, length-activate_stages reason rest)

module _ {S T : Type 0} where
  -- A pipeline left as `p` was, but for the states of its stages and its sink, with no deadline.
  pub record IsReset (p p' : Pipeline S T) : Type 0 where
    pub same_address : p'.address ≡ p.address
    pub same_input : p'.input_kind ≡ p.input_kind
    pub same_budget : p'.dispatch_budget ≡ p.dispatch_budget
    pub same_validated : p'.validated ≡ p.validated
    pub same_active : p'.active ≡ p.active
    pub same_length : length p'.stages ≡ length p.stages
    pub idle : AllIdle p'.stages

  pub pipeline_reset-IsReset :
      (reason : ResetReason) (p : Pipeline S T) → IsReset p (pipeline_reset reason p)
  unfolding pipeline_reset
  pipeline_reset-IsReset reason p = elim (Option-cases p.sink.api.reset) [
    | inl e ↦
        rw (e, pipeline_reset)
          (ground (
            arith,
            length-map p.stages (reset_stage reason),
            map-reset_stage-AllIdle reason p.stages,
          ))
    | inr (reset, e) ↦
        rw (e, pipeline_reset)
          (ground (
            arith,
            length-map p.stages (reset_stage reason),
            map-reset_stage-AllIdle reason p.stages,
          ))
  ]

  -- What entering makes of a pipeline: active exactly if it succeeds, and with no deadline.
  pub record Entered (p p' : Pipeline S T) (ret : Status) : Type 0 where
    pub same_address : p'.address ≡ p.address
    pub same_input : p'.input_kind ≡ p.input_kind
    pub same_budget : p'.dispatch_budget ≡ p.dispatch_budget
    pub same_validated : p'.validated ≡ p.validated
    pub active_if_success : p'.active ≡ not (is_error ret)
    pub same_length : length p'.stages ≡ length p.stages
    pub idle : AllIdle p'.stages

  enter-Entered :
      (reason : ResetReason) (p : Pipeline S T) (answer : Sink T × Status)
      → p.active ≡ false
      → AllIdle p.stages
      → let (p', ret) = enter reason p answer in Entered p p' ret
  unfolding enter
  enter-Entered reason p (sink, err e) a h =
      ground (arith, pipeline_reset-IsReset reason (record p { sink = sink }))
  enter-Entered reason p (sink, ok n) a h = ground arith

  enter_stages-Entered :
      (reason : ResetReason) (p : Pipeline S T) (answer : List (Stage S) × Status)
      → p.active ≡ false
      → length answer.0 ≡ length p.stages
      → AllIdle answer.0
      → let (p', ret) = enter_stages reason p answer in Entered p p' ret
  unfolding enter_stages
  enter_stages-Entered reason p (stages, err e) a l h =
      ground (arith, pipeline_reset-IsReset reason (record p { stages = stages }))
  enter_stages-Entered reason p (stages, ok n) a l h =
      ground (
        arith,
        enter-Entered reason (record p { stages = stages }) (activate_sink reason p.sink) a h,
      )

  -- Entering a validated, inactive pipeline: it is active exactly if the call succeeds, and no deadline is pending
  -- on either path.
  pub activate-enters :
      (reason : ResetReason) (p : Pipeline S T)
      → p.validated ≡ true
      → p.active ≡ false
      → let (p', ret) = pipeline_activate reason p in Entered p p' ret
  unfolding pipeline_activate
  activate-enters reason p v a = ground (
    arith,
    pipeline_reset-IsReset reason p,
    enter_stages-Entered reason (pipeline_reset reason p)
        (activate_stages reason (pipeline_reset reason p).stages),
    activate_stages-AllIdle reason (pipeline_reset reason p).stages,
    length-activate_stages reason (pipeline_reset reason p).stages,
  )

  pass-guard :
      (P : Pipeline S T → PipelineResult → Status → Type 0) (b : Bool) (m n : Reply S T)
      → b ≡ false
      → Returns P n
      → Returns P (if b then m else n)
  pass-guard P true m n e k = cc
  pass-guard P false m n e k = k

  become_idle-within :
      (reason : ResetReason) (p : Pipeline S T) (o : Operation S T) (first_error : Status)
      → Bounded (IsSound p) p.dispatch_budget o
      → Returns
          (λ p' result ret. IsWithinBudget p p' result × (p'.active ≡ false) × AllIdle p'.stages)
          (become_idle reason o first_error)
  unfolding become_idle
  become_idle-within reason p o first_error h = (
    record {
      successor = record {
        same_address = reset.same_address ∙ h.0.successor.same_address;
        same_input = reset.same_input ∙ h.0.successor.same_input;
        same_budget = reset.same_budget ∙ h.0.successor.same_budget;
        same_validated = reset.same_validated ∙ h.0.successor.same_validated;
        same_length = reset.same_length ∙ h.0.successor.same_length;
        flushable = AllIdle-AllFlushable _ reset.idle;
      };
      dispatches_bounded = omega arith;
      outputs_bounded = h.0.outputs_dispatched;
    },
    reset.same_active,
    reset.idle,
  )
    where
      stopped : Pipeline S T
      stopped = record (o.pipeline) {
        sink = (deactivate_sink reason first_error o.pipeline.sink).0;
        active = false;
      }

      reset : IsReset stopped (pipeline_reset reason stopped)
      reset = pipeline_reset-IsReset reason stopped

  -- Leaving an active pipeline, in which only stages with a flush callback wait for a deadline, always
  -- returns, whatever its stages and its sink do: the pipeline is
  -- inactive, no stage waits for a deadline, and the dispatches stay within the budget.
  pub deactivate-leaves :
      (now_ms : ℕ) (reason : ResetReason) (p : Pipeline S T)
      → AllFlushable p.stages
      → p.validated ≡ true
      → p.active ≡ true
      → Returns
          (λ p' result ret. IsWithinBudget p p' result × (p'.active ≡ false) × AllIdle p'.stages)
          (pipeline_deactivate now_ms reason p)
  unfolding pipeline_deactivate
  deactivate-leaves now_ms reason p h v a = pass-guard _ (not p.validated) _ _ (ground arith) (
      pass-guard _ (not p.active) _ _ (ground arith) (
        finish _
          (deactivate_from-Kept p reason (length p.stages) 0 success _ (begin-Kept p now_ms h))))
    where
      finish :
          (m : Outcome S T)
          → Ensures (Bounded (IsSound p) p.dispatch_budget) m
          → Returns
              (λ p' result ret.
                IsWithinBudget p p' result × (p'.active ≡ false) × AllIdle p'.stages)
              (elim m [
                | none ↦ none
                | some (done, first_error) ↦ become_idle reason done first_error
              ])
      finish none k = k
      finish (some (o, ret)) k = become_idle-within reason p o ret k
