-- ===== src/Core/Pipeline/Returns.antt =====
-- Pushing, flushing and leaving a pipeline always return, whatever the stages and the sink do, and
-- within the dispatch budget.
use zmk_pointing_tools.Base.{
  ℕ, zero, suc, ◌≤◌, ◌≡◌, refl, Bool, true, false, not, ◌&&◌, none, some, Status, arith, get_elem?,
  length, is_error, inl, inr, Option-cases, if◌then◌else◌, first_of_errors,
}
use zmk_pointing_tools.Core.Signal.{Signal, kind, kind_eq}
use zmk_pointing_tools.Core.Pipeline.Types.{
  Stage, Pipeline, PipelineResult, Operation, ResetReason, input, input_done, clear_result,
}
use zmk_pointing_tools.Core.Pipeline.Engine.{Outcome, is_some, observe, dispatch_at, drain}
use zmk_pointing_tools.Core.Pipeline.Push.{
  Reply, then_drain, reply_of, push_running, begin_operation, enough_fuel, pipeline_push,
}
use zmk_pointing_tools.Core.Pipeline.Flush.{
  flush_due, flush_from, observed_flush, observed_flush_done, pipeline_flush, time_reached,
}
use zmk_pointing_tools.Core.Pipeline.Deactivate.{leave_stage, deactivate_from}
use zmk_pointing_tools.Core.Pipeline.Invariant.{
  IsClosed, Ensures, Bounded, Bounded-IsClosed, bind-Ensures, run_script-Ensures,
  dispatch_at-Bounded, drain-Bounded,
}
use zmk_pointing_tools.Core.Pipeline.Sound.{
  AllFlushable, IsSuccessor, IsSound, IsSound-IsClosed, get_elem?-IsFlushable,
}

both_true : (a b : Bool) → (a && b) ≡ true → a ≡ true
both_true a b h = ground arith

module _ {S T : Type 0} where
  -- The operation returned, with the property.
  abbrev pub Returns : (Pipeline S T → PipelineResult → Status → Type 0) → Reply S T → Type 0
  Returns P none = ⊥
  Returns P (some (p, result, ret)) = P p result ret

  -- What an operation on `p` may leave: the same pipeline, and counters within the budget.
  pub record IsWithinBudget (p p' : Pipeline S T) (result : PipelineResult) : Type 0 where
    pub successor : IsSuccessor p p'
    pub dispatches_bounded : result.dispatches ≤ p.dispatch_budget
    pub outputs_bounded : result.outputs ≤ result.dispatches

  unchanged : (p : Pipeline S T) → AllFlushable p.stages → IsWithinBudget p p clear_result
  unchanged p h = record {
    successor = record {
      same_address = refl;
      same_input = refl;
      same_budget = refl;
      same_validated = refl;
      same_length = refl;
      flushable = h;
    };
    dispatches_bounded = omega arith;
    outputs_bounded = omega arith;
  }

  begin-IsSound :
      (p : Pipeline S T) (now : ℕ) → AllFlushable p.stages → IsSound p (begin_operation p now)
  unfolding begin_operation
  begin-IsSound p now h = record {
    successor = (unchanged p h).successor;
    same_active = refl;
    accounted = omega arith;
    outputs_dispatched = omega arith;
  }

  within :
      (p : Pipeline S T) (o : Operation S T) → IsSound p o → IsWithinBudget p o.pipeline o.result
  within p o h = record {
    successor = h.successor;
    dispatches_bounded = omega arith;
    outputs_bounded = h.outputs_dispatched;
  }

  module _ (p : Pipeline S T) where
    abbrev pub Kept : Operation S T → Type 0
    Kept = Bounded (IsSound p) p.dispatch_budget

    Kept-IsClosed : IsClosed Kept
    Kept-IsClosed = Bounded-IsClosed (IsSound p) (IsSound-IsClosed p) p.dispatch_budget

    drain-Kept :
        (o : Operation S T) (ret : Status) → Kept o → Ensures Kept (drain (enough_fuel p) o ret)
    drain-Kept o ret h =
        drain-Bounded (IsSound p) (IsSound-IsClosed p) (enough_fuel p) p.dispatch_budget o ret
          (omega arith) h

    pub begin-Kept : (now : ℕ) → AllFlushable p.stages → Kept (begin_operation p now)
    unfolding begin_operation
    begin-Kept now h = (begin-IsSound p now h, omega arith)

    then_drain-Kept :
        (m : Outcome S T) → Ensures Kept m → Ensures Kept (then_drain (drain (enough_fuel p)) m)
    then_drain-Kept none h = h
    then_drain-Kept (some (o, ret)) h = drain-Kept o ret h

    reply_of-Returns :
        (m : Outcome S T)
        → Ensures Kept m
        → Returns
            (λ p' result ret. IsWithinBudget p p' result × (p'.active ≡ p.active))
            (reply_of m)
    reply_of-Returns none h = h
    reply_of-Returns (some (o, ret)) h = (within p o h.0, h.0.same_active)

    if-Returns :
        (P : Pipeline S T → PipelineResult → Status → Type 0) (b : Bool) (m n : Reply S T)
        → Returns P m
        → Returns P n
        → Returns P (if b then m else n)
    if-Returns P true m n h k = h
    if-Returns P false m n h k = k

    observed_flush-Kept :
        (observed : Bool) (o : Operation S T) → Kept o → Kept (observed_flush observed o)
    unfolding observed_flush
    observed_flush-Kept true o h = h
    observed_flush-Kept false o h = Kept-IsClosed.observed _ o h

    flush_done-Kept :
        (observed : Bool) (o : Operation S T) → Kept o → Kept (observed_flush_done observed o)
    unfolding observed_flush_done
    flush_done-Kept true o h = Kept-IsClosed.observed _ o h
    flush_done-Kept false o h = h

    push_running-Kept :
        (signal : Signal) → AllFlushable p.stages → Ensures Kept (push_running signal p)
    unfolding push_running
    push_running-Kept signal h =
        bind-Ensures Kept Kept-IsClosed (then_drain rounds (dispatch_at rounds 0 signal started))
          (λ done ret. some (observe input_done done, ret))
          (then_drain-Kept _ (
            dispatch_at-Bounded (IsSound p) (IsSound-IsClosed p) rounds p.dispatch_budget 0 signal
              started drain-Kept (started-Kept.0, omega arith)))
          λ done ret k. Kept-IsClosed.observed _ done k
      where
        rounds : Operation S T → Status → Outcome S T
        rounds = drain (enough_fuel p)

        started : Operation S T
        started = observe (input signal) (begin_operation p signal.metadata.observed_at_ms)

        started-Kept : Kept started
        started-Kept = Kept-IsClosed.observed _ _ (begin-Kept signal.metadata.observed_at_ms h)

    flush_due-Kept :
        (observed : Bool) (index : ℕ) (stage : Stage S) (o : Operation S T)
        → is_some stage.api.flush ≡ true
        → Kept o
        → Ensures Kept (flush_due (drain (enough_fuel p)) observed index stage o)
    unfolding flush_due
    flush_due-Kept observed index stage o f h = elim (Option-cases stage.api.flush) [
      | inl e ↦ absurd (ground arith)
      | inr (flush, e) ↦
          rw (e, flush_due)
            (then_drain-Kept _ (
              run_script-Ensures Kept Kept-IsClosed (drain (enough_fuel p)) drain-Kept
                (flush stage.state stage.deadline_ms o.now_ms) index _
                (Kept-IsClosed.cancelled index _ (observed_flush-Kept observed o h))))
    ]

    case-Kept :
        (b : Bool) (m n : Outcome S T)
        → (b ≡ true → Ensures Kept m)
        → (b ≡ false → Ensures Kept n)
        → Ensures Kept (elim b [ false ↦ n | true ↦ m ])
    case-Kept true m n h k = h refl
    case-Kept false m n h k = k refl

    flush_from-Kept :
        (left index : ℕ) (observed : Bool) (o : Operation S T)
        → Kept o
        → Ensures Kept (flush_from (drain (enough_fuel p)) index observed left o)
    unfolding flush_from
    flush_from-Kept zero index observed o h = flush_done-Kept observed o h
    flush_from-Kept (suc left) index observed o h =
        elim (Option-cases (get_elem? o.pipeline.stages index)) [
          | inl e ↦ rw (e, flush_from) (flush_done-Kept observed o h)
          | inr (stage, e) ↦
              rw (e, flush_from)
                (case-Kept (stage.deadline_pending && time_reached o.now_ms stage.deadline_ms) _ _
                  (λ due.
                    bind-Ensures Kept Kept-IsClosed
                      (flush_due (drain (enough_fuel p)) observed index stage o) _
                      (flush_due-Kept observed index stage o
                        (get_elem?-IsFlushable o.pipeline.stages index h.0.successor.flushable e
                          (both_true _ _ due))
                        h)
                      λ after ret k.
                        case-Kept (is_error ret) _ _ (λ failed. flush_done-Kept true after k)
                          (λ fine. flush_from-Kept left (suc index) true after k))
                  (λ early. flush_from-Kept left (suc index) observed o h))
        ]

    leave_stage-Kept :
        (reason : ResetReason) (index : ℕ) (stage : Stage S) (first_error : Status)
        (o : Operation S T)
        → Kept o
        → Ensures Kept (leave_stage (drain (enough_fuel p)) reason index stage first_error o)
    unfolding leave_stage
    leave_stage-Kept reason index stage first_error o h = elim (Option-cases stage.api.deactivate) [
      | inl e ↦ rw (e, leave_stage) (Kept-IsClosed.cancelled index o h)
      | inr (deactivate, e) ↦
          rw (e, leave_stage)
            (bind-Ensures Kept Kept-IsClosed _
              (λ after ret. some (after, first_of_errors first_error ret))
              (then_drain-Kept _ (
                run_script-Ensures Kept Kept-IsClosed (drain (enough_fuel p)) drain-Kept
                  (deactivate stage.state o.now_ms reason) index _
                  (Kept-IsClosed.cancelled index o h)))
              λ after ret k. k)
    ]

    pub deactivate_from-Kept :
        (reason : ResetReason) (left index : ℕ) (first_error : Status) (o : Operation S T)
        → Kept o
        → Ensures Kept (deactivate_from (drain (enough_fuel p)) reason index left first_error o)
    unfolding deactivate_from
    deactivate_from-Kept reason zero index first_error o h = h
    deactivate_from-Kept reason (suc left) index first_error o h =
        elim (Option-cases (get_elem? o.pipeline.stages index)) [
          | inl e ↦ rw (e, deactivate_from) h
          | inr (stage, e) ↦
              rw (e, deactivate_from)
                (bind-Ensures Kept Kept-IsClosed
                  (leave_stage (drain (enough_fuel p)) reason index stage first_error o) _
                  (leave_stage-Kept reason index stage first_error o h)
                  λ after error k. deactivate_from-Kept reason left (suc index) error after k)
        ]

    -- A push of a pipeline in which only stages with a flush callback wait for a deadline returns,
    -- whatever the stages and the sink do: the budget ends its dispatching. It leaves
    -- the pipeline in its place in the lifecycle, with no more dispatches than the budget, no more
    -- outputs than dispatches, and deadlines only at stages that can be flushed.
    pub push-Returns :
        (signal : Signal)
        → AllFlushable p.stages
        → Returns
            (λ p' result ret. IsWithinBudget p p' result × (p'.active ≡ p.active))
            (pipeline_push signal p)
    unfolding pipeline_push
    push-Returns signal h =
        if-Returns _ (not p.validated) _ _ (unchanged p h, refl)
          (if-Returns _ (not p.active) _ _ (unchanged p h, refl)
            (if-Returns _ (not (kind_eq (kind signal) p.input_kind)) _ _ (unchanged p h, refl)
              (reply_of-Returns (push_running signal p) (push_running-Kept signal h))))

    -- A flush returns, whatever the stages and the sink do, with the same bounds as a push, where
    -- only stages with a flush callback wait for a deadline.
    pub flush-Returns :
        (now_ms : ℕ)
        → AllFlushable p.stages
        → Returns
            (λ p' result ret. IsWithinBudget p p' result × (p'.active ≡ p.active))
            (pipeline_flush now_ms p)
    unfolding pipeline_flush
    flush-Returns now_ms h =
        if-Returns _ (not p.validated) _ _ (unchanged p h, refl)
          (if-Returns _ (not p.active) _ _ (unchanged p h, refl)
            (reply_of-Returns
              (flush_from (drain (enough_fuel p)) 0 false (length p.stages)
                (begin_operation p now_ms))
              (flush_from-Kept (length p.stages) 0 false _ (begin-Kept now_ms h))))
