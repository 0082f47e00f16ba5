-- ===== src/Core/Pipeline/Flush.antt =====
-- zpt_pipeline_flush and zpt_pipeline_next_deadline in src/core/pipeline.c.
use zmk_pointing_tools.Base.{
  ℕ, zero, suc, ◌+◌, ◌-◌, ◌%◌, ◌^◌, Bool, true, false, not, List, [], ◌∷◌, ◌&&◌, ◌||◌, Option, none,
  some, Status, err, einval, eacces, success, is_error, ltb, if◌then◌else◌, get_elem?, length,
}
use zmk_pointing_tools.Core.Pipeline.Types.{
  Stage, Pipeline, Operation, clear_result, flush_started, flush_done,
}
use zmk_pointing_tools.Core.Pipeline.Engine.{Outcome, run_script, drain, update_stage, observe}
use zmk_pointing_tools.Core.Pipeline.Push.{
  Reply, then_drain, reply_of, begin_operation, enough_fuel,
}

-- (int32_t)(now_ms - deadline_ms) >= 0
unfoldable pub time_reached : ℕ → ℕ → Bool
time_reached now_ms deadline_ms = ltb ((now_ms + 2 ^ 32 - deadline_ms) % 2 ^ 32) (2 ^ 31)

-- How long until a deadline, from now: 0 if it is reached.
unfoldable pub deadline_delta : ℕ → ℕ → ℕ
unfolding time_reached
deadline_delta now_ms deadline_ms =
    if time_reached now_ms deadline_ms then 0 else (deadline_ms + 2 ^ 32 - now_ms) % 2 ^ 32

module _ {S : Type 0} where
  -- The loop of zpt_pipeline_next_deadline; `best` joins found, best_delta and best_deadline.
  unfoldable pub earliest : ℕ → Option (ℕ × ℕ) → List (Stage S) → Option (ℕ × ℕ)
  unfolding deadline_delta
  earliest now_ms best [] = best
  earliest now_ms best (stage ∷ rest) =
      earliest now_ms
        (if stage.deadline_pending
          then (let delta = deadline_delta now_ms stage.deadline_ms in
              elim best [
                | none ↦ some (delta, stage.deadline_ms)
                | some (best_delta, best_deadline) ↦
                    if ltb delta best_delta
                    then some (delta, stage.deadline_ms)
                    else some (best_delta, best_deadline)
              ])
          else best)
        rest

module _ {S T : Type 0} where
  -- flush_done is called only if a deadline was due.
  unfoldable pub observed_flush_done : Bool → Operation S T → Operation S T
  unfolding observe
  observed_flush_done observed o = if observed then observe flush_done o else o

  unfoldable pub observed_flush : Bool → Operation S T → Operation S T
  unfolding observe
  observed_flush observed o = if observed then o else observe (flush_started o.now_ms) o

  module _ (rounds : Operation S T → Status → Outcome S T) where
    -- One turn of the loop of zpt_pipeline_flush for a stage whose deadline is due: it is observed,
    -- the deadline is cleared, and what the flush emits is drained. A NULL flush is never called.
    unfoldable pub flush_due : Bool → ℕ → Stage S → Operation S T → Outcome S T
    unfolding update_stage observed_flush
    flush_due observed index stage o = elim stage.api.flush [
      | none ↦ none
      | some flush ↦ then_drain rounds (
          run_script rounds (flush stage.state stage.deadline_ms o.now_ms) index (
            update_stage index (λ stage. record stage { deadline_pending = false })
              (observed_flush observed o)))
    ]

    -- The loop of zpt_pipeline_flush over the `left` stages from `index` on.
    unfoldable pub flush_from : ℕ → Bool → ℕ → Operation S T → Outcome S T
    unfolding observed_flush_done
    flush_from index observed zero o = some (observed_flush_done observed o, success)
    flush_from index observed (suc left) o = elim (get_elem? o.pipeline.stages index) [
      | none ↦ some (observed_flush_done observed o, success)
      | some stage ↦ elim (stage.deadline_pending && time_reached o.now_ms stage.deadline_ms) [
        | false ↦ flush_from (suc index) observed left o
        | true ↦ elim (flush_due observed index stage o) [
          | none ↦ none
          | some (after, ret) ↦ elim (is_error ret) [
            | true ↦ some (observed_flush_done true after, ret)
            | false ↦ flush_from (suc index) true left after
          ]
        ]
      ]
    ]

  unfoldable pub pipeline_flush : ℕ → Pipeline S T → Reply S T
  pipeline_flush now_ms p =
      if not p.validated
      then some (p, clear_result, err einval)
      else if not p.active
      then some (p, clear_result, err eacces)
      else reply_of
          (flush_from (drain (enough_fuel p)) 0 false (length p.stages) (begin_operation p now_ms))

  unfoldable pub pipeline_next_deadline : Pipeline S T → ℕ → Option ℕ
  unfolding earliest
  pipeline_next_deadline p now_ms =
      if not p.validated || not p.active then none else elim (earliest now_ms none p.stages) [
        | none ↦ none
        | some (delta, deadline) ↦ some deadline
      ]
