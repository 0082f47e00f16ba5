-- ===== src/Core/Pipeline/Engine.antt =====
-- Dispatching in src/core/pipeline.c: dispatch_at, drain and the calls that a stage makes.
-- `none` means that the fuel of `drain` ran out; Core/Pipeline/Total has the fuel that suffices.
use zmk_pointing_tools.Base.{
  ℕ, zero, suc, ◌+◌, ◌-◌, Bool, true, false, ◌||◌, not, ◌∷◌, Option, none, some, Status, err,
  enotsup, e2big, eprototype, einval, is_success, is_error, success, ◌==◌, if◌then◌else◌, get_elem?,
  set, modify,
}
use zmk_pointing_tools.Base.Int.{ℤ}
use zmk_pointing_tools.Core.Signal.{Signal, kind, kind_eq, kind_accepted}
use zmk_pointing_tools.Core.Pipeline.Types.{
  Script, finish, emit, schedule, cancel, notify, Stage, Operation, Observation, stage_frame,
  stage_event, StageEvent,
}

-- Whether an optional value is there.
abbrev pub is_some : {A : Type 0} → Option A → Bool
is_some none = false
is_some (some a) = true

-- What a callback or a loop of the runtime returns.
abbrev pub Outcome : Type 0 → Type 0 → Type 0
Outcome S T = Option (Operation S T × Status)

module _ {S T : Type 0} where
  -- The updates that the runtime makes to an operation.
  unfoldable pub charge : Operation S T → Operation S T
  charge o = record o {
    result = record (o.result) { dispatches = o.result.dispatches + 1 };
    remaining_dispatches = o.remaining_dispatches - 1;
  }

  unfoldable pub count_output : Operation S T → Operation S T
  count_output o = record o { result = record (o.result) { outputs = o.result.outputs + 1 } }

  unfoldable pub observe : Observation → Operation S T → Operation S T
  observe e o = record o { pipeline = record (o.pipeline) { trace = e ∷ o.pipeline.trace } }

  unfoldable pub hold : Option (ℕ × Signal) → Operation S T → Operation S T
  hold p o = record o { pending = p }

  unfoldable pub put_sink : T → Operation S T → Operation S T
  put_sink t o = record o {
    pipeline = record (o.pipeline) { sink = record (o.pipeline.sink) { state = t } };
  }

  unfoldable pub put_stage : ℕ → Stage S → Operation S T → Operation S T
  put_stage index stage o = record o {
    pipeline = record (o.pipeline) { stages = set o.pipeline.stages index stage };
  }

  -- A write to the fields of the stage at an index; there is none to write past the end.
  unfoldable pub update_stage : ℕ → (Stage S → Stage S) → Operation S T → Operation S T
  update_stage index f o = record o {
    pipeline = record (o.pipeline) { stages = modify o.pipeline.stages index f };
  }

  unfoldable pub stage_schedule_flush : ℕ → ℕ → Operation S T → Operation S T × Status
  unfolding put_stage
  stage_schedule_flush index deadline_ms o = elim (get_elem? o.pipeline.stages index) [
    | none ↦ (o, err einval)
    | some stage ↦
        if not stage.api.stateful || not (is_some stage.api.flush) then (o, err enotsup) else (
          put_stage index (record stage { deadline_ms = deadline_ms; deadline_pending = true }) o,
          success,
        )
  ]

  unfoldable pub stage_cancel_flush : ℕ → Operation S T → Operation S T
  unfolding update_stage
  stage_cancel_flush index = update_stage index (λ stage. record stage { deadline_pending = false })

  unfoldable pub stage_notify : ℕ → StageEvent → ℤ → Operation S T → Operation S T
  unfolding observe
  stage_notify index event value o = observe (stage_event index event value o.now_ms) o

  unfoldable pub emit_to_sink : Signal → Operation S T → Operation S T × Status
  unfolding put_sink count_output
  emit_to_sink signal o =
      let (state, ret) = o.pipeline.sink.api.emit o.pipeline.sink.state signal in
      let sent = put_sink state o in
      if is_success ret then (count_output sent, ret) else (sent, ret)

  -- The rest of the runtime takes `drain` at a smaller fuel as its parameter.
  module _ (drain_held : Operation S T → Status → Outcome S T) where
    -- The end of zpt_stage_emit: with an emission held, `drain_held` from success dispatches that
    -- one and all that follow before the next is held.
    unfoldable pub hold_next : Option (ℕ × Signal) → ℕ → Signal → Operation S T → Outcome S T
    unfolding hold
    hold_next none index signal o = some (hold (some (suc index, signal)) o, success)
    hold_next (some earlier) index signal o = elim (drain_held o success) [
      | none ↦ none
      | some (after, ret) ↦
          if is_error ret
          then some (after, ret)
          else some (hold (some (suc index, signal)) after, success)
    ]

    unfoldable pub stage_emit : ℕ → Signal → Operation S T → Outcome S T
    unfolding observe hold_next
    stage_emit index signal o = elim (get_elem? o.pipeline.stages index) [
      | none ↦ some (o, err einval)
      | some stage ↦
          if kind_eq (kind signal) stage.api.output_kind
          then hold_next o.pending index signal (observe (stage_frame index signal o.now_ms) o)
          else some (o, err eprototype)
    ]

    unfoldable pub run_script : Script S → ℕ → Operation S T → Outcome S T
    unfolding stage_emit stage_schedule_flush stage_cancel_flush stage_notify update_stage
    run_script (finish state ret) index o =
        some (update_stage index (λ stage. record stage { state = state }) o, ret)
    run_script (emit signal next) index o = elim (stage_emit index signal o) [
      | none ↦ none
      | some (after, ret) ↦ run_script (next ret) index after
    ]
    run_script (schedule deadline_ms next) index o =
        let (after, ret) = stage_schedule_flush index deadline_ms o in
        run_script (next ret) index after
    run_script (cancel next) index o = run_script next index (stage_cancel_flush index o)
    run_script (notify event value next) index o =
        run_script next index (stage_notify index event value o)

    -- The stage that a signal has come to, none for the sink.
    unfoldable pub deliver : Option (Stage S) → ℕ → Signal → Operation S T → Outcome S T
    unfolding charge emit_to_sink run_script
    deliver none index signal o =
        if kind_accepted o.pipeline.sink.api.accepted_kinds (kind signal)
        then some (emit_to_sink signal (charge o))
        else some (charge o, err eprototype)
    deliver (some stage) index signal o =
        if kind_accepted stage.api.accepted_kinds (kind signal)
        then run_script (stage.api.process stage.state signal o.now_ms) index (charge o)
        else some (charge o, err eprototype)

    unfoldable pub dispatch_at : ℕ → Signal → Operation S T → Outcome S T
    unfolding deliver
    dispatch_at index signal o =
        if o.remaining_dispatches == 0
        then some (o, err e2big)
        else deliver (get_elem? o.pipeline.stages index) index signal o

    -- One turn of the loop of `drain`: whether the status allows it, and what is held.
    unfoldable pub drain_round : Bool → Option (ℕ × Signal) → Operation S T → Status → Outcome S T
    unfolding dispatch_at hold
    drain_round false pending o ret = some (hold none o, ret)
    drain_round true none o ret = some (hold none o, ret)
    drain_round true (some (index, signal)) o ret = elim (dispatch_at index signal (hold none o)) [
      | none ↦ none
      | some (after, next) ↦ drain_held after next
    ]

  unfoldable pub drain : ℕ → Operation S T → Status → Outcome S T
  unfolding drain_round
  drain zero o ret = none
  drain (suc fuel) o ret = drain_round (drain fuel) (is_success ret) o.pending o ret
