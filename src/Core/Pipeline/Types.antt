-- ===== src/Core/Pipeline/Types.antt =====
-- The data of pipeline.h. A stage's code is a `Script`: its calls into the runtime, each with what
-- it does next, and at the end its new state and result. `S` holds the stages' states, `T` the
-- sink's. The calls that observers see are kept in a trace, newest first.
use zmk_pointing_tools.Base.{ℕ, Bool, List, Option, Status}
use zmk_pointing_tools.Base.Int.{ℤ}
use zmk_pointing_tools.Core.Signal.{Kind, KindMask, Signal}

-- enum zpt_reset_reason
pub data ResetReason : Type 0 where
  initialization idle pipeline_entered pipeline_left source_disconnected : ResetReason
  source_reconnected transport_discontinuity external_suppression settings_changed : ResetReason
  settings_defaulted administrative : ResetReason

-- enum zpt_stage_event
pub data StageEvent : Type 0 where
  suppressed discarded qualified intent_changed flushed action : StageEvent

-- What a stage's callback does: zpt_stage_emit, zpt_stage_schedule_flush, zpt_stage_cancel_flush,
-- zpt_stage_notify, or return.
pub data Script (S : Type 0) : Type 0 where
  finish : S → Status → Script S
  emit : Signal → (Status → Script S) → Script S
  schedule : ℕ → (Status → Script S) → Script S
  cancel : Script S → Script S
  notify : StageEvent → ℤ → Script S → Script S

-- struct zpt_stage_api; a callback that may be NULL is an option. `process` takes the state, the
-- signal and the time; `flush` the state, the stage's deadline and the time.
pub record StageApi (S : Type 0) : Type 0 where
  pub strategy_id : List ℕ
  pub accepted_kinds : KindMask
  pub output_kind : Kind
  pub stateful : Bool
  pub process : S → Signal → ℕ → Script S
  pub flush : Option (S → ℕ → ℕ → Script S)
  pub activate : Option (S → ResetReason → S × Status)
  pub deactivate : Option (S → ℕ → ResetReason → Script S)
  pub reset : Option (S → ResetReason → S)

-- struct zpt_stage. `state_address` is the identity of the state object, none for NULL.
pub record Stage (S : Type 0) : Type 0 where
  pub stable_id : List ℕ
  pub api : StageApi S
  pub state : S
  pub state_address : Option ℕ
  pub owner : Option ℕ
  pub deadline_ms : ℕ
  pub deadline_pending : Bool

-- struct zpt_sink_api and struct zpt_sink
pub record SinkApi (T : Type 0) : Type 0 where
  pub type_id : List ℕ
  pub accepted_kinds : KindMask
  pub emit : T → Signal → T × Status
  pub activate : Option (T → ResetReason → T × Status)
  pub deactivate : Option (T → ResetReason → T × Status)
  pub reset : Option (T → ResetReason → T)

pub record Sink (T : Type 0) : Type 0 where
  pub stable_id : List ℕ
  pub api : SinkApi T
  pub state : T
  pub owner : Option ℕ

-- The calls of struct zpt_stage_observer and struct zpt_pipeline_observer.
pub data Observation : Type 0 where
  stage_frame : ℕ → Signal → ℕ → Observation
  stage_event : ℕ → StageEvent → ℤ → ℕ → Observation
  input : Signal → Observation
  input_done : Observation
  flush_started : ℕ → Observation
  flush_done : Observation
  lifecycle : Bool → Observation

-- struct zpt_pipeline; `address` is its identity.
pub record Pipeline (S : Type 0) (T : Type 0) : Type 0 where
  pub address : ℕ
  pub stable_id : List ℕ
  pub input_kind : Kind
  pub stages : List (Stage S)
  pub sink : Sink T
  pub dispatch_budget : ℕ
  pub validated : Bool
  pub active : Bool
  pub trace : List Observation

-- struct zpt_pipeline_result
pub record PipelineResult : Type 0 where
  pub dispatches : ℕ
  pub outputs : ℕ

abbrev pub clear_result : PipelineResult
clear_result = record { dispatches = 0; outputs = 0 }

-- struct zpt_pipeline_operation; `pending` joins has_pending, pending_index and pending.
pub record Operation (S : Type 0) (T : Type 0) : Type 0 where
  pub pipeline : Pipeline S T
  pub result : PipelineResult
  pub now_ms : ℕ
  pub remaining_dispatches : ℕ
  pub pending : Option (ℕ × Signal)
