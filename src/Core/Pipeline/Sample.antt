-- ===== src/Core/Pipeline/Sample.antt =====
-- A pipeline of one stage for the tests: the stage counts its signals and passes them on, its flush
-- emits one more, and the sink keeps what it gets.
use zmk_pointing_tools.Base.{ℕ, success, none, [], List, some, true, false, ◌+◌, ◌∷◌}
use zmk_pointing_tools.Base.Int.{pos, negsuc}
use zmk_pointing_tools.Core.Pipeline.Types.{emit, StageApi, Sink, Pipeline, finish, schedule, Stage}
use zmk_pointing_tools.Core.Signal.{
  only, raw_counts, zero_metadata, raw_motion, zero_annotations, Signal,
}

abbrev pub sample_signal : Signal
sample_signal = record {
  metadata = zero_metadata;
  annotations = zero_annotations;
  payload = raw_counts (pos 3) (negsuc 1);
}

abbrev pub sample_stage_api : StageApi ℕ
sample_stage_api = record {
  strategy_id = 1 ∷ [];
  accepted_kinds = only raw_motion;
  output_kind = raw_motion;
  stateful = true;
  process = λ n signal now_ms.
      schedule (now_ms + 5) (λ scheduled. emit signal (λ ret. finish (n + 1) ret));
  flush = some (λ n deadline_ms now_ms. emit sample_signal (λ ret. finish n ret));
  activate = none;
  deactivate = none;
  reset = some (λ n reason. 0);
}

abbrev pub sample_stage : Stage ℕ
sample_stage = record {
  stable_id = 2 ∷ [];
  api = sample_stage_api;
  state = 0;
  state_address = some 100;
  owner = none;
  deadline_ms = 0;
  deadline_pending = false;
}

abbrev pub sample_sink : Sink (List Signal)
sample_sink = record {
  stable_id = 3 ∷ [];
  api = record {
    type_id = 4 ∷ [];
    accepted_kinds = only raw_motion;
    emit = λ log signal. (signal ∷ log, success);
    activate = none;
    deactivate = none;
    reset = none;
  };
  state = [];
  owner = none;
}

-- Not validated yet, and in use.
abbrev pub new_pipeline : ℕ → Pipeline ℕ (List Signal)
new_pipeline address = record {
  address = address;
  stable_id = address ∷ [];
  input_kind = raw_motion;
  stages = sample_stage ∷ [];
  sink = sample_sink;
  dispatch_budget = 8;
  validated = false;
  active = false;
  trace = [];
}

abbrev pub ready_pipeline : ℕ → Pipeline ℕ (List Signal)
ready_pipeline address = record (new_pipeline address) { validated = true }

abbrev pub running_pipeline : ℕ → Pipeline ℕ (List Signal)
running_pipeline address = record (new_pipeline address) { validated = true; active = true }
