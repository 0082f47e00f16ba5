-- ===== src/Stage/Effect.antt =====
-- What one callback of a stage does when its calls succeed, as the runtime's do for a stage with a
-- flush callback and for a first emission (Core/Pipeline/Engine).
use zmk_pointing_tools.Base.{
  sub_u32, Option, false, Bool, none, some, true, ◌==◌, Status, [], List, success, ℕ, ◌∷◌,
}
use zmk_pointing_tools.Base.Int.{pos, ◌+ℤ◌, ℤ}
use zmk_pointing_tools.Core.Pipeline.Types.{
  Script, StageEvent, cancel, schedule, notify, emit, finish,
}
use zmk_pointing_tools.Core.Signal.{
  payload_y, payload_x, horizontal, undecided, free, vertical, AxisIntent, zero_annotations,
  zero_metadata, empty, Signal, fixed_vector,
}

-- What becomes of the stage's deadline.
pub data Deadline : Type 0 where
  kept : Deadline
  cancelled : Deadline
  set_to : ℕ → Deadline

pub record Effect (S : Type 0) : Type 0 where
  pub state : S
  pub emitted : List Signal
  pub events : List (StageEvent × ℤ)
  pub deadline : Deadline
  pub status : Status

-- A later change of the deadline takes the place of an earlier one.
abbrev pub or_earlier : Deadline → Deadline → Deadline
or_earlier kept earlier = earlier
or_earlier cancelled earlier = cancelled
or_earlier (set_to deadline_ms) earlier = set_to deadline_ms

abbrev pub effect : {S : Type 0} → Script S → Effect S
effect (finish state status) = record {
  state = state;
  emitted = [];
  events = [];
  deadline = kept;
  status = status;
}
effect (emit signal next) =
    let after = effect (next success) in record after { emitted = signal ∷ after.emitted }
effect (schedule deadline_ms next) =
    let after = effect (next success) in
    record after { deadline = or_earlier after.deadline (set_to deadline_ms) }
effect (cancel next) =
    let after = effect next in record after { deadline = or_earlier after.deadline cancelled }
effect (notify event value next) =
    let after = effect next in record after { events = (event, value) ∷ after.events }

-- The signal with a vector of its own kind.
abbrev pub with_vector : Signal → ℤ → ℤ → Signal
with_vector signal x y = record signal { payload = fixed_vector x y }

abbrev pub no_signal : Signal
no_signal = record { metadata = zero_metadata; annotations = zero_annotations; payload = empty }

-- A call of zpt_stage_notify under a condition.
abbrev pub notify_if : {S : Type 0} → Bool → StageEvent → ℤ → Script S → Script S
notify_if true event value next = notify event value next
notify_if false event value next = next

-- The value of enum zpt_axis_intent.
abbrev pub intent_id : AxisIntent → ℕ
intent_id undecided = 0
intent_id free = 1
intent_id horizontal = 2
intent_id vertical = 3

abbrev pub intent_eq : AxisIntent → AxisIntent → Bool
intent_eq a b = intent_id a == intent_id b

-- The milliseconds since the last frame; 0 without one.
abbrev pub since : Option ℕ → ℕ → ℕ
since none now = 0
since (some last) now = sub_u32 now last

abbrev pub is_none : Option ℕ → Bool
is_none none = true
is_none (some n) = false

-- What the emitted signals move, in all.
unfoldable pub sent_x : List Signal → ℤ
sent_x [] = pos 0
sent_x (signal ∷ rest) = payload_x signal.payload +ℤ sent_x rest

unfoldable pub sent_y : List Signal → ℤ
sent_y [] = pos 0
sent_y (signal ∷ rest) = payload_y signal.payload +ℤ sent_y rest
