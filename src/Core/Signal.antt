-- ===== src/Core/Signal.antt =====
-- include/zmk/pointing_tools/core/signal.h: the typed values that the stages exchange. The `union`
-- of a signal, with the `kind` that says which member is meant, is one data type.
use zmk_pointing_tools.Base.{ℕ, Bool, true, false, ◌||◌, ◌&&◌}
use zmk_pointing_tools.Base.Int.{ℤ, pos}

-- enum zpt_signal_kind
pub data Kind : Type 0 where
  invalid raw_motion normalized_motion pointer_delta scroll_steps action : Kind

unfoldable pub kind_valid : Kind → Bool
kind_valid invalid = false
kind_valid _ = true

abbrev pub kind_eq : Kind → Kind → Bool
kind_eq invalid invalid = true
kind_eq raw_motion raw_motion = true
kind_eq normalized_motion normalized_motion = true
kind_eq pointer_delta pointer_delta = true
kind_eq scroll_steps scroll_steps = true
kind_eq action action = true
kind_eq _ _ = false

-- The bits of enum zpt_signal_flag.
pub record Flags : Type 0 where
  pub local : Bool
  pub transported : Bool
  pub coalesced : Bool
  pub timing_estimated : Bool
  pub clipped : Bool
  pub sequence_gap : Bool
  pub discontinuity : Bool
  pub sample_span_clipped : Bool

abbrev pub no_flags : Flags
no_flags = record {
  local = false;
  transported = false;
  coalesced = false;
  timing_estimated = false;
  clipped = false;
  sequence_gap = false;
  discontinuity = false;
  sample_span_clipped = false;
}

-- a | b
unfoldable pub or_flags : Flags → Flags → Flags
or_flags a b = record {
  local = a.local || b.local;
  transported = a.transported || b.transported;
  coalesced = a.coalesced || b.coalesced;
  timing_estimated = a.timing_estimated || b.timing_estimated;
  clipped = a.clipped || b.clipped;
  sequence_gap = a.sequence_gap || b.sequence_gap;
  discontinuity = a.discontinuity || b.discontinuity;
  sample_span_clipped = a.sample_span_clipped || b.sample_span_clipped;
}

-- struct zpt_signal_metadata
pub record Metadata : Type 0 where
  pub observed_at_ms : ℕ  -- uint32_t
  pub sample_span_us : ℕ  -- uint32_t
  pub flags : Flags
  pub source_id : ℕ  -- uint16_t
  pub sequence : ℕ  -- uint16_t
  pub resolution_cpi : ℕ  -- uint16_t

-- enum zpt_signal_axis_intent
pub data AxisIntent : Type 0 where
  undecided free horizontal vertical : AxisIntent

-- struct zpt_signal_annotations
pub record Annotations : Type 0 where
  pub speed_per_second : ℤ
  pub axis_confidence_percent : ℕ
  pub axis_intent : AxisIntent

-- The kind of a signal together with its member of the union.
pub data Payload : Type 0 where
  empty : Payload
  raw_counts : ℤ → ℤ → Payload
  fixed_vector : ℤ → ℤ → Payload
  pointer : ℤ → ℤ → Payload
  steps : ℤ → ℤ → Payload
  action_id : ℕ → Payload

-- struct zpt_signal
pub record Signal : Type 0 where
  pub metadata : Metadata
  pub annotations : Annotations
  pub payload : Payload

abbrev pub payload_kind : Payload → Kind
payload_kind empty = invalid
payload_kind (raw_counts x y) = raw_motion
payload_kind (fixed_vector x y) = normalized_motion
payload_kind (pointer x y) = pointer_delta
payload_kind (steps x y) = scroll_steps
payload_kind (action_id n) = action

abbrev pub kind : Signal → Kind
kind s = payload_kind s.payload

-- The two components of a member of the union; an action has none.
abbrev pub payload_x : Payload → ℤ
payload_x empty = pos 0
payload_x (raw_counts x y) = x
payload_x (fixed_vector x y) = x
payload_x (pointer x y) = x
payload_x (steps x y) = x
payload_x (action_id n) = pos 0

abbrev pub payload_y : Payload → ℤ
payload_y empty = pos 0
payload_y (raw_counts x y) = y
payload_y (fixed_vector x y) = y
payload_y (pointer x y) = y
payload_y (steps x y) = y
payload_y (action_id n) = pos 0

abbrev pub zero_metadata : Metadata
zero_metadata = record {
  observed_at_ms = 0;
  sample_span_us = 0;
  flags = no_flags;
  source_id = 0;
  sequence = 0;
  resolution_cpi = 0;
}

abbrev pub zero_annotations : Annotations
zero_annotations = record {
  speed_per_second = pos 0;
  axis_confidence_percent = 0;
  axis_intent = undecided;
}

-- A mask of kinds, ZPT_SIGNAL_KIND_MASK and its unions.
abbrev pub KindMask : Type 0
KindMask = Kind → Bool

abbrev pub only : Kind → KindMask
only = kind_eq

unfoldable pub kind_accepted : KindMask → Kind → Bool
unfolding kind_valid
kind_accepted accepted k = kind_valid k && accepted k
