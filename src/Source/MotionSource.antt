-- ===== src/Source/MotionSource.antt =====
-- src/source/frame_assembler.c and src/source/motion_source.c with their headers: the counts of a
-- frame are summed per axis, and a taken frame becomes a signal.
pub mod Sums
pub mod Labels
use zmk_pointing_tools.Base.{
  true, einval, Status, inl, not, false, inr, Bool, Option, none, ok, err, ℕ, Errno, some, ◌==◌,
  if◌then◌else◌, ◌+◌, ◌%◌, ◌^◌, ◌⊎◌, ◌&&◌, ◌||◌,
}
use zmk_pointing_tools.Base.Int.{ltb_ℤ, int64_min, int64_max, ℤ, pos, ◌+ℤ◌, ◌-ℤ◌}
use zmk_pointing_tools.Core.Signal.{
  zero_annotations, Signal, Flags, or_flags, no_flags, raw_counts, Payload,
}

-- enum zpt_motion_axis
pub data MotionAxis : Type 0 where
  axis_x axis_y : MotionAxis

-- struct zpt_frame_assembler. Of its flags only ZPT_SIGNAL_FLAG_CLIPPED is ever set.
pub record FrameAssembler : Type 0 where
  pub x_counts : ℤ
  pub y_counts : ℤ
  pub flags : Flags
  pub saw_axis : Bool

abbrev pub clipped_flag : Flags
clipped_flag = record no_flags { clipped = true }

-- The sum, with the flags.
unfoldable pub add_counts : ℤ → ℤ → Flags → ℤ × Flags
add_counts lhs rhs flags =
    if ltb_ℤ (pos 0) rhs && ltb_ℤ (int64_max -ℤ rhs) lhs
    then (int64_max, or_flags flags clipped_flag)
    else if ltb_ℤ rhs (pos 0) && ltb_ℤ lhs (int64_min -ℤ rhs)
    then (int64_min, or_flags flags clipped_flag)
    else (lhs +ℤ rhs, flags)

abbrev pub frame_assembler_reset : FrameAssembler
frame_assembler_reset = record {
  x_counts = pos 0;
  y_counts = pos 0;
  flags = no_flags;
  saw_axis = false;
}

unfoldable pub frame_assembler_add : FrameAssembler → MotionAxis → ℤ → FrameAssembler
unfolding add_counts
frame_assembler_add assembler axis_x counts =
    let (x_counts, flags) = add_counts assembler.x_counts counts assembler.flags in
    record assembler { x_counts = x_counts; flags = flags; saw_axis = true }
frame_assembler_add assembler axis_y counts =
    let (y_counts, flags) = add_counts assembler.y_counts counts assembler.flags in
    record assembler { y_counts = y_counts; flags = flags; saw_axis = true }

-- The motion and the flags of a frame, if an axis was seen.
unfoldable pub frame_assembler_take : FrameAssembler → Option (FrameAssembler × Payload × Flags)
frame_assembler_take assembler =
    if not assembler.saw_axis
    then none
    else some
        (frame_assembler_reset, raw_counts assembler.x_counts assembler.y_counts, assembler.flags)

-- struct zpt_motion_source_config
pub record MotionSourceConfig : Type 0 where
  pub flags : Flags
  pub source_id : ℕ
  pub resolution_cpi : ℕ

-- struct zpt_motion_source_state
pub record MotionSource : Type 0 where
  pub frame : FrameAssembler
  pub flags : Flags
  pub source_id : ℕ  -- uint16_t
  pub sequence : ℕ  -- uint16_t
  pub resolution_cpi : ℕ  -- uint16_t
  pub staged_resolution_cpi : ℕ  -- uint16_t, zero when none is staged

-- Exactly one of ZPT_SIGNAL_FLAG_LOCAL and ZPT_SIGNAL_FLAG_TRANSPORTED.
abbrev pub one_location : Flags → Bool
one_location flags =
    (flags.local && not flags.transported) || (not flags.local && flags.transported)

unfoldable pub motion_source_init : MotionSourceConfig → Errno ⊎ MotionSource
motion_source_init config =
    if config.resolution_cpi == 0
    then inl einval
    else if not (one_location config.flags)
    then inl einval
    else inr record {
      frame = frame_assembler_reset;
      flags = config.flags;
      source_id = config.source_id;
      sequence = 0;
      resolution_cpi = config.resolution_cpi;
      staged_resolution_cpi = 0;
    }

unfoldable pub motion_source_add : MotionSource → MotionAxis → ℤ → MotionSource
unfolding frame_assembler_add
motion_source_add state axis counts = record state {
  frame = frame_assembler_add state.frame axis counts;
}

-- flags & ~ZPT_SOURCE_LOCATION_FLAGS
abbrev pub without_location : Flags → Flags
without_location flags = record flags { local = false; transported = false }

unfoldable pub adopt_staged : MotionSource → MotionSource
adopt_staged state =
    if state.staged_resolution_cpi == 0
    then state
    else record state { resolution_cpi = state.staged_resolution_cpi; staged_resolution_cpi = 0 }

unfoldable pub take_at_sequence :
    MotionSource
    → (observed_at_ms sample_span_us sequence : ℕ) (additional_flags : Flags)
    → Option (MotionSource × Signal)
unfolding frame_assembler_take adopt_staged
take_at_sequence state observed_at_ms sample_span_us sequence additional_flags =
    elim (frame_assembler_take state.frame) [
      | none ↦ none
      | some (frame, motion, frame_flags) ↦ some (
        adopt_staged (record state { frame = frame; sequence = (sequence + 1) % 2 ^ 16 }),
        record {
          metadata = record {
            observed_at_ms = observed_at_ms;
            sample_span_us = sample_span_us;
            flags = or_flags (or_flags state.flags (without_location additional_flags)) frame_flags;
            source_id = state.source_id;
            sequence = sequence;
            resolution_cpi = state.resolution_cpi;
          };
          annotations = zero_annotations;
          payload = motion;
        },
      )
    ]

unfoldable pub motion_source_take :
    MotionSource
    → (observed_at_ms sample_span_us : ℕ) (additional_flags : Flags)
    → Option (MotionSource × Signal)
motion_source_take state observed_at_ms sample_span_us additional_flags =
    take_at_sequence state observed_at_ms sample_span_us state.sequence additional_flags

unfoldable pub motion_source_set_resolution_cpi : MotionSource → ℕ → MotionSource × Status
motion_source_set_resolution_cpi state resolution_cpi =
    if resolution_cpi == 0
    then (state, err einval)
    else if state.frame.saw_axis
    then (record state { staged_resolution_cpi = resolution_cpi }, ok 1)
    else (record state { resolution_cpi = resolution_cpi; staged_resolution_cpi = 0 }, ok 0)
