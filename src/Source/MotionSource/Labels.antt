-- ===== src/Source/MotionSource/Labels.antt =====
-- A frame is labelled with the resolution that its counts were measured at.
use zmk_pointing_tools.Base.{
  arith, Option, some, false, Errno, none, true, ℕ, inl, inr, ◌==◌, ◌≡◌, ◌⊎◌,
}
use zmk_pointing_tools.Core.Signal.{or_flags, Flags, Signal}
use zmk_pointing_tools.Source.MotionSource.{
  take_at_sequence, motion_source_take, one_location, MotionSourceConfig, MotionSource,
  motion_source_init, motion_source_set_resolution_cpi,
}

-- What a motion source is between two calls.
pub record IsSource (state : MotionSource) : Type 0 where
  pub located : one_location state.flags ≡ true
  pub resolved : (state.resolution_cpi == 0) ≡ false

-- A source that an initialization answers with is one.
abbrev pub IsInitialized : Errno ⊎ MotionSource → Type 0
IsInitialized (inl e) = Unit
IsInitialized (inr state) = IsSource state

-- A source that is initialized without an error has exactly one location, and a resolution.
init-IsSource : (config : MotionSourceConfig) → IsInitialized (motion_source_init config)
unfolding motion_source_init
init-IsSource config = ground arith

-- What taking a frame leaves: its signal with the old resolution, the source with the new one.
abbrev pub IsLabelled : (old new : ℕ) → Option (MotionSource × Signal) → Type 0
IsLabelled old new none = ⊥
IsLabelled old new (some (state, signal)) =
    (signal.metadata.resolution_cpi ≡ old)
    × (state.resolution_cpi ≡ new)
    × (state.staged_resolution_cpi ≡ 0)
    × (state.frame.saw_axis ≡ false)
    × (one_location signal.metadata.flags ≡ true)

-- A resolution that is set while counts are pending is adopted after their frame, whenever it is
-- taken: the frame keeps the old label and one location, and the source has the new resolution.
pub set_resolution-after_frame :
    (state : MotionSource) (new observed_at_ms sample_span_us : ℕ) (additional_flags : Flags)
    → IsSource state
    → state.frame.saw_axis ≡ true
    → state.frame.flags.local ≡ false
    → state.frame.flags.transported ≡ false
    → (new == 0) ≡ false
    → IsLabelled state.resolution_cpi new (
        motion_source_take
          (motion_source_set_resolution_cpi state new).0
          observed_at_ms
          sample_span_us
          additional_flags)
unfolding motion_source_take motion_source_set_resolution_cpi take_at_sequence or_flags
set_resolution-after_frame state new observed_at_ms sample_span_us additional_flags h pending
      no_local no_transported differs =
    ground (arith, h.located)
