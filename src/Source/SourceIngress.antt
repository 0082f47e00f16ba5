-- ===== src/Source/SourceIngress.antt =====
-- src/source/source_ingress.c and its header: input events of a source become frames.
pub mod Delivery
use zmk_pointing_tools.Base.{
  ℕ, false, true, inr, some, none, Bool, Errno, arith, Option, inl, ◌==◌, if◌then◌else◌, ◌-◌, ◌%◌,
  ◌^◌, ◌≡◌, ◌⊎◌,
}
use zmk_pointing_tools.Base.Int.{negsuc, pos, ℤ}
use zmk_pointing_tools.Core.Signal.{Signal, no_flags}
use zmk_pointing_tools.Source.CompactSplit.{
  CompactSplitFrame, compact_split_decoder_init, CompactSplitDecoder, compact_split_decode,
}
use zmk_pointing_tools.Source.MotionSource.{
  axis_x, motion_source_init, MotionSourceConfig, MotionSource, take_at_sequence, motion_source_add,
  motion_source_take, motion_source_set_resolution_cpi, axis_y,
}

-- enum zpt_source_event_kind
pub data SourceEventKind : Type 0 where
  event_other event_axis_x event_axis_y event_compact : SourceEventKind

-- struct zpt_source_ingress_config
pub record SourceIngressConfig : Type 0 where
  pub source : MotionSourceConfig
  pub compact_transport_coalesced : Bool

-- struct zpt_source_ingress
pub record SourceIngress : Type 0 where
  pub source : MotionSource
  pub compact_decoder : CompactSplitDecoder

unfoldable pub source_ingress_init : SourceIngressConfig → Errno ⊎ SourceIngress
source_ingress_init config = elim (motion_source_init config.source) [
  | inl e ↦ inl e
  | inr source ↦ inr record { source = source; compact_decoder = compact_split_decoder_init }
]

-- (uint32_t)value
unfoldable pub to_uint32 : ℤ → ℕ
to_uint32 (pos n) = n % 2 ^ 32
to_uint32 (negsuc n) = 2 ^ 32 - 1 - n % 2 ^ 32

-- The source after an answer, with the frame that it may have.
abbrev pub with_frame :
    SourceIngress → Option (MotionSource × Signal) → SourceIngress × Option Signal
with_frame ingress none = (ingress, none)
with_frame ingress (some (source, signal)) = (record ingress { source = source }, some signal)

-- A decoded frame goes through the motion source.
unfoldable pub take_decoded :
    SourceIngress → SourceIngressConfig → ℕ → CompactSplitFrame → SourceIngress × Option Signal
take_decoded ingress config now_ms frame =
    let source =
      motion_source_add (motion_source_add ingress.source axis_x frame.x_counts) axis_y
        frame.y_counts in
    let flags =
      if config.compact_transport_coalesced
      then record (frame.flags) { coalesced = true }
      else frame.flags in
    with_frame (record ingress { source = source })
      (take_at_sequence source now_ms frame.sample_span_us frame.sequence flags)

-- The end of take_compact_frame, on the codec's answer; the last component is the error of the codec.
unfoldable pub after_decode :
    SourceIngress
    → SourceIngressConfig
    → ℕ
    → CompactSplitDecoder × (Errno ⊎ CompactSplitFrame)
    → SourceIngress × Option Signal × Option Errno
unfolding take_decoded
after_decode ingress config now_ms (decoder, inl e) =
    (record ingress { compact_decoder = decoder }, none, some e)
after_decode ingress config now_ms (decoder, inr frame) =
    let (ingress', signal) =
      take_decoded (record ingress { compact_decoder = decoder }) config now_ms frame in
    (ingress', signal, none)

unfoldable pub take_compact_frame :
    SourceIngress → SourceIngressConfig → ℤ → ℕ → SourceIngress × Option Signal × Option Errno
unfolding to_uint32 after_decode
take_compact_frame ingress config value now_ms =
    after_decode ingress config now_ms
      (compact_split_decode ingress.compact_decoder (to_uint32 value))

-- The end of zpt_source_ingress_handle: a native frame completes on sync.
unfoldable pub take_on_sync :
    SourceIngress → Bool → ℕ → SourceIngress × Option Signal × Option Errno
take_on_sync ingress sync now_ms =
    if sync
    then (let (ingress', signal) =
          with_frame ingress (motion_source_take ingress.source now_ms 0 no_flags) in
        (ingress', signal, none))
    else (ingress, none, none)

unfoldable pub source_ingress_handle :
    SourceIngress
    → SourceIngressConfig
    → SourceEventKind
    → ℤ
    → Bool
    → ℕ
    → SourceIngress × Option Signal × Option Errno
unfolding take_on_sync take_compact_frame
source_ingress_handle ingress config event_compact value sync now_ms =
    take_compact_frame ingress config value now_ms
source_ingress_handle ingress config event_axis_x value sync now_ms =
    take_on_sync (record ingress { source = motion_source_add ingress.source axis_x value }) sync
      now_ms
source_ingress_handle ingress config event_axis_y value sync now_ms =
    take_on_sync (record ingress { source = motion_source_add ingress.source axis_y value }) sync
      now_ms
source_ingress_handle ingress config event_other value sync now_ms =
    take_on_sync ingress sync now_ms

-- The resolution that the next frame will carry.
unfoldable pub upcoming_resolution : MotionSource → ℕ
upcoming_resolution source =
    if source.staged_resolution_cpi == 0
    then source.resolution_cpi
    else source.staged_resolution_cpi

unfoldable pub source_ingress_follow_resolution : SourceIngress → ℕ → SourceIngress
unfolding upcoming_resolution
source_ingress_follow_resolution ingress cpi =
    if cpi == 0
    then ingress
    else if cpi == upcoming_resolution ingress.source
    then ingress
    else record ingress { source = (motion_source_set_resolution_cpi ingress.source cpi).0 }

-- After a resolution other than zero is followed, it is the one that the frame after the pending one
-- carries, and a source with counts pending keeps the label of their frame.
follow_resolution-upcoming :
    (ingress : SourceIngress) (cpi : ℕ)
    → (cpi == 0) ≡ false
    → let source' = (source_ingress_follow_resolution ingress cpi).source in
      (upcoming_resolution source' ≡ cpi)
      × (ingress.source.frame.saw_axis ≡ true
          → source'.resolution_cpi ≡ ingress.source.resolution_cpi)
      × (source'.frame ≡ ingress.source.frame)
unfolding source_ingress_follow_resolution motion_source_set_resolution_cpi
follow_resolution-upcoming ingress cpi differs = ground arith
