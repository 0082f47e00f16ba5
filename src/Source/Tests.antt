-- ===== src/Source/Tests.antt =====
-- Tests and witnesses for the sources of motion.
use zmk_pointing_tools.Base.{
  inr, ◌==◌, ◌^◌, List, false, arith, [], true, some, refl, ◌+◌, ◌*◌, ◌<◌, ◌≡◌, ◌∷◌,
}
use zmk_pointing_tools.Base.Int.{ℤ, neg_of_ℕ, ◌+ℤ◌, negsuc, pos, ◌-ℤ◌}
use zmk_pointing_tools.Core.Signal.{no_flags, raw_counts}
use zmk_pointing_tools.Source.CompactSplit.{
  pack, encode_axis, compact_split_decoder_init, encode_span, no_diagnostics, compact_split_encode,
  CompactSplitEncoder, CompactSplitDecoder,
}
use zmk_pointing_tools.Source.CompactSplit.Sequence.{
  IsTransported, encode_span-IsSpanCode, IsSpanCode, codec-transports,
}
use zmk_pointing_tools.Source.DeviceCaps.{cpi_validate, CpiCapabilities}
use zmk_pointing_tools.Source.DeviceCaps.Nearest.{IsNearestOf, list-IsNearest}
use zmk_pointing_tools.Source.DeviceCaps.Range.{range-IsSnapped, IsSnapped}
use zmk_pointing_tools.Source.MotionSource.{
  axis_y, frame_assembler_take, frame_assembler_add, axis_x, MotionAxis, MotionSource,
  motion_source_set_resolution_cpi, frame_assembler_reset, add_counts, motion_source_take,
}
use zmk_pointing_tools.Source.MotionSource.Labels.{set_resolution-after_frame, IsLabelled, IsSource}
use zmk_pointing_tools.Source.MotionSource.Sums.{sum_y, sum_x, add_all, take-sums}
use zmk_pointing_tools.Source.SensorControl.{
  scw_session_offer, scw_session_begin, scw_param_opcode, offer-matches, scw_param_device_id,
  param1-fields, scw_session_init, scw_session_result, scw_param1, scw_param_seq, scw_encode,
}
use zmk_pointing_tools.Source.SourceIngress.{
  to_uint32, source_ingress_handle, SourceIngressConfig, event_compact, SourceIngress,
}
use zmk_pointing_tools.Source.SourceIngress.Delivery.{IsDelivered, handle-delivers}

abbrev followed : CompactSplitDecoder
followed = record {
  expanded_sequence = 65535;
  previous_wire_sequence = 15;
  saw_sequence = true;
  diagnostics = no_diagnostics;
}

abbrev sending : CompactSplitEncoder
sending = record { next_sequence = 2; diagnostics = no_diagnostics }

-- Two packets are lost while the sequence wraps.
codec-transports_example :
    IsTransported followed
      (negsuc 1023)
      (pos 1023)
      2
      2
      5000
      (compact_split_encode sending (negsuc 1023) (pos 1023) 5000)
codec-transports_example =
    codec-transports sending followed (negsuc 1023) (pos 1023) 65535 2 5000
      (record { seen = refl; wire = refl; expanded = refl }) (omega arith) refl refl refl

encode_span-IsSpanCode_example : IsSpanCode 5000 (encode_span 5000)
encode_span-IsSpanCode_example = encode_span-IsSpanCode 5000

abbrev sample_range : CpiCapabilities
sample_range = record {
  settable = true;
  discrete = false;
  range_min = 100;
  range_max = 3200;
  range_step = 50;
  list_values = [];
}

range-IsSnapped_example : IsSnapped sample_range 333 (100 + 5 * 50) (cpi_validate sample_range 333)
range-IsSnapped_example =
    range-IsSnapped sample_range 333 5 refl refl (omega arith) (omega arith) (omega arith)
      (omega arith)

abbrev sample_list : CpiCapabilities
sample_list = record sample_range { discrete = true; list_values = 400 ∷ 800 ∷ 1600 ∷ [] }

list-IsNearest_example : IsNearestOf sample_list.list_values 700 (cpi_validate sample_list 700)
list-IsNearest_example =
    list-IsNearest sample_list 700 400 (800 ∷ 1600 ∷ []) refl refl refl (omega arith) (omega arith)

abbrev sample_source : MotionSource
sample_source = record {
  frame = record { x_counts = pos 4; y_counts = pos 0; flags = no_flags; saw_axis = true };
  flags = record no_flags { local = true };
  source_id = 1;
  sequence = 0;
  resolution_cpi = 800;
  staged_resolution_cpi = 0;
}

sample_source-IsSource : IsSource sample_source
sample_source-IsSource = record { located = refl; resolved = refl }

set_resolution-after_frame_example :
    IsLabelled 800 1600
      (motion_source_take (motion_source_set_resolution_cpi sample_source 1600).0 10 8000 no_flags)
set_resolution-after_frame_example =
    set_resolution-after_frame sample_source 1600 10 8000 no_flags sample_source-IsSource refl refl
      refl refl

abbrev sample_events : List (MotionAxis × ℤ)
sample_events = (axis_x, pos 3) ∷ (axis_y, negsuc 4) ∷ (axis_x, negsuc 0) ∷ []

sample_taken :
    frame_assembler_take (add_all sample_events frame_assembler_reset)
    ≡ some (frame_assembler_reset, raw_counts (pos 2) (negsuc 4), no_flags)
unfolding frame_assembler_take add_all frame_assembler_add add_counts ◌+ℤ◌ ◌-ℤ◌
sample_taken = refl

take-sums_example :
    (raw_counts (pos 2) (negsuc 4) ≡ raw_counts (sum_x sample_events) (sum_y sample_events))
    × (frame_assembler_reset ≡ frame_assembler_reset)
take-sums_example = take-sums sample_events sample_taken refl

abbrev sample_ingress : SourceIngress
sample_ingress = record { source = sample_source; compact_decoder = compact_split_decoder_init }

offer-matches_example :
    let (begun, number) = scw_session_begin scw_session_init in
    let (offered, accepted) = scw_session_offer begun (scw_encode 0 1 800) in
    (accepted ≡ (1 == number))
    × (accepted ≡ true → scw_session_result offered ≡ (neg_of_ℕ 0, 800))
    × (accepted ≡ false → offered ≡ begun)
    × ((scw_session_offer offered (scw_encode 0 1 800)).1 ≡ false)
offer-matches_example =
    offer-matches scw_session_init 0 1 800 (omega arith) (omega arith) (omega arith)

param1-fields_example :
    (scw_param_seq (scw_param1 3 2 7) ≡ 3)
    × (scw_param_opcode (scw_param1 3 2 7) ≡ 2)
    × (scw_param_device_id (scw_param1 3 2 7) ≡ 7)
    × (scw_param1 3 2 7 < 2 ^ 32)
param1-fields_example = param1-fields 3 2 7 (omega arith) (omega arith) (omega arith)

abbrev following_ingress : SourceIngress
following_ingress = record {
  source = record sample_source { frame = frame_assembler_reset };
  compact_decoder = followed;
}

abbrev sample_config : SourceIngressConfig
sample_config = record {
  source = record { flags = record no_flags { local = true }; source_id = 1; resolution_cpi = 800 };
  compact_transport_coalesced = false;
}

-- The packet of (-1, 1) with span code 3 and sequence 2.
packet_encoded : (compact_split_encode sending (negsuc 0) (pos 1) 5000).1 ≡ inr 2357202943
unfolding compact_split_encode encode_span pack encode_axis
packet_encoded = refl

handle-delivers_example : IsDelivered (negsuc 0) (pos 1) 2 (
    source_ingress_handle following_ingress sample_config event_compact (negsuc 1937764352) true 10)
unfolding to_uint32
handle-delivers_example =
    handle-delivers sending following_ingress sample_config (negsuc 0) (pos 1) (negsuc 1937764352)
      65535 2 5000 10 2357202943 true refl (record { seen = refl; wire = refl; expanded = refl })
      (omega arith) refl refl refl packet_encoded refl
