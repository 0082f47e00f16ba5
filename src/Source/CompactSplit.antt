-- ===== src/Source/CompactSplit.antt =====
-- src/source/transport/compact_split_codec.c and its header: a frame in the 32 bits of one split
-- event. The fields do not overlap, so that `|` is a sum; `>>`, `<<` and `&` with a mask of ones are
-- written by powers of two.
pub mod Axes
pub mod Sequence
use zmk_pointing_tools.Base.{
  inr, false, ltb, true, inl, ebadmsg, Bool, leb, erange, not, Errno, ℕ, ◌==◌, if◌then◌else◌, ◌+◌,
  ◌-◌, ◌*◌, ◌/◌, ◌%◌, ◌^◌, ◌⊎◌, ◌&&◌, ◌||◌,
}
use zmk_pointing_tools.Base.Int.{ltb_ℤ, negsuc, ℤ, pos}
use zmk_pointing_tools.Core.Signal.{Flags, no_flags}

-- struct zpt_compact_split_diagnostics, all uint32_t
pub record CompactSplitDiagnostics : Type 0 where
  pub encoded_packets : ℕ
  pub decoded_packets : ℕ
  pub range_errors : ℕ
  pub format_errors : ℕ
  pub sequence_discontinuities : ℕ
  pub estimated_dropped_packets : ℕ
  pub sample_span_saturations : ℕ

abbrev pub no_diagnostics : CompactSplitDiagnostics
no_diagnostics = record {
  encoded_packets = 0;
  decoded_packets = 0;
  range_errors = 0;
  format_errors = 0;
  sequence_discontinuities = 0;
  estimated_dropped_packets = 0;
  sample_span_saturations = 0;
}

-- struct zpt_compact_split_encoder
pub record CompactSplitEncoder : Type 0 where
  pub next_sequence : ℕ  -- uint16_t
  pub diagnostics : CompactSplitDiagnostics

-- struct zpt_compact_split_decoder
pub record CompactSplitDecoder : Type 0 where
  pub expanded_sequence : ℕ  -- uint16_t
  pub previous_wire_sequence : ℕ  -- uint8_t
  pub saw_sequence : Bool
  pub diagnostics : CompactSplitDiagnostics

-- struct zpt_compact_split_frame
pub record CompactSplitFrame : Type 0 where
  pub x_counts : ℤ
  pub y_counts : ℤ
  pub sample_span_us : ℕ
  pub flags : Flags
  pub sequence : ℕ  -- uint16_t

-- value++ of a uint32_t
abbrev pub next_u32 : ℕ → ℕ
next_u32 n = (n + 1) % 2 ^ 32

-- (uint32_t)value & AXIS_MASK
unfoldable pub encode_axis : ℤ → ℕ
encode_axis (pos n) = n % 2 ^ 11
encode_axis (negsuc n) = 2 ^ 11 - 1 - n % 2 ^ 11

unfoldable pub decode_axis : ℕ → ℤ
decode_axis value =
    let axis = value % 2 ^ 11 in if leb (2 ^ 10) axis then negsuc (2 ^ 11 - 1 - axis) else pos axis

-- The code of a span, with whether it is saturated.
unfoldable pub encode_span : ℕ → ℕ × Bool
encode_span sample_span_us =
    if sample_span_us == 0
    then (0, false)
    else (let rounded = (sample_span_us + 1000) / 2000 in
        let code = if rounded == 0 then 1 else rounded in
        if leb 15 code then (15, true) else (code, false))

abbrev pub in_axis_range : ℤ → Bool
in_axis_range counts = not (ltb_ℤ counts (negsuc 1023)) && not (ltb_ℤ (pos 1023) counts)

abbrev pub compact_split_encoder_init : CompactSplitEncoder
compact_split_encoder_init = record { next_sequence = 0; diagnostics = no_diagnostics }

abbrev pub compact_split_decoder_init : CompactSplitDecoder
compact_split_decoder_init = record {
  expanded_sequence = 0;
  previous_wire_sequence = 0;
  saw_sequence = false;
  diagnostics = no_diagnostics;
}

-- The fields in their places.
unfoldable pub pack : (span sequence : ℕ) (x_counts y_counts : ℤ) → ℕ
unfolding encode_axis
pack span sequence x_counts y_counts =
    2 * 2 ^ 30
    + span * 2 ^ 26
    + sequence * 2 ^ 22
    + encode_axis y_counts * 2 ^ 11
    + encode_axis x_counts

abbrev pub count_saturation : Bool → CompactSplitDiagnostics → CompactSplitDiagnostics
count_saturation true d = record d { sample_span_saturations = next_u32 d.sample_span_saturations }
count_saturation false d = d

-- The packet, if the counts are in range: a sequence number is used up in both cases.
unfoldable pub compact_split_encode :
    CompactSplitEncoder
    → (x_counts y_counts : ℤ) (sample_span_us : ℕ) → CompactSplitEncoder × (Errno ⊎ ℕ)
unfolding encode_span pack
compact_split_encode encoder x_counts y_counts sample_span_us =
    let sequence = encoder.next_sequence % 16 in
    let next_sequence = (encoder.next_sequence + 1) % 2 ^ 16 in
    let d = encoder.diagnostics in
    if not (in_axis_range x_counts) || not (in_axis_range y_counts)
    then (
      record {
        next_sequence = next_sequence;
        diagnostics = record d { range_errors = next_u32 d.range_errors };
      },
      inl erange,
    )
    else (let (span, span_saturated) = encode_span sample_span_us in
        let counted = count_saturation span_saturated d in
        (
          record {
            next_sequence = next_sequence;
            diagnostics = record counted { encoded_packets = next_u32 counted.encoded_packets };
          },
          inr (pack span sequence x_counts y_counts),
        ))

abbrev pub gap_flags : Flags
gap_flags = record no_flags { sequence_gap = true; discontinuity = true }

-- The expanded sequence, the flags and the diagnostics for a wire sequence that has been reached.
unfoldable pub expand_sequence : CompactSplitDecoder → ℕ → ℕ × Flags × CompactSplitDiagnostics
expand_sequence decoder wire_sequence =
    let d = decoder.diagnostics in
    if not decoder.saw_sequence
    then (wire_sequence, no_flags, d)
    else (let delta = (wire_sequence + 2 ^ 32 - decoder.previous_wire_sequence) % 16 in
        if delta == 1
        then ((decoder.expanded_sequence + 1) % 2 ^ 16, no_flags, d)
        else (let counted = record d {
          sequence_discontinuities = next_u32 d.sequence_discontinuities;
        } in
            if ltb 1 delta
            then (
              (decoder.expanded_sequence + delta) % 2 ^ 16,
              gap_flags,
              record counted {
                estimated_dropped_packets =
                    (counted.estimated_dropped_packets + (delta - 1)) % 2 ^ 32;
              },
            )
            else ((decoder.expanded_sequence + 1) % 2 ^ 16, gap_flags, counted)))

unfoldable pub compact_split_decode :
    CompactSplitDecoder → ℕ → CompactSplitDecoder × (Errno ⊎ CompactSplitFrame)
unfolding decode_axis expand_sequence
compact_split_decode decoder packet =
    let d = decoder.diagnostics in
    if not (packet / 2 ^ 30 % 4 == 2)
    then (
      record decoder { diagnostics = record d { format_errors = next_u32 d.format_errors } },
      inl ebadmsg,
    )
    else (let wire_sequence = packet / 2 ^ 22 % 16 in
        let (expanded_sequence, flags, counted) = expand_sequence decoder wire_sequence in
        let span_code = packet / 2 ^ 26 % 16 in
        let saturated = span_code == 15 in
        let diagnostics = count_saturation saturated counted in
        (
          record {
            expanded_sequence = expanded_sequence;
            previous_wire_sequence = wire_sequence;
            saw_sequence = true;
            diagnostics = record diagnostics {
              decoded_packets = next_u32 diagnostics.decoded_packets;
            };
          },
          inr record {
            x_counts = decode_axis packet;
            y_counts = decode_axis (packet / 2 ^ 11);
            sample_span_us = span_code * 2000;
            flags = record flags { timing_estimated = true; sample_span_clipped = saturated };
            sequence = expanded_sequence;
          },
        ))
