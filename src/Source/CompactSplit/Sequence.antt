-- ===== src/Source/CompactSplit/Sequence.antt =====
-- The rolling sequence of the packets: a decoder follows its encoder over lost packets.
use zmk_pointing_tools.Base.{
  Errno, inr, not, inl, false, ◌*◌, ◌≤◌, ◌⊎◌, arith, ◌-◌, ℕ, true, ◌==◌, if◌then◌else◌, ◌+◌, ◌%◌,
  ◌^◌, ◌<◌, ◌≡◌, Bool,
}
use zmk_pointing_tools.Core.Signal.{no_flags}
use zmk_pointing_tools.Source.CompactSplit.{
  CompactSplitFrame, in_axis_range, compact_split_encode, CompactSplitEncoder, encode_span, pack,
  compact_split_decode, gap_flags, CompactSplitDecoder, expand_sequence,
}
use zmk_pointing_tools.Base.Int.{ℤ}
use zmk_pointing_tools.Source.CompactSplit.Axes.{pack-fields}

-- The decoder's last frame had the encoder's number `last`.
pub record HasSeen (last : ℕ) (decoder : CompactSplitDecoder) : Type 0 where
  pub seen : decoder.saw_sequence ≡ true
  pub wire : decoder.previous_wire_sequence ≡ last % 16
  pub expanded : decoder.expanded_sequence ≡ last % 2 ^ 16

expected_delta :
    (last lost : ℕ) → lost < 15 → ((last + 1 + lost) % 16 + 2 ^ 32 - last % 16) % 16 ≡ lost + 1
expected_delta last lost l = omega arith

-- The packet that is `1 + lost` numbers after the last one seen, with fewer than 15 lost: the number
-- is reconstructed, the lost packets are counted, and a gap is flagged exactly if there are any.
expand-lost :
    (decoder : CompactSplitDecoder) (last lost : ℕ)
    → HasSeen last decoder
    → lost < 15
    → let (sequence, flags, counted) = expand_sequence decoder ((last + 1 + lost) % 16) in
      (sequence ≡ (last + 1 + lost) % 2 ^ 16)
      × (flags ≡ (if lost == 0 then no_flags else gap_flags))
      × (counted.estimated_dropped_packets % 2 ^ 32
          ≡ (decoder.diagnostics.estimated_dropped_packets + lost) % 2 ^ 32)
unfolding expand_sequence
expand-lost decoder last lost h l =
    let delta = expected_delta last lost l in ground (arith, h.seen, h.wire, h.expanded, delta)

encode_span-lt : (sample_span_us : ℕ) → (encode_span sample_span_us).0 < 16
unfolding encode_span
encode_span-lt sample_span_us = ground arith

-- The code of a span: none for no span, the least one below half a quantum, the nearest multiple, or the
-- greatest code, which is marked.
abbrev pub IsSpanCode : ℕ → ℕ × Bool → Type 0
IsSpanCode sample_span_us (code, saturated) =
    ((sample_span_us ≡ 0) × (code ≡ 0) × (saturated ≡ false))
    ⊎ ((0 < sample_span_us) × (sample_span_us < 1000) × (code ≡ 1) × (saturated ≡ false))
    ⊎ ((1000 ≤ sample_span_us)
        × (sample_span_us < 29000)
        × (code * 2000 ≤ sample_span_us + 1000)
        × (sample_span_us < code * 2000 + 1000)
        × (saturated ≡ false))
    ⊎ ((29000 ≤ sample_span_us) × (code ≡ 15) × (saturated ≡ true))

-- The code of every span: 0 for none; 1 for a span below 1000 microseconds; for one from 1000 to 28999 the
-- nearest multiple of 2000, halves up; and 15 for a longer one, which alone is marked as saturated.
pub encode_span-IsSpanCode :
    (sample_span_us : ℕ) → IsSpanCode sample_span_us (encode_span sample_span_us)
unfolding encode_span
encode_span-IsSpanCode sample_span_us = ground arith

-- The frame that the decoder answers with.
abbrev pub IsReceived :
    (x y : ℤ) (number lost sample_span_us : ℕ)
    → CompactSplitDecoder × (Errno ⊎ CompactSplitFrame)
    → Type 0
IsReceived x y number lost sample_span_us (decoder, inl e) = ⊥
IsReceived x y number lost sample_span_us (decoder, inr frame) =
    (frame.x_counts ≡ x)
    × (frame.y_counts ≡ y)
    × (frame.sequence ≡ number)
    × (frame.flags.sequence_gap ≡ not (lost == 0))
    × (frame.sample_span_us ≡ (encode_span sample_span_us).0 * 2000)
    × HasSeen number decoder

-- The packet is sent, and the decoder receives it.
abbrev pub IsTransported :
    CompactSplitDecoder
    → (x y : ℤ) (number lost sample_span_us : ℕ) → CompactSplitEncoder × (Errno ⊎ ℕ)
    → Type 0
IsTransported decoder x y number lost sample_span_us (encoder, inl e) = ⊥
IsTransported decoder x y number lost sample_span_us (encoder, inr packet) =
    IsReceived x y number lost sample_span_us (compact_split_decode decoder packet)

decode-pack :
    (decoder : CompactSplitDecoder) (x y : ℤ) (last lost sample_span_us : ℕ)
    → HasSeen last decoder
    → lost < 15
    → in_axis_range x ≡ true
    → in_axis_range y ≡ true
    → IsReceived x y ((last + 1 + lost) % 2 ^ 16) lost sample_span_us (
        compact_split_decode decoder
          (pack (encode_span sample_span_us).0 ((last + 1 + lost) % 16) x y))
unfolding compact_split_decode
decode-pack decoder x y last lost sample_span_us h l x_range y_range =
    let (format, span, sequence, y_field, x_field, size) =
      pack-fields (encode_span sample_span_us).0 ((last + 1 + lost) % 16) x y
        (encode_span-lt sample_span_us) (omega arith) x_range y_range in
    rw (compact_split_decode, format, sequence, span, y_field, x_field)
      (ground (arith, expand-lost decoder last lost h l))

-- Counts in range are transported exactly, over up to 14 lost packets: a decoder whose last frame had
-- the encoder's number `last` receives the counts, the encoder's number, the span's code, and a gap
-- flag exactly if packets were lost.
pub codec-transports :
    (encoder : CompactSplitEncoder) (decoder : CompactSplitDecoder) (x y : ℤ)
    (last lost sample_span_us : ℕ)
    → HasSeen last decoder
    → lost < 15
    → encoder.next_sequence ≡ (last + 1 + lost) % 2 ^ 16
    → in_axis_range x ≡ true
    → in_axis_range y ≡ true
    → IsTransported decoder x y encoder.next_sequence lost sample_span_us
        (compact_split_encode encoder x y sample_span_us)
unfolding compact_split_encode
codec-transports encoder decoder x y last lost sample_span_us h l n x_range y_range =
    ground (arith, decode-pack decoder x y last lost sample_span_us h l x_range y_range)
