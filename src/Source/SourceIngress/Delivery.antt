-- ===== src/Source/SourceIngress/Delivery.antt =====
-- A compact packet that reaches the ingress of a source becomes one signal with its counts.
use zmk_pointing_tools.Base.{
  inl, sym, subst, inr, ◌+◌, ◌%◌, ◌^◌, ◌<◌, ◌⊎◌, ap, Bool, ◌∙◌, none, ℕ, refl, Errno, true, Option,
  arith, some, ◌≡◌,
}
use zmk_pointing_tools.Base.Int.{◌+ℤ◌, ℤ, negsuc, pos, ◌-ℤ◌}
use zmk_pointing_tools.Core.Signal.{Flags, raw_counts, no_flags, Signal}
use zmk_pointing_tools.Source.CompactSplit.{
  compact_split_encode, CompactSplitEncoder, CompactSplitDecoder, compact_split_decode,
  in_axis_range, CompactSplitFrame,
}
use zmk_pointing_tools.Source.MotionSource.{
  MotionSource, frame_assembler_add, add_counts, frame_assembler_take, FrameAssembler, adopt_staged,
  take_at_sequence, axis_x, frame_assembler_reset, motion_source_add, axis_y,
}
use zmk_pointing_tools.Source.SourceIngress.{
  after_decode, source_ingress_handle, to_uint32, event_compact, take_compact_frame, with_frame,
  SourceIngressConfig, SourceIngress, take_decoded,
}
use zmk_pointing_tools.Source.CompactSplit.Sequence.{
  HasSeen, IsTransported, codec-transports, IsReceived,
}

-- What an event answers: a signal with the counts and the number, no error, and no counts pending.
abbrev pub IsDelivered :
    (x y : ℤ) (number : ℕ) → SourceIngress × Option Signal × Option Errno → Type 0
IsDelivered x y number (ingress, none, error) = ⊥
IsDelivered x y number (ingress, some signal, error) =
    (signal.payload ≡ raw_counts x y)
    × (signal.metadata.sequence ≡ number)
    × (signal.metadata.source_id ≡ ingress.source.source_id)
    × (error ≡ none)
    × (ingress.source.frame ≡ frame_assembler_reset)

add_counts-zero :
    (x : ℤ) (flags : Flags) → in_axis_range x ≡ true → add_counts (pos 0) x flags ≡ (x, flags)
unfolding add_counts ◌+ℤ◌ ◌-ℤ◌
add_counts-zero (pos n) flags h = ground arith
add_counts-zero (negsuc n) flags h = ground arith

abbrev whole_frame : ℤ → ℤ → FrameAssembler
whole_frame x y = record { x_counts = x; y_counts = y; flags = no_flags; saw_axis = true }

add-whole_frame :
    (x y : ℤ)
    → in_axis_range x ≡ true
    → in_axis_range y ≡ true
    → frame_assembler_add (frame_assembler_add frame_assembler_reset axis_x x) axis_y y
      ≡ whole_frame x y
unfolding frame_assembler_add
add-whole_frame x y h k = rw (add_counts-zero x no_flags h, add_counts-zero y no_flags k) refl

-- A source that has taken a frame whole.
abbrev IsTaken : MotionSource → (x y : ℤ) (number : ℕ) → Option (MotionSource × Signal) → Type 0
IsTaken state x y number none = ⊥
IsTaken state x y number (some (state', signal)) =
    (signal.payload ≡ raw_counts x y)
    × (signal.metadata.sequence ≡ number)
    × (signal.metadata.source_id ≡ state'.source_id)
    × (state'.frame ≡ frame_assembler_reset)

take-IsTaken :
    (state : MotionSource) (x y : ℤ) (observed_at_ms sample_span_us number : ℕ) (flags : Flags)
    → state.frame ≡ whole_frame x y
    → IsTaken state x y number (take_at_sequence state observed_at_ms sample_span_us number flags)
unfolding take_at_sequence frame_assembler_take adopt_staged
take-IsTaken state x y observed_at_ms sample_span_us number flags e = ground (arith, e)

with_frame-IsDelivered :
    (ingress : SourceIngress) (x y : ℤ) (number : ℕ) (taken : Option (MotionSource × Signal))
    → IsTaken ingress.source x y number taken
    → let (ingress', signal) = with_frame ingress taken in
      IsDelivered x y number (ingress', signal, none)
with_frame-IsDelivered ingress x y number none k = k
with_frame-IsDelivered ingress x y number (some (state, signal)) (p, n, i, f) = (p, n, i, refl, f)

added :
    (source : MotionSource) (x y : ℤ)
    → source.frame ≡ frame_assembler_reset
    → in_axis_range x ≡ true
    → in_axis_range y ≡ true
    → (motion_source_add (motion_source_add source axis_x x) axis_y y).frame ≡ whole_frame x y
unfolding motion_source_add
added source x y e h k =
    ap (λ frame. frame_assembler_add (frame_assembler_add frame axis_x x) axis_y y) e
    ∙ add-whole_frame x y h k

take_decoded-IsDelivered :
    (ingress : SourceIngress) (config : SourceIngressConfig) (now_ms : ℕ)
    (frame : CompactSplitFrame)
    → ingress.source.frame ≡ frame_assembler_reset
    → in_axis_range frame.x_counts ≡ true
    → in_axis_range frame.y_counts ≡ true
    → let (ingress', signal) = take_decoded ingress config now_ms frame in
      IsDelivered frame.x_counts frame.y_counts frame.sequence (ingress', signal, none)
unfolding take_decoded
take_decoded-IsDelivered ingress config now_ms frame e h k =
    with_frame-IsDelivered _ frame.x_counts frame.y_counts frame.sequence _ (
      take-IsTaken _ frame.x_counts frame.y_counts now_ms frame.sample_span_us frame.sequence _
        (added ingress.source frame.x_counts frame.y_counts e h k))

relabel :
    (answer : SourceIngress × Option Signal × Option Errno) {x x' y y' : ℤ} {number number' : ℕ}
    → x ≡ x'
    → y ≡ y'
    → number ≡ number'
    → IsDelivered x y number answer
    → IsDelivered x' y' number' answer
relabel (ingress, none, error) ex ey en d = d
relabel (ingress, some signal, error) ex ey en (p, n, i, f, g) = (cc, n ∙ en, i, f, g)

after_decode-IsDelivered :
    (ingress : SourceIngress) (config : SourceIngressConfig) (now_ms : ℕ) (x y : ℤ)
    (number lost sample_span_us : ℕ) (answer : CompactSplitDecoder × (Errno ⊎ CompactSplitFrame))
    → ingress.source.frame ≡ frame_assembler_reset
    → in_axis_range x ≡ true
    → in_axis_range y ≡ true
    → IsReceived x y number lost sample_span_us answer
    → IsDelivered x y number (after_decode ingress config now_ms answer)
unfolding after_decode
after_decode-IsDelivered ingress config now_ms x y number lost sample_span_us (decoder, inl error) e
      h k received =
    received
after_decode-IsDelivered ingress config now_ms x y number lost sample_span_us (decoder, inr frame) e
      h k (ex, ey, en, gap, span, seen) =
    let (ingress', signal) =
      take_decoded (record ingress { compact_decoder = decoder }) config now_ms frame in
    relabel (ingress', signal, none) ex ey en
      (take_decoded-IsDelivered (record ingress { compact_decoder = decoder }) config now_ms frame e
        (ap in_axis_range ex ∙ h) (ap in_axis_range ey ∙ k))

packet-IsReceived :
    (decoder : CompactSplitDecoder) (x y : ℤ) (number lost sample_span_us packet : ℕ)
    (sent : CompactSplitEncoder × (Errno ⊎ ℕ))
    → sent.1 ≡ inr packet
    → IsTransported decoder x y number lost sample_span_us sent
    → IsReceived x y number lost sample_span_us (compact_split_decode decoder packet)
packet-IsReceived decoder x y number lost sample_span_us packet (encoder, inl error) e k = absurd k
packet-IsReceived decoder x y number lost sample_span_us packet (encoder, inr sent) e k =
    subst (λ p. IsReceived x y number lost sample_span_us (compact_split_decode decoder p))
      (ground arith) k

-- A packet of an encoder whose last frame seen here had the number `last`, with fewer than 15 lost
-- between them, becomes one signal with exactly the encoded counts and the encoder's number: the
-- codec reports no error, and no counts stay pending. The event's value is the packet, read as an
-- int32_t.
pub handle-delivers :
    (encoder : CompactSplitEncoder) (ingress : SourceIngress) (config : SourceIngressConfig)
    (x y value : ℤ) (last lost sample_span_us now_ms packet : ℕ) (sync : Bool)
    → ingress.source.frame ≡ frame_assembler_reset
    → HasSeen last ingress.compact_decoder
    → lost < 15
    → encoder.next_sequence ≡ (last + 1 + lost) % 2 ^ 16
    → in_axis_range x ≡ true
    → in_axis_range y ≡ true
    → (compact_split_encode encoder x y sample_span_us).1 ≡ inr packet
    → to_uint32 value ≡ packet
    → IsDelivered x y encoder.next_sequence
        (source_ingress_handle ingress config event_compact value sync now_ms)
unfolding source_ingress_handle take_compact_frame
handle-delivers encoder ingress config x y value last lost sample_span_us now_ms packet sync e seen
      l n h k sent v =
    after_decode-IsDelivered ingress config now_ms x y encoder.next_sequence lost sample_span_us _ e
      h k
      (subst
        (λ p.
          IsReceived x y encoder.next_sequence lost sample_span_us
            (compact_split_decode ingress.compact_decoder p))
        (sym v)
        (packet-IsReceived ingress.compact_decoder x y encoder.next_sequence lost sample_span_us
          packet (compact_split_encode encoder x y sample_span_us) sent
          (codec-transports encoder ingress.compact_decoder x y last lost sample_span_us seen l n h
            k)))
