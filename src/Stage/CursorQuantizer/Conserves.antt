-- ===== src/Stage/CursorQuantizer/Conserves.antt =====
-- Stage/CursorQuantizer loses no motion and makes none up, from frame to frame.
use zmk_pointing_tools.Base.{
  ap, refl, ◌≤◌, arith, List, [], ℕ, ◌==◌, ◌-◌, ◌^◌, ◌≡◌, ◌∙◌, ◌∷◌, ◌++◌, false, true, length,
  success, suc, ◌<◌,
}
use zmk_pointing_tools.Base.Int.{
  int_laws, eq_of_parts, parts_disjoint, *ℤ_pos_parts, ℤ, pos, negsuc, neg_part, pos_part, ◌+ℤ◌,
  ◌*ℤ◌, asr,
}
use zmk_pointing_tools.Core.Fixed.{saturating_add, multiply, fixed_one, to_int32}
use zmk_pointing_tools.Core.Fixed.Add.{to_int32_remainder, to_int32_parts}
use zmk_pointing_tools.Core.Fixed.Multiply.{multiply-eq-saturated, saturated_shift}
use zmk_pointing_tools.Core.Signal.{payload_x, payload_y, Signal, kind, kind_eq, normalized_motion}
use zmk_pointing_tools.Stage.CursorQuantizer.{
  CursorQuantizerState, cursor_quantizer_stage_process, cpi_to_fixed_per_millimeter, clamp_int16,
  quantize, quantize_axis, IsFraction, small_sum,
}
use zmk_pointing_tools.Stage.Effect.{effect, sent_x, sent_y, kept}

-- The motion of a frame in units of 2 ^ -16 counts: the product of two numbers with 16 bits of fraction,
-- rounded down to such a number.
abbrev pub exact_units : ℤ → Signal → ℤ
exact_units value signal =
    asr (value *ℤ pos (cpi_to_fixed_per_millimeter signal.metadata.resolution_cpi)) 16

abbrev pub units_x : Signal → ℤ
units_x signal = exact_units (payload_x signal.payload) signal

abbrev pub units_y : Signal → ℤ
units_y signal = exact_units (payload_y signal.payload) signal

-- At most 2 ^ 15 - 1 counts, so that no fraction of a count takes it past 16 bits.
abbrev pub IsReportable : ℤ → Type 0
IsReportable units = (pos_part units ≤ 2 ^ 31 - 2 ^ 16) × (neg_part units ≤ 2 ^ 31 - 2 ^ 16)

-- A frame that the stage takes, and that its 16-bit counts can report.
pub record IsFrame (signal : Signal) : Type 0 where
  pub normalized : kind_eq (kind signal) normalized_motion ≡ true
  pub resolved : (signal.metadata.resolution_cpi == 0) ≡ false
  pub reportable_x : IsReportable (units_x signal)
  pub reportable_y : IsReportable (units_y signal)

abbrev pub AllFrames : List Signal → Type 0
AllFrames [] = Unit
AllFrames (signal ∷ rest) = IsFrame signal × AllFrames rest

-- The motion of the frames, in all.
unfoldable pub total_x : List Signal → ℤ
total_x [] = pos 0
total_x (signal ∷ rest) = units_x signal +ℤ total_x rest

unfoldable pub total_y : List Signal → ℤ
total_y [] = pos 0
total_y (signal ∷ rest) = units_y signal +ℤ total_y rest

-- The stage's callback on one frame after the other: its last state, and what it sends.
unfoldable pub quantize_frames :
    CursorQuantizerState → List Signal → CursorQuantizerState × List Signal
quantize_frames state [] = (state, [])
quantize_frames state (signal ∷ rest) =
    let after =
      effect (cursor_quantizer_stage_process state signal signal.metadata.observed_at_ms) in
    let (last, sent) = quantize_frames after.state rest in (last, after.emitted ++ sent)

small_product :
    (product : ℤ)
    → pos_part (asr product 16) < 2 ^ 46
    → neg_part (asr product 16) < 2 ^ 46
    → saturated_shift product ≡ asr product 16
unfolding asr
small_product (pos n) h k = ground arith
small_product (negsuc n) h k = ground arith

-- One axis of one frame.
record IsQuantized (units remainder integer remainder' : ℤ) : Type 0 where
  conserved : integer *ℤ pos fixed_one +ℤ remainder' ≡ units +ℤ remainder
  fraction : IsFraction remainder'
  reported : clamp_int16 integer ≡ integer

clamp_reported : (a : ℤ) → pos_part a < 2 ^ 15 → neg_part a < 2 ^ 15 → clamp_int16 a ≡ a
clamp_reported (pos n) h k = ground arith
clamp_reported (negsuc n) h k = ground arith

axis-IsQuantized :
    (value remainder : ℤ) (factor : ℕ)
    → IsReportable (asr (value *ℤ pos factor) 16)
    → IsFraction remainder
    → let (integer, remainder') = quantize_axis value factor remainder in
      IsQuantized (asr (value *ℤ pos factor) 16) remainder integer remainder'
unfolding quantize_axis
axis-IsQuantized value remainder factor h k =
    let units = asr (value *ℤ pos factor) 16 in
    let exact : multiply value (pos factor) ≡ units =
      multiply-eq-saturated value (pos factor)
      ∙ small_product (value *ℤ pos factor) (omega (arith, h)) (omega (arith, h)) in
    let sum : saturating_add (multiply value (pos factor)) remainder ≡ units +ℤ remainder =
      ap (λ a. saturating_add a remainder) exact
      ∙ small_sum units remainder (omega (arith, h), omega (arith, h)) k in
    let p : pos_part (units +ℤ remainder) < 2 ^ 31 =
      omega (int_laws, h, k, parts_disjoint (units +ℤ remainder)) in
    let n : neg_part (units +ℤ remainder) < 2 ^ 31 =
      omega (int_laws, h, k, parts_disjoint (units +ℤ remainder)) in
    let (p', n') = to_int32_parts (units +ℤ remainder) (omega (arith, p)) (omega (arith, n)) in
    rw sum (record {
      conserved =
          eq_of_parts _ _
            (omega (int_laws, *ℤ_pos_parts (to_int32 (units +ℤ remainder)) fixed_one));
      fraction = to_int32_remainder (units +ℤ remainder) (omega (arith, p)) (omega (arith, n));
      reported = clamp_reported _ (omega (arith, p, p')) (omega (arith, n, n'));
    })

process-effect :
    (state : CursorQuantizerState) (signal : Signal) (now_ms : ℕ)
    → IsFrame signal
    → let (state', payload) =
        quantize state signal (payload_x signal.payload) (payload_y signal.payload) in
      effect (cursor_quantizer_stage_process state signal now_ms) ≡ record {
        state = state';
        emitted = record signal { payload = payload } ∷ [];
        events = [];
        deadline = kept;
        status = success;
      }
unfolding cursor_quantizer_stage_process
process-effect state signal now_ms h = rw (h.normalized, h.resolved) refl

conserve_step :
    (units remainder integer remainder' total last later : ℤ)
    → integer *ℤ pos fixed_one +ℤ remainder' ≡ units +ℤ remainder
    → total *ℤ pos fixed_one +ℤ last ≡ later +ℤ remainder'
    → (integer +ℤ total) *ℤ pos fixed_one +ℤ last ≡ units +ℤ later +ℤ remainder
conserve_step units remainder integer remainder' total last later e e' = eq_of_parts _ _ (
    omega (
      int_laws,
      ap pos_part e,
      ap neg_part e,
      ap pos_part e',
      ap neg_part e',
      *ℤ_pos_parts (integer +ℤ total) fixed_one,
      *ℤ_pos_parts integer fixed_one,
      *ℤ_pos_parts total fixed_one,
    ))

-- What is sent and kept is the motion, and what was kept before; with a report for each frame.
pub record IsLossless (state : CursorQuantizerState) (frames : List Signal)
    (result : CursorQuantizerState × List Signal) : Type 0 where
  pub conserved_x :
      sent_x result.1 *ℤ pos fixed_one +ℤ result.0.remainder_x ≡ total_x frames +ℤ state.remainder_x
  pub conserved_y :
      sent_y result.1 *ℤ pos fixed_one +ℤ result.0.remainder_y ≡ total_y frames +ℤ state.remainder_y
  pub fraction_x : IsFraction result.0.remainder_x
  pub fraction_y : IsFraction result.0.remainder_y
  pub reports : length result.1 ≡ length frames

-- For frames of normalized motion with a resolution, each at most 2 ^ 15 - 1 counts long on an axis, and
-- remainders that are fractions of one count, the stage's callback sends one report for each frame and loses
-- no motion and makes none up: on each axis the counts sent in all, with the remainder at the end, are the
-- motion of the frames, each rounded down to 2 ^ -16 counts, with the remainder at the start. The remainders
-- stay fractions of one count.
pub quantize_frames-IsLossless :
    (frames : List Signal) (state : CursorQuantizerState)
    → AllFrames frames
    → IsFraction state.remainder_x
    → IsFraction state.remainder_y
    → IsLossless state frames (quantize_frames state frames)
unfolding quantize_frames sent_x sent_y total_x total_y quantize
quantize_frames-IsLossless [] state all hx hy = record {
  conserved_x = eq_of_parts _ _ (omega (int_laws, *ℤ_pos_parts (pos 0) fixed_one));
  conserved_y = eq_of_parts _ _ (omega (int_laws, *ℤ_pos_parts (pos 0) fixed_one));
  fraction_x = hx;
  fraction_y = hy;
  reports = refl;
}
quantize_frames-IsLossless (signal ∷ rest) state (frame, all) hx hy =
    let factor = cpi_to_fixed_per_millimeter signal.metadata.resolution_cpi in
    let x =
      axis-IsQuantized (payload_x signal.payload) state.remainder_x factor frame.reportable_x hx in
    let y =
      axis-IsQuantized (payload_y signal.payload) state.remainder_y factor frame.reportable_y hy in
    let state' = (quantize state signal (payload_x signal.payload) (payload_y signal.payload)).0 in
    let later = quantize_frames-IsLossless rest state' all x.fraction y.fraction in
    rw (process-effect state signal signal.metadata.observed_at_ms frame, x.reported, y.reported)
      (record {
        conserved_x = conserve_step _ _ _ _ _ _ _ x.conserved later.conserved_x;
        conserved_y = conserve_step _ _ _ _ _ _ _ y.conserved later.conserved_y;
        fraction_x = later.fraction_x;
        fraction_y = later.fraction_y;
        reports = ap suc later.reports;
      })
