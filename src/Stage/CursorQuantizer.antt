-- ===== src/Stage/CursorQuantizer.antt =====
-- src/stage/cursor_quantizer/cursor_quantizer.c: motion in millimetres becomes whole pointer counts, and
-- the fraction stays for the next frame.
pub mod Conserves
use zmk_pointing_tools.Base.{
  ap, refl, ◌≤◌, arith, err, success, true, einval, List, not, some, none, [], ℕ, ◌==◌,
  if◌then◌else◌, ◌-◌, ◌*◌, ◌/◌, ◌^◌, ◌<◌, ◌≡◌, ◌∙◌, ◌||◌, ◌∷◌,
}
use zmk_pointing_tools.Base.Int.{
  int_laws, int64_max, eq_of_parts, parts_disjoint, int64_min, *ℤ_pos_parts, ℤ, pos, clamp_ℤ,
  neg_part, pos_part, negsuc, ◌+ℤ◌, ◌-ℤ◌, ◌*ℤ◌,
}
use zmk_pointing_tools.Core.Fixed.{saturating_add, multiply, fixed_one, to_int32}
use zmk_pointing_tools.Core.Fixed.Add.{to_int32_remainder, saturating_add-eq-clamp}
use zmk_pointing_tools.Core.Pipeline.Types.{finish, ResetReason, Script, StageApi, emit}
use zmk_pointing_tools.Core.Signal.{
  only, payload_x, pointer, kind_eq, Signal, kind, pointer_delta, normalized_motion, Payload,
  payload_y,
}

-- struct zpt_cursor_quantizer_state
pub record CursorQuantizerState : Type 0 where
  pub remainder_x : ℤ
  pub remainder_y : ℤ

-- ZPT_CPI_TO_FIXED_PER_MILLIMETER
abbrev pub cpi_to_fixed_per_millimeter : ℕ → ℕ
cpi_to_fixed_per_millimeter cpi = cpi * fixed_one * 10 / 254

-- The counts of one axis, before the clamp, and its new remainder.
unfoldable pub quantize_axis : ℤ → ℕ → ℤ → ℤ × ℤ
quantize_axis value units_per_millimeter remainder =
    let units = saturating_add (multiply value (pos units_per_millimeter)) remainder in
    let integer = to_int32 units in (integer, units -ℤ integer *ℤ pos fixed_one)

-- The range of an int16_t.
abbrev pub clamp_int16 : ℤ → ℤ
clamp_int16 = clamp_ℤ (negsuc (2 ^ 15 - 1)) (pos (2 ^ 15 - 1))

unfoldable pub quantize : CursorQuantizerState → Signal → (x y : ℤ) → CursorQuantizerState × Payload
unfolding quantize_axis
quantize state signal x y =
    let units_per_millimeter = cpi_to_fixed_per_millimeter signal.metadata.resolution_cpi in
    let (integer_x, remainder_x) = quantize_axis x units_per_millimeter state.remainder_x in
    let (integer_y, remainder_y) = quantize_axis y units_per_millimeter state.remainder_y in
    (
      record { remainder_x = remainder_x; remainder_y = remainder_y },
      pointer (clamp_int16 integer_x) (clamp_int16 integer_y),
    )

unfoldable pub cursor_quantizer_stage_process :
    CursorQuantizerState → Signal → ℕ → Script CursorQuantizerState
unfolding quantize
cursor_quantizer_stage_process state signal now_ms =
    if not (kind_eq (kind signal) normalized_motion) || signal.metadata.resolution_cpi == 0
    then finish state (err einval)
    else (let (state', payload) =
          quantize state signal (payload_x signal.payload) (payload_y signal.payload) in
        emit (record signal { payload = payload }) (λ ret. finish state' ret))

unfoldable pub cursor_quantizer_stage_reset :
    CursorQuantizerState → ResetReason → CursorQuantizerState
cursor_quantizer_stage_reset state reason = record { remainder_x = pos 0; remainder_y = pos 0 }

unfoldable pub cursor_quantizer_stage_api : List ℕ → StageApi CursorQuantizerState
cursor_quantizer_stage_api strategy_id = record {
  strategy_id = strategy_id;
  accepted_kinds = only normalized_motion;
  output_kind = pointer_delta;
  stateful = true;
  process = cursor_quantizer_stage_process;
  flush = none;
  activate = some (λ state reason. (state, success));
  deactivate = none;
  reset = some cursor_quantizer_stage_reset;
}

-- A fraction of one count.
abbrev pub IsFraction : ℤ → Type 0
IsFraction a = (pos_part a < fixed_one) × (neg_part a < fixed_one)

abbrev pub IsSmall : ℤ → Type 0
IsSmall a = (pos_part a < 2 ^ 46) × (neg_part a < 2 ^ 46)

clamp_same : (c : ℤ) → pos_part c < 2 ^ 63 → neg_part c ≤ 2 ^ 63 → clamp_ℤ int64_min int64_max c ≡ c
clamp_same (pos n) h k = ground arith
clamp_same (negsuc n) h k = ground arith

pub small_sum : (a b : ℤ) → IsSmall a → IsFraction b → saturating_add a b ≡ a +ℤ b
small_sum a b h k =
    saturating_add-eq-clamp a b (omega arith, omega arith) (omega arith, omega arith)
    ∙ clamp_same (a +ℤ b) (omega (int_laws, parts_disjoint (a +ℤ b)))
        (omega (int_laws, parts_disjoint (a +ℤ b)))
