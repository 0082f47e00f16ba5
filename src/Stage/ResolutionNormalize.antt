-- ===== src/Stage/ResolutionNormalize.antt =====
-- src/stage/resolution_normalize.c: counts become millimetres.
pub mod Rounded
use zmk_pointing_tools.Base.{
  not, List, none, einval, err, inl, erange, false, Errno, inr, ℕ, ◌==◌, if◌then◌else◌, ◌+◌, ◌*◌,
  ◌/◌, ◌⊎◌, ◌||◌,
}
use zmk_pointing_tools.Base.Int.{
  tmod, neg_of_ℕ, int64_min, ℤ, ltb_ℤ, pos, int64_max, tdiv, ◌+ℤ◌, ◌-ℤ◌, ◌*ℤ◌,
}
use zmk_pointing_tools.Core.Fixed.{fixed_one}
use zmk_pointing_tools.Core.Pipeline.Types.{emit, StageApi, finish, Script}
use zmk_pointing_tools.Core.Signal.{
  only, Signal, payload_y, normalized_motion, raw_motion, payload_x,
}
use zmk_pointing_tools.Stage.Effect.{with_vector}

-- `denominator` is positive.
unfoldable pub divide_round_nearest : ℤ → ℕ → ℤ
divide_round_nearest numerator denominator =
    let quotient = tdiv numerator denominator in
    let remainder = tmod numerator denominator in
    let threshold = (denominator + 1) / 2 in
    if not (ltb_ℤ remainder (pos threshold))
    then quotient +ℤ pos 1
    else if not (ltb_ℤ (neg_of_ℕ threshold) remainder)
    then quotient -ℤ pos 1
    else quotient

-- ZPT_TENTHS_OF_MILLIMETERS_PER_INCH * ZPT_FIXED_ONE
abbrev pub tenths_factor : ℕ
tenths_factor = 254 * fixed_one

unfoldable pub counts_to_millimeters : ℤ → ℕ → Errno ⊎ ℤ
unfolding divide_round_nearest
counts_to_millimeters counts resolution_cpi =
    if resolution_cpi == 0
    then inl einval
    else if ltb_ℤ (tdiv int64_max tenths_factor) counts
        || ltb_ℤ counts (tdiv int64_min tenths_factor)
    then inl erange
    else inr (divide_round_nearest (counts *ℤ pos tenths_factor) (resolution_cpi * 10))

unfoldable pub resolution_normalize_process : {S : Type 0} → S → Signal → ℕ → Script S
unfolding counts_to_millimeters
resolution_normalize_process state signal now_ms =
    elim (counts_to_millimeters (payload_x signal.payload) signal.metadata.resolution_cpi) [
      | inl e ↦ finish state (err e)
      | inr x ↦
          elim (counts_to_millimeters (payload_y signal.payload) signal.metadata.resolution_cpi) [
            | inl e ↦ finish state (err e)
            | inr y ↦ emit (with_vector signal x y) (λ ret. finish state ret)
          ]
    ]

unfoldable pub resolution_normalize_stage_api : {S : Type 0} → List ℕ → StageApi S
resolution_normalize_stage_api strategy_id = record {
  strategy_id = strategy_id;
  accepted_kinds = only raw_motion;
  output_kind = normalized_motion;
  stateful = false;
  process = resolution_normalize_process;
  flush = none;
  activate = none;
  deactivate = none;
  reset = none;
}
