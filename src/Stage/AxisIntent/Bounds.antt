-- ===== src/Stage/AxisIntent/Bounds.antt =====
-- The confidence of Stage/AxisIntent is a percentage, and its energies fade.
use native.Mathlib.Nat.{div-le_of_le-mul, mul-le-mul_left, mul-le-mul_right}
use zmk_pointing_tools.Base.{
  leb→gt, ltb→lt, ||-false, leb, sym, ◌-◌, ◌∙◌, ◌||◌, arith, not, if-elim, ltb, ◌==◌, if◌then◌else◌,
  ◌%◌, ◌^◌, ◌*◌, ◌/◌, ◌≤◌, ℕ,
}
use zmk_pointing_tools.Core.Fixed.{saturating_add_u64, uint64_max}
use zmk_pointing_tools.Stage.AxisIntent.{decay, is_axis, AxisIntentState, axis_intent_confidence}
use zmk_pointing_tools.Core.Signal.{horizontal}
use zmk_pointing_tools.Stage.Effect.{intent_eq}
use zmk_pointing_tools.Core.Fixed.Multiply.{ltb-div}

share_of : (major total : ℕ) → major ≤ total → major * 100 / total ≤ 100
share_of major total h = div-le_of_le-mul total (mul-le-mul_right 100 h)

confidence_of :
    (major total : ℕ)
    → major ≤ total
    → (if total == 0
        then 0
        else if ltb (uint64_max / 100) major
        then 100
        else major * 100 / total % 2 ^ 16)
      ≤ 100
confidence_of major total h = ground (arith, share_of major total h)

-- While both energies fit 64 bits, the confidence is at most 100 percent.
pub axis_intent_confidence-bound :
    (state : AxisIntentState)
    → state.horizontal_energy ≤ uint64_max
    → state.vertical_energy ≤ uint64_max
    → axis_intent_confidence state ≤ 100
unfolding axis_intent_confidence saturating_add_u64
axis_intent_confidence-bound state h k =
    let total = saturating_add_u64 state.horizontal_energy state.vertical_energy in
    if-elim (λ n. n ≤ 100) (not (is_axis state.intent)) _ _ (λ e. omega arith)
      (λ e. confidence_of _ total (
        if-elim (λ n. n ≤ total) (intent_eq state.intent horizontal) _ _ (λ e. ground arith)
          (λ e. ground arith)))

fade : (value part whole : ℕ) → part ≤ whole → value * part / whole ≤ value
fade value part whole h = div-le_of_le-mul whole (omega (arith, mul-le-mul_left value h))

left_over :
    (value elapsed_ms window_ms : ℕ)
    → value * window_ms ≤ uint64_max
    → value * (window_ms - elapsed_ms) ≤ uint64_max
left_over value elapsed_ms window_ms h =
    omega (arith, mul-le-mul_left value (less window_ms elapsed_ms))
  where
    less : (a b : ℕ) → a - b ≤ a
    less a b = omega arith

-- Where the energy times the window fits 64 bits, what is left of it after a pause is not more than it.
pub decay-fades :
    (value elapsed_ms window_ms : ℕ)
    → value * window_ms ≤ uint64_max
    → decay value elapsed_ms window_ms ≤ value
unfolding decay
decay-fades value elapsed_ms window_ms h =
    if-elim (λ n. n ≤ value) (leb window_ms elapsed_ms || window_ms == 0) _ _ (λ e. omega arith)
      (λ e.
        let left = window_ms - elapsed_ms in
        let within = leb→gt window_ms elapsed_ms (||-false _ _ e).0 in
        if-elim (λ n. n ≤ value) (ltb (uint64_max / left) value) _ _
          (λ o. absurd (
            omega (
              arith,
              ltb→lt _ _ (sym (ltb-div uint64_max value left (omega arith)) ∙ o),
              left_over value elapsed_ms window_ms h,
            )))
          (λ o. fade value left window_ms (omega arith)))
