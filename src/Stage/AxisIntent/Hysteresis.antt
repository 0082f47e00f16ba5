-- ===== src/Stage/AxisIntent/Hysteresis.antt =====
-- When Stage/AxisIntent takes up an axis.
use zmk_pointing_tools.Base.{
  ap, ltb→ge, is_error, if_false, ◌∙◌, sym, if-elim, true≢false, ltb, false, success, ◌*◌, ◌^◌, ◌≤◌,
  ◌<◌, arith, refl, true, ◌≡◌, ℕ, Bool,
}
use zmk_pointing_tools.Core.Signal.{undecided, AxisIntent, horizontal, free, vertical}
use zmk_pointing_tools.Stage.AxisIntent.{
  update_adaptive_intent, add_energy, estimate_with, AxisIntentSettings, policy_adaptive, is_axis,
  axis_intent_validate, decide, axis_intent_estimate, AxisIntentState, adapt,
}
use zmk_pointing_tools.Base.Int.{to_uint64, ℤ}
use zmk_pointing_tools.Core.Fixed.{ratio_dominates, saturating_add_u64}
use zmk_pointing_tools.Core.Fixed.Ratio.{ratio_dominates_exact}

-- The energy along an axis, and the energy off it.
abbrev pub major : AxisIntent → AxisIntentState → ℕ
major vertical state = state.vertical_energy
major _ state = state.horizontal_energy

abbrev pub minor : AxisIntent → AxisIntentState → ℕ
minor vertical state = state.horizontal_energy
minor _ state = state.vertical_energy

adapt_horizontal :
    (old : AxisIntent) (kept_horizontal kept_vertical horizontal_engaged vertical_engaged : Bool)
    → ¬ (old ≡ horizontal)
    → adapt old kept_horizontal kept_vertical horizontal_engaged vertical_engaged ≡ horizontal
    → horizontal_engaged ≡ true
unfolding adapt
adapt_horizontal horizontal a b c d h k = absurd (h refl)
adapt_horizontal vertical a b c d h k = ground arith
adapt_horizontal undecided a b c d h k = ground arith
adapt_horizontal free a b c d h k = ground arith

adapt_vertical :
    (old : AxisIntent) (kept_horizontal kept_vertical horizontal_engaged vertical_engaged : Bool)
    → ¬ (old ≡ vertical)
    → adapt old kept_horizontal kept_vertical horizontal_engaged vertical_engaged ≡ vertical
    → vertical_engaged ≡ true
unfolding adapt
adapt_vertical vertical a b c d h k = absurd (h refl)
adapt_vertical horizontal a b c d h k = ground arith
adapt_vertical undecided a b c d h k = ground arith
adapt_vertical free a b c d h k = ground arith

decide_engages :
    (state : AxisIntentState) (settings : AxisIntentSettings) (axis : AxisIntent)
    → is_axis axis ≡ true
    → ¬ (state.intent ≡ axis)
    → (decide state settings).intent ≡ axis
    → (ltb
          (saturating_add_u64 state.horizontal_energy state.vertical_energy)
          (to_uint64 settings.activation_distance)
        ≡ false)
      × (ratio_dominates (major axis state) (minor axis state) settings.engage_ratio_percent ≡ true)
unfolding decide update_adaptive_intent
decide_engages state settings axis h k =
    if-elim
      (λ (s : AxisIntentState).
        s.intent ≡ axis
        → (ltb (saturating_add_u64 state.horizontal_energy state.vertical_energy)
              (to_uint64 settings.activation_distance)
            ≡ false)
          × (ratio_dominates (major axis state) (minor axis state) settings.engage_ratio_percent
              ≡ true))
      (ltb (saturating_add_u64 state.horizontal_energy state.vertical_energy)
        (to_uint64 settings.activation_distance))
      _ _ (λ e. λ same. absurd (k same)) (λ e. λ same. (e, engaged axis h k same))
  where
    engaged :
        (axis : AxisIntent)
        → is_axis axis ≡ true
        → ¬ (state.intent ≡ axis)
        → (update_adaptive_intent state settings
            (ratio_dominates state.horizontal_energy state.vertical_energy
              settings.engage_ratio_percent)
            (ratio_dominates state.vertical_energy state.horizontal_energy
              settings.engage_ratio_percent)).intent
          ≡ axis
        → ratio_dominates (major axis state) (minor axis state) settings.engage_ratio_percent ≡ true
    engaged horizontal h k same = adapt_horizontal state.intent _ _ _ _ k same
    engaged vertical h k same = adapt_vertical state.intent _ _ _ _ k same
    engaged undecided h k same = absurd (true≢false (sym h))
    engaged free h k same = absurd (true≢false (sym h))

-- The adaptive policy takes up an axis that it did not hold only when the energy along it is at least the
-- engage ratio, in percent, of the energy off it, and both together, saturated, are at least the activation
-- distance; while the energy off the axis times the ratio fits 64 bits. The energies are those after the frame.
pub axis_intent_estimate-engages :
    (state : AxisIntentState) (settings : AxisIntentSettings) (axis : AxisIntent) (x y : ℤ)
    (elapsed_ms : ℕ)
    → axis_intent_validate settings ≡ success
    → is_axis axis ≡ true
    → ¬ (state.intent ≡ axis)
    → (axis_intent_estimate state settings policy_adaptive x y elapsed_ms).1 ≡ axis
    → minor axis (add_energy state settings x y elapsed_ms) * settings.engage_ratio_percent < 2 ^ 64
    → let seen = add_energy state settings x y elapsed_ms in
      (minor axis seen * settings.engage_ratio_percent ≤ major axis seen * 100)
      × (to_uint64 settings.activation_distance
          ≤ saturating_add_u64 seen.horizontal_energy seen.vertical_energy)
unfolding axis_intent_estimate estimate_with add_energy
axis_intent_estimate-engages state settings axis x y elapsed_ms valid h k same fits =
    let seen = add_energy state settings x y elapsed_ms in
    let estimate : AxisIntentState × AxisIntent =
      (decide seen settings, (decide seen settings).intent) in
    let decided : (decide seen settings).intent ≡ axis =
      sym (
        ap (λ (r : AxisIntentState × AxisIntent). r.1)
          (if_false (state, free) estimate (ap is_error valid)))
      ∙ same in
    let (reached, dominates) = decide_engages seen settings axis h k decided in
    ((ratio_dominates_exact _ _ _ fits).0 dominates, omega (arith, ltb→ge _ _ reached))
