-- ===== src/Stage/AxisIntent.antt =====
-- src/stage/axis_intent/axis_intent.c: which axis a motion is meant along, by decaying energies.
pub mod Bounds
pub mod Hysteresis
use zmk_pointing_tools.Base.{
  ltb, Status, Bool, false, err, true, is_error, success, ℕ, einval, leb, not, ◌==◌, if◌then◌else◌,
  ◌-◌, ◌*◌, ◌/◌, ◌%◌, ◌^◌, ◌||◌,
}
use zmk_pointing_tools.Base.Int.{ltb_ℤ, pos, ℤ, to_uint64}
use zmk_pointing_tools.Core.Fixed.{saturating_add_u64, uint64_max, magnitude, ratio_dominates}
use zmk_pointing_tools.Core.Signal.{vertical, undecided, horizontal, AxisIntent, free}
use zmk_pointing_tools.Stage.Effect.{intent_eq}

-- enum zpt_axis_policy
pub data AxisPolicy : Type 0 where
  policy_free policy_adaptive policy_horizontal policy_vertical : AxisPolicy

-- struct zpt_axis_intent_settings
pub record AxisIntentSettings : Type 0 where
  pub engage_ratio_percent : ℕ  -- uint16_t
  pub release_ratio_percent : ℕ  -- uint16_t
  pub activation_distance : ℤ
  pub window_ms : ℕ  -- uint16_t

-- struct zpt_axis_intent_state
pub record AxisIntentState : Type 0 where
  pub horizontal_energy : ℕ  -- uint64_t
  pub vertical_energy : ℕ  -- uint64_t
  pub intent : AxisIntent

unfoldable pub decay : ℕ → ℕ → ℕ → ℕ
decay value elapsed_ms window_ms =
    if leb window_ms elapsed_ms || window_ms == 0
    then 0
    else if ltb (uint64_max / (window_ms - elapsed_ms)) value
    then uint64_max
    else value * (window_ms - elapsed_ms) / window_ms

unfoldable pub axis_intent_validate : AxisIntentSettings → Status
axis_intent_validate settings =
    if settings.engage_ratio_percent == 0
      || settings.release_ratio_percent == 0
      || not (ltb_ℤ (pos 0) settings.activation_distance)
      || settings.window_ms == 0
    then err einval
    else success

abbrev pub axis_intent_reset : AxisIntentState
axis_intent_reset = record { horizontal_energy = 0; vertical_energy = 0; intent = undecided }

-- The intent after the hysteresis of update_adaptive_intent.
unfoldable pub adapt :
    AxisIntent
    → (released_horizontal released_vertical horizontal_engaged vertical_engaged : Bool)
    → AxisIntent
adapt horizontal kept_horizontal kept_vertical horizontal_engaged vertical_engaged =
    if kept_horizontal then horizontal else if vertical_engaged then vertical else free
adapt vertical kept_horizontal kept_vertical horizontal_engaged vertical_engaged =
    if kept_vertical then vertical else if horizontal_engaged then horizontal else free
adapt undecided kept_horizontal kept_vertical horizontal_engaged vertical_engaged =
    if horizontal_engaged then horizontal else if vertical_engaged then vertical else free
adapt free kept_horizontal kept_vertical horizontal_engaged vertical_engaged =
    if horizontal_engaged then horizontal else if vertical_engaged then vertical else free

unfoldable pub update_adaptive_intent :
    AxisIntentState → AxisIntentSettings → Bool → Bool → AxisIntentState
unfolding adapt
update_adaptive_intent state settings horizontal_engaged vertical_engaged = record state {
  intent =
      adapt state.intent
        (ratio_dominates state.horizontal_energy state.vertical_energy
          settings.release_ratio_percent)
        (ratio_dominates state.vertical_energy state.horizontal_energy
          settings.release_ratio_percent)
        horizontal_engaged vertical_engaged;
}

-- The energies once a frame has been added.
unfoldable pub add_energy : AxisIntentState → AxisIntentSettings → ℤ → ℤ → ℕ → AxisIntentState
unfolding decay
add_energy state settings x y elapsed_ms = record state {
  horizontal_energy =
      saturating_add_u64 (decay state.horizontal_energy elapsed_ms settings.window_ms)
        (magnitude x);
  vertical_energy =
      saturating_add_u64 (decay state.vertical_energy elapsed_ms settings.window_ms) (magnitude y);
}

-- The adaptive policy, on the energies of the frame.
unfoldable pub decide : AxisIntentState → AxisIntentSettings → AxisIntentState
unfolding update_adaptive_intent
decide state settings =
    if ltb (saturating_add_u64 state.horizontal_energy state.vertical_energy)
      (to_uint64 settings.activation_distance)
    then state
    else update_adaptive_intent state settings
        (ratio_dominates state.horizontal_energy state.vertical_energy
          settings.engage_ratio_percent)
        (ratio_dominates state.vertical_energy state.horizontal_energy
          settings.engage_ratio_percent)

unfoldable pub estimate_with :
    AxisPolicy → AxisIntentState → AxisIntentSettings → ℤ → ℤ → ℕ → AxisIntentState
unfolding add_energy decide
estimate_with policy_free state settings x y elapsed_ms = record state { intent = free }
estimate_with policy_horizontal state settings x y elapsed_ms = record state { intent = horizontal }
estimate_with policy_vertical state settings x y elapsed_ms = record state { intent = vertical }
estimate_with policy_adaptive state settings x y elapsed_ms =
    decide (add_energy state settings x y elapsed_ms) settings

unfoldable pub axis_intent_estimate :
    AxisIntentState → AxisIntentSettings → AxisPolicy → ℤ → ℤ → ℕ → AxisIntentState × AxisIntent
unfolding axis_intent_validate estimate_with
axis_intent_estimate state settings policy x y elapsed_ms =
    if is_error (axis_intent_validate settings)
    then (state, free)
    else (let state' = estimate_with policy state settings x y elapsed_ms in
        (state', state'.intent))

abbrev pub is_axis : AxisIntent → Bool
is_axis undecided = false
is_axis free = false
is_axis horizontal = true
is_axis vertical = true

unfoldable pub axis_intent_confidence : AxisIntentState → ℕ
axis_intent_confidence state =
    if not (is_axis state.intent)
    then 0
    else (let major =
          if intent_eq state.intent horizontal
          then state.horizontal_energy
          else state.vertical_energy in
        let total = saturating_add_u64 state.horizontal_energy state.vertical_energy in
        if total == 0
        then 0
        else if ltb (uint64_max / 100) major
        then 100
        else major * 100 / total % 2 ^ 16)
