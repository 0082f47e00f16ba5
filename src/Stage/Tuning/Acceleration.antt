-- ===== src/Stage/Tuning/Acceleration.antt =====
-- The tuning of the cursor acceleration, in src/stage/stage_tuning.c.
use zmk_pointing_tools.Base.{
  Option, success, err, List, [], none, einval, zero, Errno, some, suc, Status, leb, ◌==◌,
  if◌then◌else◌, ◌+◌, ◌-◌, ◌⊎◌, ◌∷◌, ℕ,
}
use zmk_pointing_tools.Base.Int.{ℤ}
use zmk_pointing_tools.Service.Tuning.{TuningParameter}
use zmk_pointing_tools.Stage.CursorAcceleration.Curve.{AccelerationConfig}
use zmk_pointing_tools.Stage.Tuning.{TuningOps}
use zmk_pointing_tools.Stage.Tuning.Fields.{
  Field, integer_parameter, field_put, uint16_field, field_get,
}

abbrev pub acceleration_parameters : List TuningParameter
acceleration_parameters =
    integer_parameter 0 "curve-speed-1" "curve-speeds-mm-per-s" 0 10000 "Point 1 speed" "mm/s"
      "Ball speed of curve point 1. Point speeds must increase from point 1 to 8."
    ∷ integer_parameter 1 "curve-speed-2" "curve-speeds-mm-per-s" 0 10000 "Point 2 speed" "mm/s"
        "Ball speed of curve point 2. Point speeds must increase from point 1 to 8."
    ∷ integer_parameter 2 "curve-speed-3" "curve-speeds-mm-per-s" 0 10000 "Point 3 speed" "mm/s"
        "Ball speed of curve point 3. Point speeds must increase from point 1 to 8."
    ∷ integer_parameter 3 "curve-speed-4" "curve-speeds-mm-per-s" 0 10000 "Point 4 speed" "mm/s"
        "Ball speed of curve point 4. Point speeds must increase from point 1 to 8."
    ∷ integer_parameter 4 "curve-speed-5" "curve-speeds-mm-per-s" 0 10000 "Point 5 speed" "mm/s"
        "Ball speed of curve point 5. Point speeds must increase from point 1 to 8."
    ∷ integer_parameter 5 "curve-speed-6" "curve-speeds-mm-per-s" 0 10000 "Point 6 speed" "mm/s"
        "Ball speed of curve point 6. Point speeds must increase from point 1 to 8."
    ∷ integer_parameter 6 "curve-speed-7" "curve-speeds-mm-per-s" 0 10000 "Point 7 speed" "mm/s"
        "Ball speed of curve point 7. Point speeds must increase from point 1 to 8."
    ∷ integer_parameter 7 "curve-speed-8" "curve-speeds-mm-per-s" 0 10000 "Point 8 speed" "mm/s"
        "Ball speed of curve point 8. Point speeds must increase from point 1 to 8."
    ∷ integer_parameter 8 "curve-sensitivity-1" "curve-sensitivity-percent" 1 1000
        "Point 1 sensitivity" "%"
        "Cursor sensitivity at curve point 1, on top of the base gain. The curve runs smoothly between points and stays flat beyond the first and last."
    ∷ integer_parameter 9 "curve-sensitivity-2" "curve-sensitivity-percent" 1 1000
        "Point 2 sensitivity" "%"
        "Cursor sensitivity at curve point 2, on top of the base gain. The curve runs smoothly between points and stays flat beyond the first and last."
    ∷ integer_parameter 10 "curve-sensitivity-3" "curve-sensitivity-percent" 1 1000
        "Point 3 sensitivity" "%"
        "Cursor sensitivity at curve point 3, on top of the base gain. The curve runs smoothly between points and stays flat beyond the first and last."
    ∷ integer_parameter 11 "curve-sensitivity-4" "curve-sensitivity-percent" 1 1000
        "Point 4 sensitivity" "%"
        "Cursor sensitivity at curve point 4, on top of the base gain. The curve runs smoothly between points and stays flat beyond the first and last."
    ∷ integer_parameter 12 "curve-sensitivity-5" "curve-sensitivity-percent" 1 1000
        "Point 5 sensitivity" "%"
        "Cursor sensitivity at curve point 5, on top of the base gain. The curve runs smoothly between points and stays flat beyond the first and last."
    ∷ integer_parameter 13 "curve-sensitivity-6" "curve-sensitivity-percent" 1 1000
        "Point 6 sensitivity" "%"
        "Cursor sensitivity at curve point 6, on top of the base gain. The curve runs smoothly between points and stays flat beyond the first and last."
    ∷ integer_parameter 14 "curve-sensitivity-7" "curve-sensitivity-percent" 1 1000
        "Point 7 sensitivity" "%"
        "Cursor sensitivity at curve point 7, on top of the base gain. The curve runs smoothly between points and stays flat beyond the first and last."
    ∷ integer_parameter 15 "curve-sensitivity-8" "curve-sensitivity-percent" 1 1000
        "Point 8 sensitivity" "%"
        "Cursor sensitivity at curve point 8, on top of the base gain. The curve runs smoothly between points and stays flat beyond the first and last."
    ∷ integer_parameter 16 "speed-rise" "speed-rise-ms" 1 200 "Speed rise time" "ms"
        "How quickly the speed estimate follows the ball speeding up. Shorter makes flicks accelerate sooner; longer smooths out jitter."
    ∷ integer_parameter 17 "speed-fall" "speed-fall-ms" 1 200 "Speed fall time" "ms"
        "How quickly the speed estimate follows the ball slowing down. Shorter stops the cursor overshooting when you stop to aim."
    ∷ []

-- An array with one element replaced.
abbrev pub put_at : (ℕ → ℕ) → ℕ → ℕ → ℕ → ℕ
put_at values i x j = if j == i then x else values j

abbrev pub speed_field : ℕ → Field AccelerationConfig
speed_field i =
    uint16_field (λ c. c.curve_speed_mm_per_s i)
      (λ c x. record c { curve_speed_mm_per_s = put_at c.curve_speed_mm_per_s i x })

abbrev pub percent_field : ℕ → Field AccelerationConfig
percent_field i =
    uint16_field (λ c. c.curve_percent i)
      (λ c x. record c { curve_percent = put_at c.curve_percent i x })

abbrev pub acceleration_fields : List (Field AccelerationConfig)
acceleration_fields =
    speed_field 0
    ∷ speed_field 1
    ∷ speed_field 2
    ∷ speed_field 3
    ∷ speed_field 4
    ∷ speed_field 5
    ∷ speed_field 6
    ∷ speed_field 7
    ∷ percent_field 0
    ∷ percent_field 1
    ∷ percent_field 2
    ∷ percent_field 3
    ∷ percent_field 4
    ∷ percent_field 5
    ∷ percent_field 6
    ∷ percent_field 7
    ∷ uint16_field (λ c. c.speed_rise_ms) (λ c x. record c { speed_rise_ms = x })
    ∷ uint16_field (λ c. c.speed_fall_ms) (λ c x. record c { speed_fall_ms = x })
    ∷ []

unfoldable pub acceleration_get : AccelerationConfig → ℕ → Errno ⊎ ℤ
acceleration_get = field_get acceleration_fields

unfoldable pub acceleration_put : AccelerationConfig → ℕ → ℤ → Errno ⊎ AccelerationConfig
acceleration_put = field_put acceleration_fields

-- The first of the points from `point` on, `left` of them, whose speed does not increase.
unfoldable pub first_stalled : AccelerationConfig → (left point : ℕ) → Option ℕ
first_stalled config zero point = none
first_stalled config (suc left) point =
    let later = first_stalled config left (point + 1) in
    if leb (config.curve_speed_mm_per_s point) (config.curve_speed_mm_per_s (point - 1))
    then some point
    else later

unfoldable pub acceleration_validate : AccelerationConfig → Status × Option ℕ
unfolding first_stalled
acceleration_validate config = elim (first_stalled config 7 1) [
  | none ↦ (success, none)
  | some point ↦ (err einval, some point)
]

unfoldable pub cursor_acceleration_tuning_ops : (config_size : ℕ) → TuningOps AccelerationConfig
unfolding acceleration_get acceleration_put
cursor_acceleration_tuning_ops config_size = record {
  parameters = acceleration_parameters;
  config_size = config_size;
  get = acceleration_get;
  put = acceleration_put;
  validate = some acceleration_validate;
}
