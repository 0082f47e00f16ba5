-- ===== src/Stage/CursorAcceleration/Curve.antt =====
-- The curve of src/stage/cursor_acceleration/cursor_acceleration.c: a monotone cubic through the control
-- points.
use zmk_pointing_tools.Base.{
  ℕ, zero, suc, ◌+◌, ◌-◌, ◌*◌, ◌==◌, Bool, false, not, ◌||◌, ◌&&◌, if◌then◌else◌, ltb, leb, Status,
  err, success, einval,
}
use zmk_pointing_tools.Base.Int.{ℤ, pos, negsuc, ◌+ℤ◌, ◌-ℤ◌, ◌*ℤ◌, tdiv, asr, ltb_ℤ, eqb_ℤ}
use zmk_pointing_tools.Core.Fixed.{fixed_one}

-- ZPT_CURSOR_ACCELERATION_POINTS and ZPT_CURSOR_ACCELERATION_MAX_PERCENT
abbrev pub points : ℕ
points = 8

abbrev pub max_percent : ℕ
max_percent = 1000

-- struct zpt_cursor_acceleration_config, all of it of uint16_t
pub record AccelerationConfig : Type 0 where
  pub curve_speed_mm_per_s : ℕ → ℕ
  pub curve_percent : ℕ → ℕ
  pub speed_rise_ms : ℕ
  pub speed_fall_ms : ℕ

-- One round of the loop of the validation.
abbrev pub point_invalid : AccelerationConfig → ℕ → Bool
point_invalid config i =
    config.curve_percent i == 0
    || ltb max_percent (config.curve_percent i)
    || (ltb 0 i && leb (config.curve_speed_mm_per_s i) (config.curve_speed_mm_per_s (i - 1)))

-- Whether one of the first `n` points is invalid.
unfoldable pub some_invalid : AccelerationConfig → ℕ → Bool
some_invalid config zero = false
some_invalid config (suc n) = some_invalid config n || point_invalid config n

unfoldable pub cursor_acceleration_validate : AccelerationConfig → Status
unfolding some_invalid
cursor_acceleration_validate config =
    if config.speed_rise_ms == 0 || config.speed_fall_ms == 0 || some_invalid config points
    then err einval
    else success

-- Q16 percent to a Q16 ratio, for a percentage that is not negative.
abbrev pub percent_to_ratio : ℤ → ℤ
percent_to_ratio percent_fixed = tdiv (percent_fixed +ℤ pos 50) 100

-- The `/` of C by any number but 0.
abbrev pub tdiv_ℤ : ℤ → ℤ → ℤ
tdiv_ℤ a (pos b) = tdiv a b
tdiv_ℤ a (negsuc b) = pos 0 -ℤ tdiv a (suc b)

-- The harmonic mean of two secants, cleared of fractions.
unfoldable pub harmonic_tangent : (left_span right_span left_rise right_rise : ℤ) → ℤ
harmonic_tangent left_span right_span left_rise right_rise =
    let w1 = pos 2 *ℤ right_span +ℤ left_span in
    let w2 = right_span +ℤ pos 2 *ℤ left_span in
    let numerator = (w1 +ℤ w2) *ℤ left_rise *ℤ right_rise *ℤ pos fixed_one in
    let denominator = w1 *ℤ left_span *ℤ right_rise +ℤ w2 *ℤ right_span *ℤ left_rise in
    tdiv_ℤ numerator denominator

abbrev pub difference : (ℕ → ℕ) → ℕ → ℕ → ℤ
difference values i j = pos (values i) -ℤ pos (values j)

unfoldable pub point_tangent : AccelerationConfig → ℕ → ℤ
unfolding harmonic_tangent
point_tangent config i =
    if i == 0 || leb points (i + 1)
    then pos 0
    else (let left_rise = difference config.curve_percent i (i - 1) in
        let right_rise = difference config.curve_percent (i + 1) i in
        if eqb_ℤ left_rise (pos 0)
          || eqb_ℤ right_rise (pos 0)
          || (ltb_ℤ left_rise (pos 0) && not (ltb_ℤ right_rise (pos 0)))
          || (not (ltb_ℤ left_rise (pos 0)) && ltb_ℤ right_rise (pos 0))
        then pos 0
        else harmonic_tangent (difference config.curve_speed_mm_per_s i (i - 1))
            (difference config.curve_speed_mm_per_s (i + 1) i) left_rise right_rise)

-- A control point's speed and percentage, as Q16.
abbrev pub speed_at : AccelerationConfig → ℕ → ℤ
speed_at config i = pos (config.curve_speed_mm_per_s i * fixed_one)

abbrev pub percent_at : AccelerationConfig → ℕ → ℤ
percent_at config i = pos (config.curve_percent i * fixed_one)

-- The loop that looks for the segment, with fuel.
unfoldable pub segment : AccelerationConfig → ℤ → ℕ → ℕ → ℕ
segment config speed zero i = i
segment config speed (suc fuel) i =
    let rest = segment config speed fuel (i + 1) in
    if ltb_ℤ speed (speed_at config (i + 1)) then i else rest

-- The cubic on the segment from point i, before the clamp.
unfoldable pub hermite : AccelerationConfig → ℤ → ℕ → ℤ
unfolding point_tangent
hermite config speed i =
    let span = difference config.curve_speed_mm_per_s (i + 1) i in
    let t = tdiv_ℤ (speed -ℤ speed_at config i) span in
    let t2 = asr (t *ℤ t) 16 in
    let t3 = asr (t2 *ℤ t) 16 in
    let start = percent_at config i in
    let end = percent_at config (i + 1) in
    let start_tangent = point_tangent config i *ℤ span in
    let end_tangent = point_tangent config (i + 1) *ℤ span in
    start
    +ℤ tdiv
        ((end -ℤ start) *ℤ (pos 3 *ℤ t2 -ℤ pos 2 *ℤ t3)
          +ℤ start_tangent *ℤ (t3 -ℤ pos 2 *ℤ t2 +ℤ t)
          +ℤ end_tangent *ℤ (t3 -ℤ t2))
        fixed_one

-- The clamp to the ends of the segment.
abbrev pub between_ends : ℤ → ℤ → ℤ → ℤ
between_ends start end value =
    let low = if ltb_ℤ start end then start else end in
    let high = if ltb_ℤ start end then end else start in
    if ltb_ℤ value low then low else if ltb_ℤ high value then high else value

-- The curve on the segment from point i.
unfoldable pub on_segment : AccelerationConfig → ℤ → ℕ → ℤ
on_segment config speed i =
    percent_to_ratio
      (between_ends (percent_at config i) (percent_at config (i + 1)) (hermite config speed i))

unfoldable pub sensitivity : AccelerationConfig → ℤ → ℤ
sensitivity config speed =
    if not (ltb_ℤ (speed_at config 0) speed)
    then percent_to_ratio (percent_at config 0)
    else if not (ltb_ℤ speed (speed_at config (points - 1)))
    then percent_to_ratio (percent_at config (points - 1))
    else on_segment config speed (segment config speed (points - 1) 0)
