-- ===== src/Stage/CursorAcceleration/Speed.antt =====
-- The speed estimate of src/stage/cursor_acceleration/cursor_acceleration.c.
use zmk_pointing_tools.Base.{
  ℕ, zero, suc, ◌+◌, ◌-◌, ◌*◌, ◌/◌, ◌^◌, ◌==◌, not, if◌then◌else◌, ltb, leb, Option, none, some,
  sub_u32,
}
use zmk_pointing_tools.Base.Int.{ℤ, pos, ◌+ℤ◌, ◌-ℤ◌, ◌*ℤ◌, tdiv, ltb_ℤ}
use zmk_pointing_tools.Core.Fixed.{fixed_one}
use zmk_pointing_tools.Core.Signal.{Metadata}
use zmk_pointing_tools.Stage.CursorAcceleration.IntegerSqrt.{euclidean_magnitude}
use zmk_pointing_tools.Stage.CursorAcceleration.Curve.{AccelerationConfig}

-- struct zpt_cursor_acceleration_state; `last_frame_ms` joins have_last_frame.
pub record AccelerationState : Type 0 where
  pub speed : ℤ
  pub last_frame_ms : Option ℕ  -- uint32_t

-- ZPT_ACCELERATION_SPEED_LIMIT, ZPT_CURSOR_ACCELERATION_RESTART_MS, ZPT_ACCELERATION_RESTART_US,
-- ZPT_ACCELERATION_MIN_INTERVAL_US and DECAY_ONE
abbrev pub speed_limit : ℕ
speed_limit = (2 ^ 16 - 1) * fixed_one

abbrev pub restart_ms : ℕ
restart_ms = 40

abbrev pub restart_us : ℕ
restart_us = 40000

abbrev pub min_interval_us : ℕ
min_interval_us = 1000

abbrev pub decay_one : ℕ
decay_one = 2 ^ 24

-- series = DECAY_ONE - ((y * series) >> DECAY_FRACTION_BITS) / n
abbrev pub taylor_term : (y series n : ℕ) → ℕ
taylor_term y series n = decay_one - y * series / decay_one / n

unfoldable pub decay_series : ℕ → ℕ
decay_series y = taylor_term y (taylor_term y (taylor_term y (decay_one - y / 4) 3) 2) 1

-- The loop that squares back up.
unfoldable pub square_times : ℕ → ℕ → ℕ
square_times zero series = series
square_times (suc n) series = square_times n (series * series / decay_one)

-- Each difference is of numbers up to DECAY_ONE: none wraps.
unfoldable pub decay : (elapsed_us time_constant_ms : ℕ) → ℕ
unfolding decay_series square_times
decay elapsed_us time_constant_ms =
    let y = elapsed_us * 2 ^ 20 / (time_constant_ms * 1000) in
    if leb (decay_one / 2) y then 0 else (square_times 4 (decay_series y) + 2 ^ 7) / 2 ^ 8

-- The interval before its limits, of a frame whose span is not clipped.
unfoldable pub raw_interval_us : Option ℕ → Metadata → ℕ
raw_interval_us last_frame_ms frame =
    if not (frame.sample_span_us == 0) then frame.sample_span_us else elim last_frame_ms [
      | none ↦ restart_us
      | some last ↦
          if ltb (sub_u32 frame.observed_at_ms last) restart_ms
          then sub_u32 frame.observed_at_ms last * 1000
          else restart_us
    ]

unfoldable pub frame_interval_us : AccelerationState → Metadata → ℕ
unfolding raw_interval_us
frame_interval_us state frame =
    if frame.flags.sample_span_clipped
    then restart_us
    else (let interval_us = raw_interval_us state.last_frame_ms frame in
        if ltb interval_us min_interval_us
        then min_interval_us
        else if ltb restart_us interval_us
        then restart_us
        else interval_us)

unfoldable pub instant_speed : ℤ → ℤ → ℕ → ℕ
instant_speed x y interval_us =
    let instant = euclidean_magnitude x y * 1000000 / interval_us in
    if ltb speed_limit instant then speed_limit else instant

-- The estimate follows the frame's speed.
unfoldable pub follow : AccelerationConfig → ℤ → ℕ → ℕ → ℤ
unfolding decay
follow config speed instant interval_us =
    let difference = pos instant -ℤ speed in
    let time_constant =
      if ltb_ℤ (pos 0) difference then config.speed_rise_ms else config.speed_fall_ms in
    let weight = pos fixed_one -ℤ pos (decay interval_us time_constant) in
    speed +ℤ tdiv (difference *ℤ weight) fixed_one

unfoldable pub observe :
    AccelerationState → AccelerationConfig → (x y : ℤ) → Metadata → AccelerationState
unfolding frame_interval_us instant_speed follow
observe state config x y frame =
    let interval_us = frame_interval_us state frame in
    let instant = instant_speed x y interval_us in
    record {
      speed =
          if leb restart_us interval_us
          then pos instant
          else follow config state.speed instant interval_us;
      last_frame_ms = some frame.observed_at_ms;
    }
