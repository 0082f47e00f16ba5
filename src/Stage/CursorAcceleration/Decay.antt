-- ===== src/Stage/CursorAcceleration/Decay.antt =====
-- The decay of Stage/CursorAcceleration/Speed is a part of one, and less than all of it for the time constants
-- up to ZPT_CURSOR_ACCELERATION_MAX_TIME_CONSTANT_MS.
use native.Mathlib.Nat.{le-div_iff_mul-le, mul-le-mul_left, mul-le-mul, div-le_self}
use mathlib.Core.Logic.{◌↔◌}
use zmk_pointing_tools.Base.{◌≡◌, ℕ, zero, suc, ◌≤◌, ◌<◌, ◌*◌, ◌+◌, ◌/◌, ◌-◌, ◌^◌, arith}
use zmk_pointing_tools.Core.Fixed.{fixed_one}
use zmk_pointing_tools.Stage.CursorAcceleration.Speed.{
  decay, decay_series, square_times, decay_one, taylor_term, min_interval_us,
}

-- ZPT_CURSOR_ACCELERATION_MAX_TIME_CONSTANT_MS
abbrev pub max_time_constant_ms : ℕ
max_time_constant_ms = 200

mono_square : (s : ℕ) → s ≤ decay_one → s * s / decay_one ≤ s
mono_square s h = grind arith

square_times_bound : (n series : ℕ) → series ≤ decay_one → square_times n series ≤ series
unfolding square_times
square_times_bound zero series h = omega arith
square_times_bound (suc n) series h =
    omega (arith, square_times_bound n (series * series / decay_one), mono_square series h)

share_le : (y s : ℕ) → s ≤ decay_one → y * s / decay_one ≤ y
share_le y s h = grind arith

share_half : (y s : ℕ) → 2 ^ 23 ≤ s → y / 2 ≤ y * s / decay_one
share_half y s h = let half : y * 2 ^ 23 ≤ y * s = mul-le-mul_left y h in omega (arith, half)

term_le : (y s n : ℕ) → taylor_term y s n ≤ decay_one
term_le y s n = omega arith

term_half : (y s n : ℕ) → y ≤ 2 ^ 23 → s ≤ decay_one → 2 ^ 23 ≤ taylor_term y s n
term_half y s n small h = omega (arith, share_le y s h, div-le_self (y * s / decay_one) n)

-- Of an exponent from 2 to half of one, the series is less than one by at least half of it.
decay_series-lt : (y : ℕ) → y ≤ 2 ^ 23 → decay_series y + y / 2 ≤ decay_one
unfolding decay_series
decay_series-lt y small =
    let s1 = decay_one - y / 4 in
    let s2 = taylor_term y s1 3 in
    let s3 = taylor_term y s2 2 in
    let large : 2 ^ 23 ≤ s3 = term_half y s2 2 small (term_le y s1 3) in
    omega (arith, share_half y s3 large, share_le y s3 (term_le y s2 2))

decay_series-le : (y : ℕ) → decay_series y ≤ decay_one
unfolding decay_series
decay_series-le y = omega arith

pub decay_bound : (elapsed_us time_constant_ms : ℕ) → decay elapsed_us time_constant_ms ≤ fixed_one
unfolding decay
decay_bound elapsed_us time_constant_ms =
    let y = elapsed_us * 2 ^ 20 / (time_constant_ms * 1000) in
    ground (arith, square_times_bound 4 (decay_series y) (decay_series-le y), decay_series-le y)

exponent_large :
    (elapsed_us time_constant_ms : ℕ)
    → min_interval_us ≤ elapsed_us
    → 0 < time_constant_ms
    → time_constant_ms ≤ max_time_constant_ms
    → 5242 ≤ elapsed_us * 2 ^ 20 / (time_constant_ms * 1000)
exponent_large elapsed_us time_constant_ms long positive small =
    (le-div_iff_mul-le {k = time_constant_ms * 1000} (omega arith)).1 (omega arith)

pub decay-lt :
    (elapsed_us time_constant_ms : ℕ)
    → min_interval_us ≤ elapsed_us
    → 0 < time_constant_ms
    → time_constant_ms ≤ max_time_constant_ms
    → decay elapsed_us time_constant_ms < fixed_one
unfolding decay
decay-lt elapsed_us time_constant_ms long positive small =
    let y = elapsed_us * 2 ^ 20 / (time_constant_ms * 1000) in
    ground (
      arith,
      exponent_large elapsed_us time_constant_ms long positive small,
      decay_series-lt y,
      square_times_bound 4 (decay_series y) (decay_series-le y),
    )

square_low : (s low : ℕ) → low ≤ s → low * low / decay_one ≤ s * s / decay_one
square_low s low h = let squares : low * low ≤ s * s = mul-le-mul h h in omega (arith, squares)

square_times-positive : (series : ℕ) → 2 ^ 23 ≤ series → 2 ^ 8 ≤ square_times 4 series
unfolding square_times
square_times-positive series h =
    let s1 = series * series / decay_one in
    let s2 = s1 * s1 / decay_one in
    let s3 = s2 * s2 / decay_one in
    let h1 : 2 ^ 22 ≤ s1 = omega (arith, square_low series (2 ^ 23) h) in
    let h2 : 2 ^ 20 ≤ s2 = omega (arith, square_low s1 (2 ^ 22) h1) in
    let h3 : 2 ^ 16 ≤ s3 = omega (arith, square_low s2 (2 ^ 20) h2) in
    omega (arith, square_low s3 (2 ^ 16) h3)

decay_series-half : (y : ℕ) → y ≤ 2 ^ 23 → 2 ^ 23 ≤ decay_series y
unfolding decay_series
decay_series-half y small =
    term_half y (taylor_term y (taylor_term y (decay_one - y / 4) 3) 2) 1 small
      (term_le y (taylor_term y (decay_one - y / 4) 3) 2)

-- The exponent is past its limit from eight time constants on.
exponent_limit :
    (elapsed_us time_constant_ms : ℕ)
    → 0 < time_constant_ms
    → (2 ^ 23 ≤ elapsed_us * 2 ^ 20 / (time_constant_ms * 1000))
      ↔ (8000 * time_constant_ms ≤ elapsed_us)
exponent_limit elapsed_us time_constant_ms positive =
    let limit =
      le-div_iff_mul-le {k = time_constant_ms * 1000} {x = 2 ^ 23} {y = elapsed_us * 2 ^ 20}
        (omega arith) in
    (λ h. omega (arith, limit.0 h), λ h. limit.1 (omega (arith, h)))

pub decay-zero_iff :
    (elapsed_us time_constant_ms : ℕ)
    → 0 < time_constant_ms
    → (decay elapsed_us time_constant_ms ≡ 0) ↔ (8000 * time_constant_ms ≤ elapsed_us)
unfolding decay
decay-zero_iff elapsed_us time_constant_ms positive =
    let y = elapsed_us * 2 ^ 20 / (time_constant_ms * 1000) in
    let limit = exponent_limit elapsed_us time_constant_ms positive in
    (
      λ e. limit.0 (ground (arith, e, decay_series-half y, square_times-positive (decay_series y))),
      λ h. ground (arith, limit.1 h),
    )
