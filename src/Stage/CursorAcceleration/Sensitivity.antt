-- ===== src/Stage/CursorAcceleration/Sensitivity.antt =====
-- The sensitivity of Stage/CursorAcceleration/Curve is bounded, so that scale never divides by 0.
use zmk_pointing_tools.Base.{
  ||-false, einval, err, if◌then◌else◌, ltb→ge, ==→≢, ◌-◌, Bool, ltb→lt, success, ap, true, ◌||◌,
  inl, subst, suc, ==_iff, false, sym, Bool-cases, arith, zero, inr, ◌==◌, ◌+◌, ◌*◌, ◌<◌, ◌≡◌, ℕ,
  ◌≤◌,
}
use zmk_pointing_tools.Base.Int.{
  parts_disjoint, tdiv_parts, int_laws, ◌+ℤ◌, pos, ℤ, ltb_ℤ, ◌≤ℤ◌, ◌<ℤ◌,
}
use zmk_pointing_tools.Core.Fixed.{fixed_one}
use zmk_pointing_tools.Stage.CursorAcceleration.Curve.{
  on_segment, points, hermite, cursor_acceleration_validate, sensitivity, percent_at, max_percent,
  between_ends, AccelerationConfig, speed_at, percent_to_ratio, segment, point_invalid,
  some_invalid,
}

-- What the validation promises of point i.
abbrev pub IsPoint : AccelerationConfig → ℕ → Type 0
IsPoint config i = (1 ≤ config.curve_percent i) × (config.curve_percent i ≤ max_percent)

valid-IsPoint :
    (config : AccelerationConfig) (i : ℕ) → point_invalid config i ≡ false → IsPoint config i
valid-IsPoint config i h = ground arith

valid_points :
    (config : AccelerationConfig) (n i : ℕ)
    → some_invalid config n ≡ false
    → i < n
    → IsPoint config i
unfolding some_invalid
valid_points config zero i h k = ground arith
valid_points config (suc n) i h k = elim (Bool-cases (i == n)) [
  | inl e ↦
      subst (IsPoint config) (sym ((==_iff i n).0 e))
        (valid-IsPoint config n (||-false (some_invalid config n) (point_invalid config n) h).1)
  | inr e ↦
      valid_points config n i (||-false (some_invalid config n) (point_invalid config n) h).0
        (omega (arith, ==→≢ _ _ e))
]

same_speed :
    (config : AccelerationConfig) (speed : ℤ) (i j : ℕ)
    → i ≡ j
    → speed_at config i ≤ℤ speed
    → ¬ (speed <ℤ speed_at config j)
same_speed config speed i j e h k = omega (arith, ap config.curve_speed_mm_per_s e)

-- The search ends at a segment of the curve that holds the speed.
segment_lem :
    (config : AccelerationConfig) (speed : ℤ) (fuel i : ℕ)
    → speed_at config i ≤ℤ speed
    → speed <ℤ speed_at config (i + fuel)
    → let found = segment config speed fuel i in
      (found < i + fuel) × (speed_at config found ≤ℤ speed) × (speed <ℤ speed_at config (found + 1))
unfolding segment
segment_lem config speed zero i h k = absurd (same_speed config speed i (i + 0) (omega arith) h k)
segment_lem config speed (suc fuel) i h k =
    elim (Bool-cases (ltb_ℤ speed (speed_at config (i + 1)))) [
      | inl p ↦ rw p (omega arith, h, ltb→lt _ _ p)
      | inr p ↦ rw p (
          let (bound, low, high) =
            segment_lem config speed fuel (i + 1) (ltb→ge _ _ p)
              (subst (λ j. speed <ℤ speed_at config j) (omega arith) k) in
          (omega arith, low, high))
    ]

abbrev IsPercent : ℤ → Type 0
IsPercent v = (pos fixed_one ≤ℤ v) × (v ≤ℤ pos (max_percent * fixed_one))

abbrev IsRatio : ℤ → Type 0
IsRatio r = (pos 655 ≤ℤ r) × (r ≤ℤ pos 655360)

percent_to_ratio-IsRatio : (v : ℤ) → IsPercent v → IsRatio (percent_to_ratio v)
percent_to_ratio-IsRatio v (h, k) = (
  omega (int_laws, tdiv_parts (v +ℤ pos 50) 100, parts_disjoint (v +ℤ pos 50)),
  omega (int_laws, tdiv_parts (v +ℤ pos 50) 100, parts_disjoint (v +ℤ pos 50)),
)

between_IsPercent : (a b v : ℤ) → IsPercent a → IsPercent b → IsPercent (between_ends a b v)
between_IsPercent a b v (h, h') (k, k') = (ground arith, ground arith)

point_IsPercent :
    (config : AccelerationConfig) (i : ℕ) → IsPoint config i → IsPercent (percent_at config i)
point_IsPercent config i h = (omega arith, omega arith)

invalid_status :
    (a b c : Bool) → c ≡ true → ¬ ((if a || b || c then err einval else success) ≡ success)
invalid_status true b c e h = ground arith
invalid_status false true c e h = ground arith
invalid_status false false true e h = ground arith
invalid_status false false false e h = ground arith

all_points :
    (config : AccelerationConfig)
    → cursor_acceleration_validate config ≡ success
    → (i : ℕ) → i < points
    → IsPercent (percent_at config i)
unfolding cursor_acceleration_validate
all_points config h i k = elim (Bool-cases (some_invalid config points)) [
  | inl e ↦ absurd (
      invalid_status (config.speed_rise_ms == 0) (config.speed_fall_ms == 0)
        (some_invalid config points) e h)
  | inr e ↦ point_IsPercent config i (valid_points config points i e k)
]

on_segment_bound :
    (config : AccelerationConfig) (speed : ℤ) (i : ℕ)
    → IsPercent (percent_at config i)
    → IsPercent (percent_at config (i + 1))
    → IsRatio (on_segment config speed i)
unfolding on_segment
on_segment_bound config speed i h k =
    percent_to_ratio-IsRatio
      (between_ends (percent_at config i) (percent_at config (i + 1)) (hermite config speed i))
      (between_IsPercent (percent_at config i) (percent_at config (i + 1)) (hermite config speed i)
        h k)

-- For a configuration that validates, the sensitivity of every speed is from 655 to 655360, which are 1
-- and 1000 percent as Q16.
pub sensitivity-bounds :
    (config : AccelerationConfig) (speed : ℤ)
    → cursor_acceleration_validate config ≡ success
    → (pos 655 ≤ℤ sensitivity config speed) × (sensitivity config speed ≤ℤ pos 655360)
unfolding sensitivity
sensitivity-bounds config speed h =
    let point = all_points config h in
    elim (Bool-cases (ltb_ℤ (speed_at config 0) speed)) [
      | inl p ↦ elim (Bool-cases (ltb_ℤ speed (speed_at config (points - 1)))) [
        | inl q ↦
            let i = segment config speed (points - 1) 0 in
            let found =
              segment_lem config speed (points - 1) 0 (omega (arith, ltb→lt _ _ p))
                (ltb→lt _ _ q) in
            rw (p, q)
              (on_segment_bound config speed i (point i (omega arith))
                (point (i + 1) (omega arith)))
        | inr q ↦
            rw (p, q)
              (percent_to_ratio-IsRatio (percent_at config (points - 1))
                (point (points - 1) (omega arith)))
      ]
      | inr p ↦ rw p (percent_to_ratio-IsRatio (percent_at config 0) (point 0 (omega arith)))
    ]
