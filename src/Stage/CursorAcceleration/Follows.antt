-- ===== src/Stage/CursorAcceleration/Follows.antt =====
-- The estimate of Stage/CursorAcceleration/Speed stays in range and follows the frames.
use zmk_pointing_tools.Stage.CursorAcceleration.Distance.{
  IsBetween, IsLeft, nat_abs-parts, left_over, weight_pos, toward, toward_left,
}
use mathlib.Core.Logic.{◌↔◌}
use zmk_pointing_tools.Base.{
  leb→le, leb, inr, inl, if◌then◌else◌, ◌⊎◌, ℕ, ◌≤◌, ◌*◌, ◌-◌, ◌≡◌, arith, refl, ◌<◌, Bool-cases,
}
use zmk_pointing_tools.Base.Int.{
  pos, negsuc, int_laws, parts_disjoint, ltb_ℤ, tdiv, nat_abs, ◌+ℤ◌, ◌-ℤ◌, ◌*ℤ◌, ◌≤ℤ◌, ℤ,
}
use zmk_pointing_tools.Core.Fixed.{fixed_one}
use zmk_pointing_tools.Stage.CursorAcceleration.Decay.{
  decay_bound, decay-zero_iff, decay-lt, max_time_constant_ms,
}
use zmk_pointing_tools.Stage.CursorAcceleration.Speed.{
  observe, restart_us, instant_speed, speed_limit, follow, frame_interval_us, AccelerationState,
  decay, min_interval_us,
}
use zmk_pointing_tools.Core.Signal.{Metadata}
use zmk_pointing_tools.Stage.CursorAcceleration.Curve.{AccelerationConfig}

-- The time constant that holds for an estimate and a frame's speed.
abbrev pub time_constant : AccelerationConfig → ℤ → ℕ → ℕ
time_constant config speed instant =
    if ltb_ℤ speed (pos instant) then config.speed_rise_ms else config.speed_fall_ms

-- The part of the distance that is kept: none after a pause, else the decay for the interval and the time
-- constant of speeding up or slowing down.
abbrev pub kept_share : AccelerationConfig → ℤ → (instant interval_us : ℕ) → ℕ
kept_share config speed instant interval_us =
    if leb restart_us interval_us then 0 else decay interval_us (time_constant config speed instant)

rises : (speed : ℤ) (instant : ℕ) → ltb_ℤ (pos 0) (pos instant -ℤ speed) ≡ ltb_ℤ speed (pos instant)
unfolding ◌-ℤ◌
rises (pos n) instant = ground arith
rises (negsuc n) instant = ground arith

-- What is said of the next estimate.
abbrev pub IsFollowed : (kept : ℕ) → (old target next : ℤ) → Type 0
IsFollowed kept old target next = IsBetween old target next × IsLeft kept old target next

follow-IsFollowed :
    (config : AccelerationConfig) (speed : ℤ) (instant interval_us : ℕ)
    → IsFollowed
        (decay interval_us (time_constant config speed instant))
        speed
        (pos instant)
        (follow config speed instant interval_us)
unfolding follow
follow-IsFollowed config speed instant interval_us =
    let d = decay interval_us (time_constant config speed instant) in
    let bound = decay_bound interval_us (time_constant config speed instant) in
    let (low, high) = left_over (nat_abs (pos instant -ℤ speed)) d bound in
    let left = toward_left speed (pos instant) (fixed_one - d) (omega arith) in
    let near : IsLeft d speed (pos instant)
        (speed +ℤ tdiv ((pos instant -ℤ speed) *ℤ pos (fixed_one - d)) fixed_one) =
      (rw left low, rw left high) in
    rw (rises speed instant, weight_pos d bound)
      (toward speed (pos instant) (fixed_one - d) (omega arith), near)

instant_bound : (x y : ℤ) (interval_us : ℕ) → instant_speed x y interval_us ≤ speed_limit
unfolding instant_speed
instant_bound x y interval_us = ground arith

abbrev pub IsSpeed : ℤ → Type 0
IsSpeed speed = (pos 0 ≤ℤ speed) × (speed ≤ℤ pos speed_limit)

-- What is on the way from a speed to one within the limit is within the limit.
way_IsSpeed : (a b c : ℤ) → IsSpeed a → IsSpeed b → IsBetween a b c → IsSpeed c
way_IsSpeed a b c h k (inl p) = (omega arith, omega arith)
way_IsSpeed a b c h k (inr p) = (omega arith, omega arith)

target-IsFollowed : (old target : ℤ) → IsFollowed 0 old target target
target-IsFollowed old target =
    let none : nat_abs (target -ℤ target) ≡ 0 =
      omega (int_laws, nat_abs-parts (target -ℤ target), parts_disjoint (target -ℤ target)) in
    (ground arith, (omega (arith, none), omega (arith, none)))

next-IsFollowed :
    (state : AccelerationState) (config : AccelerationConfig) (x y : ℤ) (frame : Metadata)
    → let interval_us = frame_interval_us state frame in
      let instant = instant_speed x y interval_us in
      IsFollowed
        (kept_share config state.speed instant interval_us)
        state.speed
        (pos instant)
        (observe state config x y frame).speed
unfolding observe
next-IsFollowed state config x y frame =
    let interval_us = frame_interval_us state frame in
    let instant = instant_speed x y interval_us in
    elim (Bool-cases (leb restart_us interval_us)) [
      | inl e ↦ rw e (target-IsFollowed state.speed (pos instant))
      | inr e ↦ rw e (follow-IsFollowed config state.speed instant interval_us)
    ]

interval_long :
    (state : AccelerationState) (frame : Metadata) → min_interval_us ≤ frame_interval_us state frame
unfolding frame_interval_us
interval_long state frame = ground arith

-- The time constants that a configuration may have.
abbrev pub IsTimeConstant : ℕ → Type 0
IsTimeConstant time_constant_ms = (0 < time_constant_ms) × (time_constant_ms ≤ max_time_constant_ms)

kept_share-lt :
    (state : AccelerationState) (config : AccelerationConfig) (frame : Metadata) (instant : ℕ)
    → IsTimeConstant config.speed_rise_ms
    → IsTimeConstant config.speed_fall_ms
    → kept_share config state.speed instant (frame_interval_us state frame) < fixed_one
kept_share-lt state config frame instant rise fall = ground (
  arith,
  decay-lt (frame_interval_us state frame) config.speed_rise_ms (interval_long state frame),
  decay-lt (frame_interval_us state frame) config.speed_fall_ms (interval_long state frame),
)

kept_share-zero_iff :
    (config : AccelerationConfig) (speed : ℤ) (instant interval_us : ℕ)
    → IsTimeConstant config.speed_rise_ms
    → IsTimeConstant config.speed_fall_ms
    → (kept_share config speed instant interval_us ≡ 0)
      ↔ ((restart_us ≤ interval_us) ⊎ (8000 * time_constant config speed instant ≤ interval_us))
kept_share-zero_iff config speed instant interval_us rise fall =
    let positive : 0 < time_constant config speed instant = ground arith in
    let zero_iff = decay-zero_iff interval_us (time_constant config speed instant) positive in
    elim (Bool-cases (leb restart_us interval_us)) [
      | inl e ↦ rw e (λ h. inl (leb→le _ _ e), λ h. refl)
      | inr e ↦ rw e (
        λ h. inr (zero_iff.0 h),
        λ h. elim h [ inl long ↦ absurd (ground (arith, e, long)) | inr long ↦ zero_iff.1 long ],
      )
    ]

-- For time constants from 1 to 200 ms and an estimate from 0 to the limit, the next estimate is in that range
-- too, and on the way from the old one to the frame's own speed. Of the distance to that speed a share is
-- left, rounded up by less than one: none after a pause, else the decay of the frame's interval for the time
-- constant of speeding up, if the frame is faster than the old estimate, or of slowing down. The share is
-- less than all of the distance, and it is none only after a pause or from eight time constants on.
pub observe-follows :
    (state : AccelerationState) (config : AccelerationConfig) (x y : ℤ) (frame : Metadata)
    → IsTimeConstant config.speed_rise_ms
    → IsTimeConstant config.speed_fall_ms
    → IsSpeed state.speed
    → let next = (observe state config x y frame).speed in
      let interval_us = frame_interval_us state frame in
      let instant = instant_speed x y interval_us in
      let kept = kept_share config state.speed instant interval_us in
      IsSpeed next
      × (kept < fixed_one)
      × ((kept ≡ 0) ↔ (
          (restart_us ≤ interval_us)
          ⊎ (8000 * time_constant config state.speed instant ≤ interval_us)))
      × IsFollowed kept state.speed (pos instant) next
observe-follows state config x y frame rise fall h =
    let followed = next-IsFollowed state config x y frame in
    let instant = instant_speed x y (frame_interval_us state frame) in
    let limited : IsSpeed (pos instant) =
      (omega arith, omega (arith, instant_bound x y (frame_interval_us state frame))) in
    (
      way_IsSpeed state.speed (pos instant) (observe state config x y frame).speed h limited
          followed.0,
      kept_share-lt state config frame instant rise fall,
      kept_share-zero_iff config state.speed instant (frame_interval_us state frame) rise fall,
      followed,
    )
