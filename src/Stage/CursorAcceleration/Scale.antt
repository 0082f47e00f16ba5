-- ===== src/Stage/CursorAcceleration/Scale.antt =====
-- scale of src/stage/cursor_acceleration/cursor_acceleration.c.
use zmk_pointing_tools.Base.{
  ◌+◌, ◌-◌, ◌*◌, ◌/◌, ◌^◌, ◌%◌, ◌==◌, Bool, true, not, ◌&&◌, if◌then◌else◌, ltb,
}
use zmk_pointing_tools.Base.Int.{ℤ, pos, neg_of_ℕ, ltb_ℤ, int64_max, int64_min, to_uint64}
use zmk_pointing_tools.Core.Fixed.{fixed_one, uint64_max, magnitude}

-- The scaled value, with whether it is clipped. The factor is not 0.
unfoldable pub scale : ℤ → ℤ → ℤ × Bool
scale value factor =
    let multiplier = to_uint64 factor in
    if not (magnitude value == 0)
      && ltb ((uint64_max - fixed_one / 2) / multiplier) (magnitude value)
    then (if ltb_ℤ value (pos 0) then int64_min else int64_max, true)
    else (let scaled = (magnitude value * multiplier + fixed_one / 2) % 2 ^ 64 / fixed_one in
        let clipped = ltb (2 ^ 63 - 1) scaled in
        let limited = if clipped then 2 ^ 63 - 1 else scaled in
        (if ltb_ℤ value (pos 0) then neg_of_ℕ limited else pos limited, clipped))
