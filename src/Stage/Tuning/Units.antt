-- ===== src/Stage/Tuning/Units.antt =====
-- The units of src/stage/stage_tuning.c and of include/zmk/pointing_tools/core/signal.h: micrometres
-- and steps per metre, whole numbers, against fixed-point millimetres.
use zmk_pointing_tools.Base.{not, arith, if◌then◌else◌, ◌-◌, ◌/◌, ◌%◌, ◌^◌, ◌<◌, ◌≡◌, ℕ}
use zmk_pointing_tools.Base.Int.{◌-ℤ◌, negsuc, ℤ, tdiv, ◌*ℤ◌, ◌+ℤ◌, ltb_ℤ, pos, ◌+ℤ◌, ◌-ℤ◌, ◌*ℤ◌}
use zmk_pointing_tools.Core.Fixed.{fixed_one}

-- ZPT_MICROMETERS_TO_FIXED_MILLIMETERS
unfoldable pub micrometers_to_fixed_millimeters : ℤ → ℤ
micrometers_to_fixed_millimeters value = tdiv (value *ℤ pos fixed_one +ℤ pos 500) 1000

-- ZPT_PER_METER_TO_FIXED_PER_MILLIMETER
unfoldable pub per_meter_to_fixed_per_millimeter : ℤ → ℤ
per_meter_to_fixed_per_millimeter value = tdiv (value *ℤ pos fixed_one) 1000

-- The product by 1000 is exact: no configuration comes near 2 ^ 63 / 1000.
unfoldable pub fixed_millimeters_to_micrometers : ℤ → ℤ
fixed_millimeters_to_micrometers value =
    let scaled = value *ℤ pos 1000 in
    let half = pos (fixed_one / 2) in
    let micrometers =
      if not (ltb_ℤ scaled (pos 0))
      then tdiv (scaled +ℤ half) fixed_one
      else tdiv (scaled -ℤ half) fixed_one in
    if ltb_ℤ (pos (2 ^ 31 - 1)) micrometers
    then pos (2 ^ 31 - 1)
    else if ltb_ℤ micrometers (negsuc (2 ^ 31 - 1))
    then negsuc (2 ^ 31 - 1)
    else micrometers

unfoldable pub fixed_per_millimeter_to_per_meter : ℤ → ℤ
unfolding fixed_millimeters_to_micrometers
fixed_per_millimeter_to_per_meter value = fixed_millimeters_to_micrometers value

-- (uint16_t)value
abbrev pub to_uint16 : ℤ → ℕ
to_uint16 (pos n) = n % 2 ^ 16
to_uint16 (negsuc n) = 2 ^ 16 - 1 - n % 2 ^ 16

-- Micrometres read back exactly: the conversion to fixed point and back is the same number.
pub micrometers_back :
    (n : ℕ)
    → n < 2 ^ 31
    → fixed_millimeters_to_micrometers (micrometers_to_fixed_millimeters (pos n)) ≡ pos n
unfolding fixed_millimeters_to_micrometers micrometers_to_fixed_millimeters tdiv ◌+ℤ◌ ◌*ℤ◌ ◌-ℤ◌
micrometers_back n h = ground arith

pub per_meter_back :
    (n : ℕ)
    → n < 2 ^ 31
    → fixed_per_millimeter_to_per_meter (per_meter_to_fixed_per_millimeter (pos n)) ≡ pos n
unfolding fixed_per_millimeter_to_per_meter per_meter_to_fixed_per_millimeter
    fixed_millimeters_to_micrometers tdiv ◌+ℤ◌ ◌*ℤ◌ ◌-ℤ◌
per_meter_back n h = ground arith
