-- ===== src/Core/Fixed.antt =====
-- include/zmk/pointing_tools/core/fixed.h: saturating signed fixed-point helpers. An int64_t is an
-- integer, a uint64_t a number, with their ranges as hypotheses of the theorems.
pub mod Add
pub mod Multiply
pub mod Ratio
mod Tests
use zmk_pointing_tools.Base.{
  ℕ, ◌+◌, ◌-◌, ◌*◌, ◌/◌, ◌%◌, ◌^◌, Bool, true, false, ◌&&◌, ◌||◌, ltb, leb, ◌==◌, if◌then◌else◌,
  not,
}
use zmk_pointing_tools.Base.Int.{
  ℤ, pos, negsuc, neg_of_ℕ, ◌+ℤ◌, ◌-ℤ◌, ◌*ℤ◌, tdiv, asr, ltb_ℤ, int64_max, int64_min,
}

-- UINT64_MAX
abbrev pub uint64_max : ℕ
uint64_max = 2 ^ 64 - 1

-- ZPT_FIXED_ONE
abbrev pub fixed_one : ℕ
fixed_one = 2 ^ 16

-- `(uint64_t)(-(value + 1)) + 1U` for a negative value.
unfoldable pub magnitude : ℤ → ℕ
magnitude (pos n) = n
magnitude (negsuc n) = n + 1

unfoldable pub saturating_add : ℤ → ℤ → ℤ
unfolding ◌+ℤ◌ ◌-ℤ◌
saturating_add left right =
    if ltb_ℤ (pos 0) right && ltb_ℤ (int64_max -ℤ right) left
    then int64_max
    else if ltb_ℤ right (pos 0) && ltb_ℤ left (int64_min -ℤ right)
    then int64_min
    else left +ℤ right

unfoldable pub saturating_add_u64 : ℕ → ℕ → ℕ
saturating_add_u64 left right = if ltb (uint64_max - left) right then uint64_max else left + right

-- The product is a `uint64_t`: it wraps.
unfoldable pub ratio_dominates : ℕ → ℕ → ℕ → Bool
ratio_dominates major minor ratio_percent =
    if not (minor == 0) && not (ratio_percent == 0) && ltb (uint64_max / ratio_percent) minor
    then true
    else leb (product / 100 + (if product % 100 == 0 then 0 else 1)) major
  where
    product : ℕ
    product = minor * ratio_percent % 2 ^ 64

-- The four sign cases of the source. The quotients INT64_MAX / right and INT64_MIN / left are C's,
-- towards zero.
unfoldable pub multiply : ℤ → ℤ → ℤ
unfolding magnitude
multiply (pos left) (pos right) =
    if left == 0 || right == 0
    then pos 0
    else if ltb ((2 ^ 63 - 1) / right) left
    then int64_max
    else asr (pos left *ℤ pos right) 16
multiply (negsuc left) (negsuc right) =
    if ltb_ℤ (negsuc left) (neg_of_ℕ ((2 ^ 63 - 1) / (right + 1)))
    then int64_max
    else asr (negsuc left *ℤ negsuc right) 16
multiply (pos left) (negsuc right) =
    if left == 0
    then pos 0
    else if ltb_ℤ (negsuc right) (tdiv int64_min left)
    then int64_min
    else asr (pos left *ℤ negsuc right) 16
multiply (negsuc left) (pos right) =
    if right == 0
    then pos 0
    else if ltb (2 ^ 63 / magnitude (negsuc left)) right
    then int64_min
    else asr (negsuc left *ℤ pos right) 16

-- The clamp to INT32_MAX and INT32_MIN.
unfoldable pub to_int32 : ℤ → ℤ
unfolding tdiv
to_int32 value =
    let quotient = tdiv value fixed_one in
    if ltb_ℤ (pos (2 ^ 31 - 1)) quotient
    then pos (2 ^ 31 - 1)
    else if ltb_ℤ quotient (negsuc (2 ^ 31 - 1))
    then negsuc (2 ^ 31 - 1)
    else quotient
