-- ===== src/Core/Fixed/Tests.antt =====
-- Tests and witnesses for the fixed-point helpers.
use mathlib.Core.Logic.{◌↔◌}
use zmk_pointing_tools.Base.{true, arith, refl, ◌-◌, ◌*◌, ◌^◌, ◌≤◌, ◌≡◌, ◌⊎◌}
use zmk_pointing_tools.Base.Int.{
  asr, tdiv, negsuc, ◌*ℤ◌, int64_min, int64_max, clamp_ℤ, pos, ◌+ℤ◌, ◌*ℤ◌,
}
use zmk_pointing_tools.Core.Fixed.{to_int32, saturating_add, multiply, ratio_dominates}
use zmk_pointing_tools.Core.Fixed.Add.{saturating_add-eq-clamp, to_int32-IsTruncated, IsTruncated}
use zmk_pointing_tools.Core.Fixed.Multiply.{multiply-eq-saturated, saturated_shift}
use zmk_pointing_tools.Core.Fixed.Ratio.{ratio_dominates_iff}

multiplies : multiply (pos (2 ^ 17)) (negsuc (2 ^ 16 - 1)) ≡ negsuc (2 ^ 17 - 1)
unfolding multiply asr ◌*ℤ◌ tdiv
multiplies = refl

multiply-eq-saturated_example :
    multiply (pos (2 ^ 40)) (pos (2 ^ 40)) ≡ saturated_shift (pos (2 ^ 40) *ℤ pos (2 ^ 40))
multiply-eq-saturated_example = multiply-eq-saturated (pos (2 ^ 40)) (pos (2 ^ 40))

saturating_add-eq-clamp_example :
    saturating_add int64_max (pos 5) ≡ clamp_ℤ int64_min int64_max (int64_max +ℤ pos 5)
saturating_add-eq-clamp_example =
    saturating_add-eq-clamp int64_max (pos 5) (omega arith, omega arith) (omega arith, omega arith)

to_int32-IsTruncated_example : IsTruncated (negsuc 100000) (to_int32 (negsuc 100000))
to_int32-IsTruncated_example = to_int32-IsTruncated (negsuc 100000)

ratio_dominates_iff_example :
    (ratio_dominates 0 (2 ^ 63) 200 ≡ true) ↔ ((2 ^ 63 * 200 ≤ 0 * 100) ⊎ (2 ^ 64 ≤ 2 ^ 63 * 200))
ratio_dominates_iff_example = ratio_dominates_iff 0 (2 ^ 63) 200
