-- ===== src/Core/Fixed/Ratio.antt =====
-- The ratio test of fixed.h.
use native.Mathlib.Nat.{mul-zero, zero-mul, mod-eq_of_lt}
use zmk_pointing_tools.Base.{
  ℕ, zero, suc, ◌+◌, ◌*◌, ◌/◌, ◌%◌, ◌^◌, ◌≤◌, ◌<◌, ◌≡◌, arith, true, ◌==◌, if◌then◌else◌, ◌⊎◌, inl,
  inr,
}
use mathlib.Core.Logic.{◌↔◌}
use zmk_pointing_tools.Core.Fixed.Multiply.{ltb-div}
use zmk_pointing_tools.Core.Fixed.{uint64_max, ratio_dominates}

le_or_lt : (a b : ℕ) → (a ≤ b) ⊎ (b < a)
le_or_lt a b = ground arith

-- The last test of the source, which rounds the quotient up, on a product that does not wrap.
rounded_up :
    (product major : ℕ)
    → (product / 100 + (if product % 100 == 0 then 0 else 1) ≤ major) ↔ (product ≤ major * 100)
rounded_up product major = ground arith

pub ratio_dominates_exact :
    (major minor ratio : ℕ)
    → minor * ratio < 2 ^ 64
    → (ratio_dominates major minor ratio ≡ true) ↔ (minor * ratio ≤ major * 100)
unfolding ratio_dominates
ratio_dominates_exact major minor zero h = ground (arith, mul-zero minor)
ratio_dominates_exact major minor (suc ratio) h =
    rw (ltb-div uint64_max minor (suc ratio) (omega arith), mod-eq_of_lt h)
      (ground (arith, rounded_up (minor * suc ratio) major))

-- Where the product does not fit 64 bits, the test holds for every major value.
ratio_dominates_overflow :
    (major minor ratio : ℕ) → 2 ^ 64 ≤ minor * ratio → ratio_dominates major minor ratio ≡ true
unfolding ratio_dominates
ratio_dominates_overflow major zero ratio h = absurd (omega (arith, zero-mul ratio))
ratio_dominates_overflow major (suc minor) zero h = absurd (omega (arith, mul-zero (suc minor)))
ratio_dominates_overflow major (suc minor) (suc ratio) h =
    rw (ltb-div uint64_max (suc minor) (suc ratio) (omega arith)) (ground arith)

-- Of all values the test holds exactly where minor * ratio <= major * 100, which is what the source says of
-- it, or where the product minor * ratio does not fit 64 bits, whatever the major value is.
pub ratio_dominates_iff :
    (major minor ratio : ℕ)
    → (ratio_dominates major minor ratio ≡ true)
      ↔ ((minor * ratio ≤ major * 100) ⊎ (2 ^ 64 ≤ minor * ratio))
ratio_dominates_iff major minor ratio = elim (le_or_lt (2 ^ 64) (minor * ratio)) [
  | inl h ↦ (λ e. inr h, λ e. ratio_dominates_overflow major minor ratio h)
  | inr h ↦ (
    λ e. inl ((ratio_dominates_exact major minor ratio h).0 e),
    λ e. elim e [
      | inl k ↦ (ratio_dominates_exact major minor ratio h).1 k
      | inr k ↦ absurd (omega (arith, h, k))
    ],
  )
]
