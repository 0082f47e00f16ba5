-- ===== src/Core/Fixed/Multiply.antt =====
-- The saturating multiplication of fixed.h.
use native.Mathlib.Nat.{div-lt_iff_lt-mul, zero-mul, mul-zero, mul_comm}
use native.Mathlib.Numerals.{add-one}
use zmk_pointing_tools.Base.{
  ℕ, zero, suc, ◌+◌, ◌-◌, ◌*◌, ◌/◌, ◌^◌, ◌<◌, ◌≡◌, refl, ◌∙◌, sym, arith, ltb, if◌then◌else◌,
  Bool-cases, inl, inr, ltb→lt, lt→ltb,
}
use zmk_pointing_tools.Base.Int.{
  ℤ, pos, negsuc, neg_of_ℕ, ◌*ℤ◌, asr, tdiv, ltb_ℤ, int64_max, int64_min,
}
use zmk_pointing_tools.Core.Fixed.{multiply}

-- What the multiplication promises: the exact product, saturated, else shifted right by 16 bits.
abbrev pub saturated_shift : ℤ → ℤ
saturated_shift product =
    if ltb_ℤ int64_max product
    then int64_max
    else if ltb_ℤ product int64_min
    then int64_min
    else asr product 16

-- The overflow test of the source, by division, is the test of the product.
pub ltb-div : (n a b : ℕ) → 0 < b → ltb (n / b) a ≡ ltb n (a * b)
ltb-div n a b h = elim (Bool-cases (ltb (n / b) a)) [
  | inl p ↦ p ∙ sym (lt→ltb _ _ ((div-lt_iff_lt-mul h).0 (ltb→lt _ _ p)))
  | inr p ↦ elim (Bool-cases (ltb n (a * b))) [
    | inl q ↦ lt→ltb _ _ ((div-lt_iff_lt-mul h).1 (ltb→lt _ _ q)) ∙ sym q
    | inr q ↦ p ∙ sym q
  ]
]

ltb-neg_of_ℕ : (q r : ℕ) → ltb_ℤ (negsuc r) (neg_of_ℕ q) ≡ ltb q (suc r)
ltb-neg_of_ℕ zero r = ground arith
ltb-neg_of_ℕ (suc q) r = ground arith

saturated_shift-neg_of_ℕ :
    (n : ℕ)
    → saturated_shift (neg_of_ℕ n) ≡ (if ltb (2 ^ 63) n then int64_min else asr (neg_of_ℕ n) 16)
saturated_shift-neg_of_ℕ zero = refl
saturated_shift-neg_of_ℕ (suc n) = ground arith

-- The quotients of the source test for overflow exactly: the result is the true product, shifted
-- right by 16 bits, or the end of the range that the product has passed.
pub multiply-eq-saturated : (left right : ℤ) → multiply left right ≡ saturated_shift (left *ℤ right)
unfolding multiply ◌*ℤ◌ tdiv asr
multiply-eq-saturated (pos zero) (pos right) = rw (zero-mul right)
multiply-eq-saturated (pos (suc left)) (pos zero) = rw (mul-zero (suc left)) (ground arith)
multiply-eq-saturated (pos (suc left)) (pos (suc right)) =
    rw (ltb-div (2 ^ 63 - 1) (suc left) (suc right) (omega arith)) (ground arith)
multiply-eq-saturated (negsuc left) (negsuc right) =
    rw
      (
        ltb-neg_of_ℕ ((2 ^ 63 - 1) / (right + 1)) left,
        ltb-div (2 ^ 63 - 1) (suc left) (right + 1) (omega arith),
        add-one right,
      )
      (ground arith)
multiply-eq-saturated (pos zero) (negsuc right) = rw (zero-mul (suc right))
multiply-eq-saturated (pos (suc left)) (negsuc right) =
    rw
      (
        ltb-neg_of_ℕ (2 ^ 63 / suc left) right,
        ltb-div (2 ^ 63) (suc right) (suc left) (omega arith),
        mul_comm (suc right) (suc left),
        saturated_shift-neg_of_ℕ (suc left * suc right),
      )
      (ground arith)
multiply-eq-saturated (negsuc left) (pos zero) = rw (mul-zero (suc left)) (ground arith)
multiply-eq-saturated (negsuc left) (pos (suc right)) =
    rw
      (
        add-one left,
        ltb-div (2 ^ 63) (suc right) (suc left) (omega arith),
        mul_comm (suc right) (suc left),
        saturated_shift-neg_of_ℕ (suc left * suc right),
      )
      (ground arith)
