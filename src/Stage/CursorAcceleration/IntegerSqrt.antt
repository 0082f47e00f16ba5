-- ===== src/Stage/CursorAcceleration/IntegerSqrt.antt =====
-- integer_sqrt and euclidean_magnitude of src/stage/cursor_acceleration/cursor_acceleration.c. The
-- source's bit, a power of four, is given by its exponent: 4 ^ n stands for n + 1, 0 for 0.
use zmk_pointing_tools.Base.{
  leb→gt, ap, subst, leb→le, ◌∙◌, ℕ, zero, suc, ◌+◌, ◌-◌, ◌*◌, ◌/◌, ◌^◌, ◌≤◌, ◌<◌, arith,
  if◌then◌else◌, ltb, leb, Bool-cases, inl, inr, ltb→lt, ◌≡◌,
}
use zmk_pointing_tools.Base.Int.{ℤ}
use zmk_pointing_tools.Core.Fixed.{magnitude}

-- The first loop: the greatest bit that the value has room for.
unfoldable pub skip_bits : ℕ → ℕ → ℕ
skip_bits zero value = zero
skip_bits (suc n) value = let rest = skip_bits n value in if ltb value (4 ^ n) then rest else suc n

-- The second loop.
unfoldable pub sqrt_loop : ℕ → (value root : ℕ) → ℕ
sqrt_loop zero value root = root
sqrt_loop (suc n) value root =
    let fits = leb (root + 4 ^ n) value in
    sqrt_loop n (if fits then value - (root + 4 ^ n) else value)
      (if fits then root / 2 + 4 ^ n else root / 2)

unfoldable pub integer_sqrt : ℕ → ℕ
unfolding skip_bits sqrt_loop
integer_sqrt value = sqrt_loop (skip_bits 32 value) value 0

-- ZPT_ACCELERATION_AXIS_LIMIT
abbrev pub axis_limit : ℕ
axis_limit = 2 ^ 31 - 1

abbrev pub limit_axis : ℕ → ℕ
limit_axis axis = if ltb axis_limit axis then axis_limit else axis

unfoldable pub euclidean_magnitude : ℤ → ℤ → ℕ
unfolding integer_sqrt
euclidean_magnitude x y =
    let abs_x = limit_axis (magnitude x) in
    let abs_y = limit_axis (magnitude y) in integer_sqrt (abs_x * abs_x + abs_y * abs_y)

-- The root, with the square that remains.
abbrev pub IsRootOf : ℕ → ℕ → Type 0
IsRootOf root value = (root * root ≤ value) × (value < suc root * suc root)

skip_bits_bound : (n value : ℕ) → value < 4 ^ n → value < 4 ^ skip_bits n value
unfolding skip_bits
skip_bits_bound zero value h = h
skip_bits_bound (suc n) value h = elim (Bool-cases (ltb value (4 ^ n))) [
  | inl p ↦ rw p (skip_bits_bound n value (ltb→lt _ _ p))
  | inr p ↦ rw p h
]

pow_step : (n : ℕ) → 4 ^ suc n ≡ 4 * 4 ^ n
pow_step n = omega arith

root_step : (n root r : ℕ) → root ≡ r * 4 ^ suc n → root ≡ 4 * (r * 4 ^ n)
root_step n root r e = e ∙ ap (λ q. r * q) (pow_step n) ∙ omega arith

half : (a : ℕ) → 4 * a / 2 ≡ 2 * a
half a = omega arith

taken :
    (value root r q : ℕ)
    → root + q ≤ value
    → root ≡ 4 * (r * q)
    → value - (root + q) + (2 * r + 1) * (root / 2 + q) ≡ value + r * root
taken value root r q h e = rw (e, half (r * q)) (omega arith)

left_out : (value root r q : ℕ) → root ≡ 4 * (r * q) → value + 2 * r * (root / 2) ≡ value + r * root
left_out value root r q e = rw (e, half (r * q)) (omega arith)

-- The loop from a partial root r * 2 ^ n: the value lacks its square, r * root.
sqrt_loop_lem :
    (n value root r : ℕ)
    → root ≡ r * 4 ^ n
    → value < 2 * root + 4 ^ n
    → IsRootOf (sqrt_loop n value root) (value + r * root)
unfolding sqrt_loop
sqrt_loop_lem zero value root r e h =
    let same : root ≡ r = e ∙ omega arith in
    subst (λ x. IsRootOf root (value + x * root)) same (omega arith, omega arith)
sqrt_loop_lem (suc n) value root r e h =
    let quad = root_step n root r e in
    elim (Bool-cases (leb (root + 4 ^ n) value)) [
      | inl p ↦ rw p (
          subst (IsRootOf _) (taken value root r (4 ^ n) (leb→le _ _ p) quad) (
            sqrt_loop_lem n (value - (root + 4 ^ n)) (root / 2 + 4 ^ n) (2 * r + 1) (omega arith)
              (omega (arith, pow_step n, leb→le _ _ p))))
      | inr p ↦ rw p (
          subst (IsRootOf _) (left_out value root r (4 ^ n) quad)
            (sqrt_loop_lem n value (root / 2) (2 * r) (omega arith) (omega (arith, leb→gt _ _ p))))
    ]

sqrt_loop_from_zero : (n value : ℕ) → value < 4 ^ n → IsRootOf (sqrt_loop n value 0) value
sqrt_loop_from_zero n value h =
    subst (IsRootOf _) (omega arith) (sqrt_loop_lem n value 0 0 (omega arith) (omega arith))

-- The integer square root of a uint64_t is the greatest number whose square is not greater than it.
pub integer_sqrt-IsRootOf : (value : ℕ) → value < 2 ^ 64 → IsRootOf (integer_sqrt value) value
unfolding integer_sqrt
integer_sqrt-IsRootOf value h =
    sqrt_loop_from_zero (skip_bits 32 value) value (skip_bits_bound 32 value h)
