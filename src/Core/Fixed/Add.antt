-- ===== src/Core/Fixed/Add.antt =====
-- The saturating additions of fixed.h, and the conversion to 32 bits.
use zmk_pointing_tools.Base.{◌-◌, ◌+◌, ◌*◌, ◌⊎◌, ℕ, ◌/◌, ◌^◌, ◌≤◌, ◌<◌, ◌≡◌, arith}
use zmk_pointing_tools.Base.Int.{
  ℤ, pos, negsuc, pos_part, neg_part, ◌+ℤ◌, ◌-ℤ◌, ◌*ℤ◌, IsInt64, clamp_ℤ, int64_max, int64_min,
  tdiv_parts, parts_disjoint, int_laws, *ℤ_pos_parts,
}
use zmk_pointing_tools.Core.Fixed.{
  uint64_max, fixed_one, saturating_add, saturating_add_u64, to_int32,
}

-- For two values of int64_t the sum is the true sum, clamped to the range of int64_t.
pub saturating_add-eq-clamp :
    (left right : ℤ)
    → IsInt64 left
    → IsInt64 right
    → saturating_add left right ≡ clamp_ℤ int64_min int64_max (left +ℤ right)
unfolding saturating_add
saturating_add-eq-clamp (pos a) (pos b) hl hr = ground arith
saturating_add-eq-clamp (pos a) (negsuc b) hl hr = ground arith
saturating_add-eq-clamp (negsuc a) (pos b) hl hr = ground arith
saturating_add-eq-clamp (negsuc a) (negsuc b) hl hr = ground arith

pub saturating_add-IsInt64 :
    (left right : ℤ) → IsInt64 left → IsInt64 right → IsInt64 (saturating_add left right)
unfolding saturating_add
saturating_add-IsInt64 (pos a) (pos b) hl hr = ground arith
saturating_add-IsInt64 (pos a) (negsuc b) hl hr = ground arith
saturating_add-IsInt64 (negsuc a) (pos b) hl hr = ground arith
saturating_add-IsInt64 (negsuc a) (negsuc b) hl hr = ground arith

pub saturating_add-zero : (a : ℤ) → IsInt64 a → saturating_add (pos 0) a ≡ a
unfolding saturating_add
saturating_add-zero (pos a) h = ground arith
saturating_add-zero (negsuc a) h = ground arith

pub saturating_add_u64-le :
    (left right : ℕ) → left ≤ uint64_max → saturating_add_u64 left right ≤ uint64_max
unfolding saturating_add_u64
saturating_add_u64-le left right h = ground arith

pub to_int32_parts :
    (value : ℤ)
    → pos_part value < 2 ^ 47
    → neg_part value < 2 ^ 47
    → (pos_part (to_int32 value) ≡ pos_part value / fixed_one)
      × (neg_part (to_int32 value) ≡ neg_part value / fixed_one)
unfolding to_int32
to_int32_parts value h k = ground (arith, tdiv_parts value fixed_one)

-- What a conversion to int32 leaves behind is less than one unit in size, while the value has at
-- most 31 integral bits.
pub to_int32_remainder :
    (value : ℤ)
    → pos_part value < 2 ^ 47
    → neg_part value < 2 ^ 47
    → let remainder = value -ℤ to_int32 value *ℤ pos fixed_one in
      (pos_part remainder < fixed_one) × (neg_part remainder < fixed_one)
to_int32_remainder value h k = omega (
  int_laws,
  to_int32_parts value h k,
  *ℤ_pos_parts (to_int32 value) fixed_one,
  parts_disjoint value,
  parts_disjoint (value -ℤ to_int32 value *ℤ pos fixed_one),
)

-- The numbers whose quotient by one unit, rounded towards zero, is a size.
abbrev pub IsQuotient : (size quotient : ℕ) → Type 0
IsQuotient size quotient = (quotient * fixed_one ≤ size) × (size < quotient * fixed_one + fixed_one)

-- A value in the range of the result and its whole part, or the end of the range that the value has passed.
abbrev pub IsTruncated : ℤ → ℤ → Type 0
IsTruncated value result =
    ((pos_part value < 2 ^ 47)
      × (neg_part value < 2 ^ 47 + fixed_one)
      × IsQuotient (pos_part value) (pos_part result)
      × IsQuotient (neg_part value) (neg_part result))
    ⊎ ((2 ^ 47 ≤ pos_part value) × (result ≡ pos (2 ^ 31 - 1)))
    ⊎ ((2 ^ 47 + fixed_one ≤ neg_part value) × (result ≡ negsuc (2 ^ 31 - 1)))

-- A conversion to int32 truncates every value towards zero: the size of the result is the size of the value
-- in whole units, rounded down, on either side of zero. From 2 ^ 47 on it is the greatest int32, and below
-- the least int32 by a unit or more it is the least one.
pub to_int32-IsTruncated : (value : ℤ) → IsTruncated value (to_int32 value)
unfolding to_int32
to_int32-IsTruncated value = ground (arith, tdiv_parts value fixed_one, parts_disjoint value)
