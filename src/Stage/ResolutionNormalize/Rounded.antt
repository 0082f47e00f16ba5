-- ===== src/Stage/ResolutionNormalize/Rounded.antt =====
-- The conversion of Stage/ResolutionNormalize is exact but for rounding, and refuses what does not fit.
use zmk_pointing_tools.Base.{
  ||-true, ltb→lt, ap, ◌∙◌, inl, ||-false, ==→≢, ltb→ge, refl, ==_iff, leb→gt, true, false, einval,
  leb→le, erange, Errno, if-elim, inr, ◌==◌, ◌⊎◌, ◌||◌, leb, suc, arith, if◌then◌else◌, ◌+◌, ◌/◌,
  ◌%◌, ◌≡◌, ◌*◌, ◌≤◌, ◌<◌, ℕ, Bool,
}
use native.Mathlib.Nat.{mod-add-div', mod-lt}
use zmk_pointing_tools.Base.Int.{
  neg_of_ℕ_parts, parts_disjoint, int_laws, ltb_ℤ, int64_max, IsInt64, *ℤ_pos_parts, negsuc,
  int64_min, tmod, tdiv, neg_of_ℕ, ℤ, ◌+ℤ◌, pos, pos_part, ◌-ℤ◌, neg_part, ◌*ℤ◌, ◌-ℤ◌, ◌*ℤ◌,
}
use zmk_pointing_tools.Stage.ResolutionNormalize.{
  tenths_factor, counts_to_millimeters, divide_round_nearest,
}

-- A quotient off by at most half the denominator.
abbrev pub IsRounded : ℤ → ℕ → ℤ → Type 0
IsRounded numerator denominator quotient =
    let error = numerator -ℤ quotient *ℤ pos denominator in
    (2 * pos_part error ≤ denominator) × (2 * neg_part error ≤ denominator)

abbrev nearest : ℕ → ℕ → ℕ
nearest n d = if leb ((d + 1) / 2) (n % d) then n / d + 1 else n / d

nearest_lem :
    (n d : ℕ) → 0 < d → (2 * n ≤ 2 * (nearest n d * d) + d) × (2 * (nearest n d * d) ≤ 2 * n + d)
nearest_lem n d h =
    let split = mod-add-div' n d in
    let small = mod-lt n h in
    if-elim (λ q. (2 * n ≤ 2 * (q * d) + d) × (2 * (q * d) ≤ 2 * n + d)) (leb ((d + 1) / 2) (n % d))
      _ _ (λ e. let far = leb→le _ _ e in (omega arith, omega arith))
      (λ e. let near = leb→gt _ _ e in (omega arith, omega arith))

divide_pos : (n d : ℕ) → divide_round_nearest (pos n) d ≡ pos (nearest n d)
unfolding divide_round_nearest ◌-ℤ◌ ◌+ℤ◌ tdiv tmod
divide_pos n d = ground arith

divide_negsuc : (n d : ℕ) → divide_round_nearest (negsuc n) d ≡ neg_of_ℕ (nearest (suc n) d)
unfolding divide_round_nearest ◌-ℤ◌ ◌+ℤ◌ tdiv tmod
divide_negsuc n d = ground arith

neg_product :
    (q d : ℕ) → (pos_part (neg_of_ℕ q *ℤ pos d) ≡ 0) × (neg_part (neg_of_ℕ q *ℤ pos d) ≡ q * d)
neg_product q d =
    let (p, n) = *ℤ_pos_parts (neg_of_ℕ q) d in
    let (p', n') = neg_of_ℕ_parts q in
    (p ∙ ap (λ x. x * d) p' ∙ omega arith, n ∙ ap (λ x. x * d) n')

divide_round_nearest_lem : (a : ℤ) (d : ℕ) → 0 < d → IsRounded a d (divide_round_nearest a d)
divide_round_nearest_lem (pos n) d h =
    let product = pos (nearest n d) *ℤ pos d in
    let (p, q) = *ℤ_pos_parts (pos (nearest n d)) d in
    let (low, high) = nearest_lem n d h in
    rw (divide_pos n d) (
      omega (int_laws, parts_disjoint (pos n -ℤ product)),
      omega (int_laws, parts_disjoint (pos n -ℤ product)),
    )
divide_round_nearest_lem (negsuc n) d h =
    let product = neg_of_ℕ (nearest (suc n) d) *ℤ pos d in
    let (p, q) = neg_product (nearest (suc n) d) d in
    let (low, high) = nearest_lem (suc n) d h in
    rw (divide_negsuc n d) (
      omega (int_laws, parts_disjoint (negsuc n -ℤ product)),
      omega (int_laws, parts_disjoint (negsuc n -ℤ product)),
    )

-- What a conversion promises: millimetres to the nearest, or an error.
abbrev pub IsConverted : ℤ → ℕ → Errno ⊎ ℤ → Type 0
IsConverted counts resolution_cpi (inl e) =
    ((e ≡ einval) × (resolution_cpi ≡ 0)) ⊎ ((e ≡ erange) × ¬ IsInt64 (counts *ℤ pos tenths_factor))
IsConverted counts resolution_cpi (inr millimeters) =
    IsInt64 (counts *ℤ pos tenths_factor)
    × IsRounded (counts *ℤ pos tenths_factor) (resolution_cpi * 10) millimeters

abbrev too_high : ℤ → Bool
too_high counts = ltb_ℤ (tdiv int64_max tenths_factor) counts

abbrev too_low : ℤ → Bool
too_low counts = ltb_ℤ counts (tdiv int64_min tenths_factor)

in_range :
    (counts : ℤ)
    → too_high counts ≡ false
    → too_low counts ≡ false
    → IsInt64 (counts *ℤ pos tenths_factor)
unfolding tdiv
in_range counts h k =
    let high = ltb→ge _ _ h in
    let low = ltb→ge _ _ k in
    let (p, n) = *ℤ_pos_parts counts tenths_factor in
    (omega (arith, parts_disjoint counts), omega (arith, parts_disjoint counts))

out_of_range :
    (counts : ℤ)
    → (too_high counts ≡ true) ⊎ (too_low counts ≡ true)
    → ¬ IsInt64 (counts *ℤ pos tenths_factor)
unfolding tdiv
out_of_range counts (inl h) (below, above) =
    let high = ltb→lt _ _ h in
    let (p, n) = *ℤ_pos_parts counts tenths_factor in omega (arith, parts_disjoint counts)
out_of_range counts (inr h) (below, above) =
    let low = ltb→lt _ _ h in
    let (p, n) = *ℤ_pos_parts counts tenths_factor in omega (arith, parts_disjoint counts)

-- A conversion of counts to millimetres is refused with EINVAL exactly for a resolution of 0 and with ERANGE
-- exactly where the counts times 254 * 2 ^ 16 leave the range of 64 bits; else its result is off by at most half
-- a unit of the last place, counted in the resolution times 10.
pub counts_to_millimeters-IsConverted :
    (counts : ℤ) (resolution_cpi : ℕ)
    → IsConverted counts resolution_cpi (counts_to_millimeters counts resolution_cpi)
unfolding counts_to_millimeters
counts_to_millimeters-IsConverted counts resolution_cpi =
    let P = IsConverted counts resolution_cpi in
    if-elim P (resolution_cpi == 0) _ _ (λ e. inl (refl, (==_iff resolution_cpi 0).0 e))
      (λ e.
        if-elim P (too_high counts || too_low counts) _ _
          (λ o. inr (refl, out_of_range counts (||-true _ _ o)))
          (λ o. (
            in_range counts (||-false _ _ o).0 (||-false _ _ o).1,
            divide_round_nearest_lem (counts *ℤ pos tenths_factor) (resolution_cpi * 10)
                (omega (arith, ==→≢ _ _ e)),
          )))
