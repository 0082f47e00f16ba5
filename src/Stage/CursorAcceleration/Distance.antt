-- ===== src/Stage/CursorAcceleration/Distance.antt =====
-- The distance from an estimate to a target, of which a share is taken (Stage/CursorAcceleration/Speed).
use zmk_pointing_tools.Base.{
  inr, inl, ◌⊎◌, ℕ, ◌≤◌, ◌*◌, ◌/◌, ◌-◌, ◌≡◌, arith, refl, ◌+◌, ◌<◌, sym, ap, ◌∙◌,
}
use zmk_pointing_tools.Base.Int.{
  pos, negsuc, neg_part, eq_of_parts, int_laws, parts_disjoint, tdiv, *ℤ_pos_parts, tdiv_parts,
  pos_part, nat_abs, ◌+ℤ◌, ◌-ℤ◌, ◌*ℤ◌, ◌≤ℤ◌, ℤ,
}
use native.Mathlib.Nat.{mul-add}
use zmk_pointing_tools.Core.Fixed.{fixed_one}

share : (a w : ℕ) → w ≤ fixed_one → a * w / fixed_one ≤ a
share a w h = grind arith

-- Between two numbers, in either order.
abbrev pub IsBetween : ℤ → ℤ → ℤ → Type 0
IsBetween a b c = ((a ≤ℤ c) × (c ≤ℤ b)) ⊎ ((b ≤ℤ c) × (c ≤ℤ a))

pub weight_pos : (d : ℕ) → d ≤ fixed_one → pos fixed_one -ℤ pos d ≡ pos (fixed_one - d)
weight_pos d h = eq_of_parts _ _ (omega (int_laws, parts_disjoint (pos fixed_one -ℤ pos d)))

pub toward :
    (speed target : ℤ) (w : ℕ)
    → w ≤ fixed_one
    → IsBetween speed target (speed +ℤ tdiv ((target -ℤ speed) *ℤ pos w) fixed_one)
toward speed target w h =
    let d = target -ℤ speed in
    let (p, n) = *ℤ_pos_parts d w in
    let (p', n') = tdiv_parts (d *ℤ pos w) fixed_one in
    let p_le : pos_part (tdiv (d *ℤ pos w) fixed_one) ≤ pos_part d =
      rw (p', p) (share (pos_part d) w h) in
    let n_le : neg_part (tdiv (d *ℤ pos w) fixed_one) ≤ neg_part d =
      rw (n', n) (share (neg_part d) w h) in
    elim (parts_disjoint d) [
      | inl e ↦ inr (omega (int_laws, p_le, n_le, e), omega (int_laws, p_le, n_le, e))
      | inr e ↦ inl (omega (int_laws, p_le, n_le, e), omega (int_laws, p_le, n_le, e))
    ]

-- The part of the distance to the frame's speed that is left, of `kept` in one, rounded up.
abbrev pub IsLeft : (kept : ℕ) → (old target next : ℤ) → Type 0
IsLeft kept old target next =
    (nat_abs (target -ℤ old) * kept ≤ nat_abs (target -ℤ next) * fixed_one)
    × (nat_abs (target -ℤ next) * fixed_one < nat_abs (target -ℤ old) * kept + fixed_one)

pub nat_abs-parts : (a : ℤ) → nat_abs a ≡ pos_part a + neg_part a
nat_abs-parts (pos n) = omega arith
nat_abs-parts (negsuc n) = omega arith

-- What rounding down a share leaves.
pub left_over :
    (a kept : ℕ)
    → kept ≤ fixed_one
    → (a * kept ≤ (a - a * (fixed_one - kept) / fixed_one) * fixed_one)
      × ((a - a * (fixed_one - kept) / fixed_one) * fixed_one < a * kept + fixed_one)
left_over a kept h =
    let whole : a * (fixed_one - kept) + a * kept ≡ a * fixed_one =
      sym (mul-add a (fixed_one - kept) kept) ∙ ap (λ n. a * n) (omega arith) in
    omega (arith, whole, share a (fixed_one - kept))

pub toward_left :
    (speed target : ℤ) (w : ℕ)
    → w ≤ fixed_one
    → nat_abs (target -ℤ (speed +ℤ tdiv ((target -ℤ speed) *ℤ pos w) fixed_one))
      ≡ nat_abs (target -ℤ speed) - nat_abs (target -ℤ speed) * w / fixed_one
toward_left speed target w h =
    let d = target -ℤ speed in
    let (p, n) = *ℤ_pos_parts d w in
    let (p', n') = tdiv_parts (d *ℤ pos w) fixed_one in
    let next = speed +ℤ tdiv (d *ℤ pos w) fixed_one in
    let p_share : pos_part (tdiv (d *ℤ pos w) fixed_one) ≡ pos_part d * w / fixed_one =
      rw (p', p) refl in
    let n_share : neg_part (tdiv (d *ℤ pos w) fixed_one) ≡ neg_part d * w / fixed_one =
      rw (n', n) refl in
    let size = nat_abs-parts d in
    let size' = nat_abs-parts (target -ℤ next) in
    let p_le = share (pos_part d) w h in
    let n_le = share (neg_part d) w h in
    elim (parts_disjoint d) [
      | inl e ↦
          let same : nat_abs d * w / fixed_one ≡ neg_part d * w / fixed_one =
            ap (λ a. a * w / fixed_one) (omega (arith, size, e)) in
          omega (
            int_laws,
            size,
            size',
            p_share,
            n_share,
            p_le,
            n_le,
            e,
            same,
            parts_disjoint (target -ℤ next),
          )
      | inr e ↦
          let same : nat_abs d * w / fixed_one ≡ pos_part d * w / fixed_one =
            ap (λ a. a * w / fixed_one) (omega (arith, size, e)) in
          omega (
            int_laws,
            size,
            size',
            p_share,
            n_share,
            p_le,
            n_le,
            e,
            same,
            parts_disjoint (target -ℤ next),
          )
    ]
