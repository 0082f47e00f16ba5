-- ===== src/Source/DeviceCaps/Range.antt =====
-- The resolution that a sensor with a range of values takes.
use native.Mathlib.Nat.{mul-le-mul_right, mod-add-div', lt-div-mul-add, suc-mul}
use zmk_pointing_tools.Base.{
  arith, inr, false, true, inl, Errno, ℕ, suc, ◌==◌, if◌then◌else◌, ◌^◌, ◌≤◌, ◌<◌, ◌≡◌, ◌⊎◌, ◌+◌,
  ◌*◌, ◌-◌, ◌/◌, refl, subst, ap, ◌∙◌, sym, if-elim, leb, ltb, ◌||◌, leb→le, leb→gt,
}
use zmk_pointing_tools.Source.DeviceCaps.{
  snap_range_point, CpiCapabilities, cpi_validate, distance, validate_range,
}

-- The greatest value of the range, or a value that is whole steps from the least one.
abbrev pub IsSupported : CpiCapabilities → ℕ → Type 0
IsSupported caps effective =
    (effective ≡ caps.range_max)
    ⊎ ((k : ℕ) × (effective ≡ caps.range_min + k * caps.range_step) × (effective ≤ caps.range_max))

-- No farther from the request than a point, and the lower one if they are as far.
abbrev pub IsPreferred : (requested point effective : ℕ) → Type 0
IsPreferred requested point effective =
    (distance effective requested < distance point requested)
    ⊎ ((distance effective requested ≡ distance point requested) × (effective ≤ point))

-- The answer to a request, beside a point of the grid.
abbrev pub IsSnapped : CpiCapabilities → (requested point : ℕ) → Errno ⊎ (ℕ × ℕ) → Type 0
IsSnapped caps requested point (inl e) = ⊥
IsSnapped caps requested point (inr (effective, status)) =
    IsSupported caps effective
    × IsPreferred requested point effective
    × (status ≡ (if effective == requested then 0 else 1))

le_or_gt : (a b : ℕ) → (a ≤ b) ⊎ (suc b ≤ a)
le_or_gt a b = ground arith

-- A multiple of the step is at most the one below an offset, or at least the one above it.
around :
    (k step offset : ℕ)
    → (k * step ≤ offset / step * step) ⊎ (offset / step * step + step ≤ k * step)
around k step offset = elim (le_or_gt k (offset / step)) [
  | inl e ↦ inl (mul-le-mul_right step e)
  | inr e ↦ inr (subst (λ n. n ≤ k * step) (suc-mul (offset / step) step) (mul-le-mul_right step e))
]

-- The point below an offset from the least value, or the one above it, where that is in range and nearer.
abbrev IsChosen : CpiCapabilities → (requested offset below : ℕ) → ℕ × ℕ → Type 0
IsChosen caps requested offset below (effective, status) =
    (below ≤ offset)
    × (offset < below + caps.range_step)
    × (((effective ≡ caps.range_min + below)
          × ((offset - below ≤ below + caps.range_step - offset)
              ⊎ (caps.range_max < caps.range_min + (below + caps.range_step))))
        ⊎ ((effective ≡ caps.range_min + (below + caps.range_step))
            × (effective ≤ caps.range_max)
            × (below + caps.range_step - offset < offset - below)))
    × (status ≡ (if effective == requested then 0 else 1))

snap-IsChosen :
    (caps : CpiCapabilities) (requested : ℕ)
    → 0 < caps.range_step
    → caps.range_min < requested
    → requested < caps.range_max
    → caps.range_max < 2 ^ 16
    → IsChosen caps requested
        (requested - caps.range_min)
        ((requested - caps.range_min) / caps.range_step * caps.range_step)
        (snap_range_point caps requested)
unfolding snap_range_point
snap-IsChosen caps requested step low high bound =
    let offset = requested - caps.range_min in
    let parts = mod-add-div' offset caps.range_step in
    let above = lt-div-mul-add {a = offset} {b = caps.range_step} step in
    ground (arith, parts, above)

-- The chosen point is preferred to each other one.
chosen-IsPreferred :
    (caps : CpiCapabilities) (requested below point : ℕ) (chosen : ℕ × ℕ)
    → caps.range_min < requested
    → (point ≤ below) ⊎ (below + caps.range_step ≤ point)
    → caps.range_min + point ≤ caps.range_max
    → IsChosen caps requested (requested - caps.range_min) below chosen
    → IsPreferred requested (caps.range_min + point) chosen.0
chosen-IsPreferred caps requested below point chosen low side inside h = ground arith

snap-IsSnapped :
    (caps : CpiCapabilities) (requested k : ℕ)
    → 0 < caps.range_step
    → caps.range_min < requested
    → requested < caps.range_max
    → caps.range_max < 2 ^ 16
    → caps.range_min + k * caps.range_step ≤ caps.range_max
    → IsSnapped caps requested
        (caps.range_min + k * caps.range_step)
        (inr (snap_range_point caps requested))
snap-IsSnapped caps requested k step low high bound inside =
    let offset = requested - caps.range_min in
    let chosen = snap-IsChosen caps requested step low high bound in
    let (below, above, which, status) = chosen in
    (
      elim which [
        | inl (e, c) ↦ inr (offset / caps.range_step, e, omega (arith, e, below, high, low))
        | inr (e, le, c) ↦ inr (
          suc (offset / caps.range_step),
          e
              ∙ ap (λ n. caps.range_min + n)
                  (sym (suc-mul (offset / caps.range_step) caps.range_step)),
          le,
        )
      ],
      chosen-IsPreferred caps requested (offset / caps.range_step * caps.range_step)
          (k * caps.range_step) (snap_range_point caps requested) low
          (around k caps.range_step offset) inside chosen,
      status,
    )

-- The ends of the range, for a request that is not between them.
end-IsSnapped :
    (caps : CpiCapabilities) (requested k : ℕ)
    → caps.range_min ≤ caps.range_max
    → caps.range_min + k * caps.range_step ≤ caps.range_max
    → requested ≤ caps.range_min
    → IsSnapped caps requested
        (caps.range_min + k * caps.range_step)
        (inr (caps.range_min, if caps.range_min == requested then 0 else 1))
end-IsSnapped caps requested k order inside low = (inr (0, ground arith, order), ground arith, refl)

top-IsSnapped :
    (caps : CpiCapabilities) (requested k : ℕ)
    → caps.range_min + k * caps.range_step ≤ caps.range_max
    → caps.range_max ≤ requested
    → IsSnapped caps requested
        (caps.range_min + k * caps.range_step)
        (inr (caps.range_max, if caps.range_max == requested then 0 else 1))
top-IsSnapped caps requested k inside high = (inl refl, ground arith, refl)

-- A settable sensor with a well-formed range answers every request with a supported value: its greatest one, or one that is whole
-- steps from its least one. No value that is whole steps from the least one and in the range is nearer to
-- the request, and none as near is lower. The status is 0 exactly if the answer is the request, and else 1.
pub range-IsSnapped :
    (caps : CpiCapabilities) (requested k : ℕ)
    → caps.settable ≡ true
    → caps.discrete ≡ false
    → 0 < caps.range_step
    → caps.range_min ≤ caps.range_max
    → caps.range_max < 2 ^ 16
    → caps.range_min + k * caps.range_step ≤ caps.range_max
    → IsSnapped caps requested (caps.range_min + k * caps.range_step) (cpi_validate caps requested)
unfolding cpi_validate validate_range
range-IsSnapped caps requested k settable discrete step order bound inside =
    let P : Errno ⊎ (ℕ × ℕ) → Type 0 =
      IsSnapped caps requested (caps.range_min + k * caps.range_step) in
    rw (settable, discrete, validate_range)
      (if-elim P (caps.range_step == 0 || ltb caps.range_max caps.range_min) _ _
        (λ e. absurd (ground arith))
        (λ e.
          if-elim P (leb requested caps.range_min) _ _
            (λ low. end-IsSnapped caps requested k order inside (leb→le _ _ low))
            (λ above.
              if-elim P (leb caps.range_max requested) _ _
                (λ high. top-IsSnapped caps requested k inside (leb→le _ _ high))
                (λ below.
                  snap-IsSnapped caps requested k step (leb→gt _ _ above) (leb→gt _ _ below) bound
                    inside))))
