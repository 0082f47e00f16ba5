-- ===== src/Stage/Orientation.antt =====
-- src/stage/orientation.c: the orthogonal mounting transform of raw counts.
use zmk_pointing_tools.Base.{
  zero, true, arith, refl, Bool, ℕ, List, err, none, inr, Errno, false, suc, inl, erange,
  if◌then◌else◌, ◌≡◌, ◌⊎◌, ◌&&◌, ◌^◌, ◌∙◌, sym,
}
use zmk_pointing_tools.Base.Int.{
  pos, eqb_ℤ, negsuc, ℤ, IsInt64, neg_of_ℕ, int64_min, ◌*ℤ◌, ◌+ℤ◌, eq_of_parts, int_laws,
}
use zmk_pointing_tools.Core.Pipeline.Types.{emit, StageApi, finish, Script}
use zmk_pointing_tools.Core.Signal.{only, Signal, raw_counts, raw_motion, payload_y, payload_x}

-- struct zpt_orientation_config
pub record OrientationConfig : Type 0 where
  pub swap_xy : Bool
  pub invert_x : Bool
  pub invert_y : Bool

-- -value
unfoldable pub negate : ℤ → ℤ
negate (pos n) = neg_of_ℕ n
negate (negsuc n) = pos (suc n)

unfoldable pub invert_if_requested : ℤ → Bool → Errno ⊎ ℤ
unfolding negate
invert_if_requested value invert =
    if invert && eqb_ℤ value int64_min
    then inl erange
    else inr (if invert then negate value else value)

unfoldable pub orientation_apply : OrientationConfig → ℤ × ℤ → Errno ⊎ (ℤ × ℤ)
unfolding invert_if_requested
orientation_apply config (x_counts, y_counts) =
    let x = if config.swap_xy then y_counts else x_counts in
    let y = if config.swap_xy then x_counts else y_counts in
    elim (invert_if_requested x config.invert_x) [
      | inl e ↦ inl e
      | inr x' ↦ elim (invert_if_requested y config.invert_y) [
        | inl e ↦ inl e
        | inr y' ↦ inr (x', y')
      ]
    ]

unfoldable pub orthogonal_orientation_process :
    {S : Type 0} → OrientationConfig → S → Signal → ℕ → Script S
unfolding orientation_apply
orthogonal_orientation_process config state signal now_ms =
    elim (orientation_apply config (payload_x signal.payload, payload_y signal.payload)) [
      | inl e ↦ finish state (err e)
      | inr (x, y) ↦ emit (record signal { payload = raw_counts x y }) (λ ret. finish state ret)
    ]

unfoldable pub orthogonal_orientation_stage_api :
    {S : Type 0} → List ℕ → OrientationConfig → StageApi S
orthogonal_orientation_stage_api strategy_id config = record {
  strategy_id = strategy_id;
  accepted_kinds = only raw_motion;
  output_kind = raw_motion;
  stateful = false;
  process = orthogonal_orientation_process config;
  flush = none;
  activate = none;
  deactivate = none;
  reset = none;
}

-- The transform that undoes another: the inversions belong to the axes before the swap.
abbrev inverse : OrientationConfig → OrientationConfig
inverse config = record {
  swap_xy = config.swap_xy;
  invert_x = if config.swap_xy then config.invert_y else config.invert_x;
  invert_y = if config.swap_xy then config.invert_x else config.invert_y;
}

abbrev IsUndone : OrientationConfig → ℤ × ℤ → Errno ⊎ (ℤ × ℤ) → Type 0
IsUndone config motion (inl e) = ⊥
IsUndone config motion (inr motion') =
    IsInt64 motion'.0
    × IsInt64 motion'.1
    × (orientation_apply (inverse config) motion' ≡ inr motion)

invert_self :
    (value : ℤ) (invert : Bool)
    → IsInt64 value
    → eqb_ℤ value int64_min ≡ false
    → (value' : ℤ) × (invert_if_requested value invert ≡ inr value')
      × (invert_if_requested value' invert ≡ inr value)
      × IsInt64 value'
unfolding invert_if_requested negate
invert_self value false h m = (value, ground arith, ground arith, h)
invert_self (pos zero) true h m = (pos 0, ground arith, ground arith, h)
invert_self (pos (suc n)) true h m =
    (negsuc n, ground arith, ground arith, (omega arith, omega arith))
invert_self (negsuc n) true h m =
    (pos (suc n), ground arith, ground arith, (ground arith, omega arith))

abbrev config_of : Bool → Bool → Bool → OrientationConfig
config_of swap_xy invert_x invert_y = record {
  swap_xy = swap_xy;
  invert_x = invert_x;
  invert_y = invert_y;
}

config_of-IsUndone :
    (swap_xy invert_x invert_y : Bool) (x y : ℤ)
    → IsInt64 x
    → IsInt64 y
    → eqb_ℤ x int64_min ≡ false
    → eqb_ℤ y int64_min ≡ false
    → IsUndone
        (config_of swap_xy invert_x invert_y)
        (x, y)
        (orientation_apply (config_of swap_xy invert_x invert_y) (x, y))
unfolding orientation_apply
config_of-IsUndone true invert_x invert_y x y hx hy mx my =
    let (x', ex, ex', ix) = invert_self x invert_y hx mx in
    let (y', ey, ey', iy) = invert_self y invert_x hy my in
    rw (ey, ex, orientation_apply) (iy, ix, rw (ex', ey', orientation_apply) refl)
config_of-IsUndone false invert_x invert_y x y hx hy mx my =
    let (x', ex, ex', ix) = invert_self x invert_x hx mx in
    let (y', ey, ey', iy) = invert_self y invert_y hy my in
    rw (ex, ey, orientation_apply) (ix, iy, rw (ex', ey', orientation_apply) refl)

-- Counts of int64_t other than its least value are transformed without an error into such counts, and
-- the inverse transform gives them back.
orientation_apply-inverse :
    (config : OrientationConfig) (x y : ℤ)
    → IsInt64 x
    → IsInt64 y
    → eqb_ℤ x int64_min ≡ false
    → eqb_ℤ y int64_min ≡ false
    → IsUndone config (x, y) (orientation_apply config (x, y))
orientation_apply-inverse config x y hx hy mx my =
    config_of-IsUndone config.swap_xy config.invert_x config.invert_y x y hx hy mx my

-- The rows of the orthogonal matrix of a configuration: the swap, and then a sign for each resulting axis.
abbrev pub sign : Bool → ℤ
sign true = negsuc 0
sign false = pos 1

abbrev pub matrix : OrientationConfig → (ℤ × ℤ) × (ℤ × ℤ)
matrix config =
    if config.swap_xy
    then ((pos 0, sign config.invert_x), (sign config.invert_y, pos 0))
    else ((sign config.invert_x, pos 0), (pos 0, sign config.invert_y))

unfoldable pub row_times : ℤ × ℤ → ℤ × ℤ → ℤ
row_times (a, b) (x, y) = a *ℤ x +ℤ b *ℤ y

-- The motion times the matrix, where that fits 64 bits; else an error.
abbrev pub IsOriented : OrientationConfig → ℤ × ℤ → Errno ⊎ (ℤ × ℤ) → Type 0
IsOriented config motion (inl e) =
    (e ≡ erange)
    × ((row_times (matrix config).0 motion ≡ pos (2 ^ 63))
        ⊎ (row_times (matrix config).1 motion ≡ pos (2 ^ 63)))
IsOriented config motion (inr (x, y)) =
    (x ≡ row_times (matrix config).0 motion)
    × (y ≡ row_times (matrix config).1 motion)
    × IsInt64 x
    × IsInt64 y

one_times : (a : ℤ) → pos 1 *ℤ a ≡ a
unfolding ◌*ℤ◌
one_times (pos n) = ground arith
one_times (negsuc n) = ground arith

minus_times : (a : ℤ) → negsuc 0 *ℤ a ≡ negate a
unfolding ◌*ℤ◌ negate
minus_times (pos zero) = refl
minus_times (pos (suc n)) = ground arith
minus_times (negsuc n) = ground arith

none_times : (a : ℤ) → pos 0 *ℤ a ≡ pos 0
unfolding ◌*ℤ◌
none_times (pos n) = ground arith
none_times (negsuc n) = ground arith

-- What an inversion answers: the signed value where it fits, and an error where it is 2 ^ 63.
abbrev IsInverted : ℤ → Bool → Errno ⊎ ℤ → Type 0
IsInverted value invert (inl e) = (e ≡ erange) × (sign invert *ℤ value ≡ pos (2 ^ 63))
IsInverted value invert (inr value') = (value' ≡ sign invert *ℤ value) × IsInt64 value'

invert-IsInverted :
    (value : ℤ) (invert : Bool)
    → IsInt64 value
    → IsInverted value invert (invert_if_requested value invert)
unfolding invert_if_requested negate
invert-IsInverted (pos zero) true h = ground (arith, minus_times (pos zero))
invert-IsInverted (pos (suc n)) true h = ground (arith, minus_times (pos (suc n)))
invert-IsInverted (negsuc n) true h = ground (arith, minus_times (negsuc n))
invert-IsInverted value false h = ground (arith, one_times value)

left_times : (a x y : ℤ) → row_times (a, pos 0) (x, y) ≡ a *ℤ x
unfolding row_times
left_times a x y = rw (none_times y) (eq_of_parts _ _ (omega int_laws))

right_times : (a x y : ℤ) → row_times (pos 0, a) (x, y) ≡ a *ℤ y
unfolding row_times
right_times a x y = rw (none_times x) (eq_of_parts _ _ (omega int_laws))

-- The two inversions, the first error first.
in_turn :
    (config : OrientationConfig) (motion : ℤ × ℤ) (vx vy : ℤ) (ix iy : Bool) (a b : Errno ⊎ ℤ)
    → row_times (matrix config).0 motion ≡ sign ix *ℤ vx
    → row_times (matrix config).1 motion ≡ sign iy *ℤ vy
    → IsInverted vx ix a
    → IsInverted vy iy b
    → IsOriented config motion
        (elim a [ inl e ↦ inl e | inr x' ↦ elim b [ inl e ↦ inl e | inr y' ↦ inr (x', y') ] ])
in_turn config motion vx vy ix iy (inl e) b p q (same, h) k = (same, inl (p ∙ h))
in_turn config motion vx vy ix iy (inr x) (inl e) p q h (same, k) = (same, inr (q ∙ k))
in_turn config motion vx vy ix iy (inr x) (inr y) p q (h, hx) (k, ky) =
    (h ∙ sym p, k ∙ sym q, hx, ky)

config_of-IsOriented :
    (swap_xy invert_x invert_y : Bool) (x y : ℤ)
    → IsInt64 x
    → IsInt64 y
    → IsOriented
        (config_of swap_xy invert_x invert_y)
        (x, y)
        (orientation_apply (config_of swap_xy invert_x invert_y) (x, y))
unfolding orientation_apply
config_of-IsOriented true invert_x invert_y x y hx hy =
    in_turn (config_of true invert_x invert_y) (x, y) y x invert_x invert_y _ _
      (right_times (sign invert_x) x y) (left_times (sign invert_y) x y)
      (invert-IsInverted y invert_x hy) (invert-IsInverted x invert_y hx)
config_of-IsOriented false invert_x invert_y x y hx hy =
    in_turn (config_of false invert_x invert_y) (x, y) x y invert_x invert_y _ _
      (left_times (sign invert_x) x y) (right_times (sign invert_y) x y)
      (invert-IsInverted x invert_x hx) (invert-IsInverted y invert_y hy)

-- For counts of int64_t the answer is their product with the configuration's orthogonal matrix, which first
-- swaps the axes and then gives each resulting one a sign. If an axis of the product does not fit int64_t,
-- which is 2 ^ 63 then, the answer is ERANGE, and only then.
pub orientation_apply-IsOriented :
    (config : OrientationConfig) (x y : ℤ)
    → IsInt64 x
    → IsInt64 y
    → IsOriented config (x, y) (orientation_apply config (x, y))
orientation_apply-IsOriented config x y hx hy =
    config_of-IsOriented config.swap_xy config.invert_x config.invert_y x y hx hy
