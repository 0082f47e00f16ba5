-- ===== src/Source/MotionSource/Sums.antt =====
-- The counts of a frame are the sums of what was added, unless the frame says that it was clipped.
use zmk_pointing_tools.Base.{
  sym, if_false, some_inj, Bool-cases, not, ap, some, ◌∙◌, inr, false, List, true, inl, arith, [],
  ◌≡◌, ◌⊎◌, ◌∷◌,
}
use zmk_pointing_tools.Base.Int.{pos, eq_of_parts, int_laws, ℤ, ◌+ℤ◌}
use zmk_pointing_tools.Core.Signal.{Payload, raw_counts, Flags, or_flags}
use zmk_pointing_tools.Source.MotionSource.{
  frame_assembler_reset, frame_assembler_take, axis_x, MotionAxis, FrameAssembler, add_counts,
  frame_assembler_add, axis_y,
}

-- Axis events in the order in which they come.
unfoldable pub add_all : List (MotionAxis × ℤ) → FrameAssembler → FrameAssembler
add_all [] assembler = assembler
add_all ((axis, counts) ∷ rest) assembler = add_all rest (frame_assembler_add assembler axis counts)

-- The exact sum of one axis's counts.
unfoldable pub sum_x : List (MotionAxis × ℤ) → ℤ
sum_x [] = pos 0
sum_x ((axis_x, counts) ∷ rest) = counts +ℤ sum_x rest
sum_x ((axis_y, counts) ∷ rest) = sum_x rest

unfoldable pub sum_y : List (MotionAxis × ℤ) → ℤ
sum_y [] = pos 0
sum_y ((axis_x, counts) ∷ rest) = sum_y rest
sum_y ((axis_y, counts) ∷ rest) = counts +ℤ sum_y rest

-- Either the sum is exact and the flags are as before, or the clipped flag is set.
add_counts-cases :
    (lhs rhs : ℤ) (flags : Flags)
    → ((add_counts lhs rhs flags ≡ (lhs +ℤ rhs, flags)))
      ⊎ ((add_counts lhs rhs flags).1.clipped ≡ true)
unfolding add_counts or_flags
add_counts-cases lhs rhs flags = ground arith

add_counts-keeps_clipped :
    (lhs rhs : ℤ) (flags : Flags)
    → flags.clipped ≡ true
    → (add_counts lhs rhs flags).1.clipped ≡ true
unfolding add_counts or_flags
add_counts-keeps_clipped lhs rhs flags c = ground arith

add_all-keeps_clipped :
    (events : List (MotionAxis × ℤ)) (assembler : FrameAssembler)
    → assembler.flags.clipped ≡ true
    → (add_all events assembler).flags.clipped ≡ true
unfolding add_all frame_assembler_add
add_all-keeps_clipped [] assembler c = c
add_all-keeps_clipped ((axis_x, counts) ∷ rest) assembler c =
    add_all-keeps_clipped rest _
      (add_counts-keeps_clipped assembler.x_counts counts assembler.flags c)
add_all-keeps_clipped ((axis_y, counts) ∷ rest) assembler c =
    add_all-keeps_clipped rest _
      (add_counts-keeps_clipped assembler.y_counts counts assembler.flags c)

+ℤ_assoc : (a b c : ℤ) → a +ℤ b +ℤ c ≡ a +ℤ (b +ℤ c)
+ℤ_assoc a b c = eq_of_parts _ _ (omega int_laws)

zero_+ℤ : (a : ℤ) → pos 0 +ℤ a ≡ a
zero_+ℤ a = eq_of_parts _ _ (omega int_laws)

add_all-sums :
    (events : List (MotionAxis × ℤ)) (assembler : FrameAssembler)
    → (add_all events assembler).flags.clipped ≡ false
    → ((add_all events assembler).x_counts ≡ assembler.x_counts +ℤ sum_x events)
      × ((add_all events assembler).y_counts ≡ assembler.y_counts +ℤ sum_y events)
unfolding add_all frame_assembler_add sum_x sum_y
add_all-sums [] assembler c = (eq_of_parts _ _ (omega int_laws), eq_of_parts _ _ (omega int_laws))
add_all-sums ((axis_x, counts) ∷ rest) assembler c =
    elim (add_counts-cases assembler.x_counts counts assembler.flags) [
      | inl exact ↦
          let (x_sum, y_sum) = add_all-sums rest (frame_assembler_add assembler axis_x counts) c in
          (
            x_sum
                ∙ ap (λ (a : ℤ × Flags). a.0 +ℤ sum_x rest) exact
                ∙ +ℤ_assoc assembler.x_counts counts (sum_x rest),
            y_sum,
          )
      | inr clips ↦
          absurd (
            ground
              (arith, add_all-keeps_clipped rest (frame_assembler_add assembler axis_x counts)))
    ]
add_all-sums ((axis_y, counts) ∷ rest) assembler c =
    elim (add_counts-cases assembler.y_counts counts assembler.flags) [
      | inl exact ↦
          let (x_sum, y_sum) = add_all-sums rest (frame_assembler_add assembler axis_y counts) c in
          (
            x_sum,
            y_sum
                ∙ ap (λ (a : ℤ × Flags). a.0 +ℤ sum_y rest) exact
                ∙ +ℤ_assoc assembler.y_counts counts (sum_y rest),
          )
      | inr clips ↦
          absurd (
            ground
              (arith, add_all-keeps_clipped rest (frame_assembler_add assembler axis_y counts)))
    ]

-- A frame that is taken after any axis events without the clipped flag has the exact sums of their
-- counts, and leaves an empty frame.
pub take-sums :
    (events : List (MotionAxis × ℤ)) {motion : Payload} {flags : Flags} {left : FrameAssembler}
    → frame_assembler_take (add_all events frame_assembler_reset) ≡ some (left, motion, flags)
    → flags.clipped ≡ false
    → (motion ≡ raw_counts (sum_x events) (sum_y events)) × (left ≡ frame_assembler_reset)
unfolding frame_assembler_take
take-sums events e c = elim (Bool-cases (add_all events frame_assembler_reset).saw_axis) [
  | inl saw ↦
      let taken = some_inj (
        sym (if_false {b = not (add_all events frame_assembler_reset).saw_axis} _ _ (ground arith))
        ∙ e) in
      let (x_sum, y_sum) =
        add_all-sums events frame_assembler_reset
          (ap (λ (t : FrameAssembler × Payload × Flags). t.2.clipped) taken ∙ c) in
      (
        sym (ap (λ (t : FrameAssembler × Payload × Flags). t.1) taken)
            ∙ ap (λ x. raw_counts x (add_all events frame_assembler_reset).y_counts)
                (x_sum ∙ zero_+ℤ (sum_x events))
            ∙ ap (raw_counts (sum_x events)) (y_sum ∙ zero_+ℤ (sum_y events)),
        sym (ap (λ (t : FrameAssembler × Payload × Flags). t.0) taken),
      )
  | inr unseen ↦ absurd (ground arith)
]
