-- ===== src/Stage/AxisConstraint/OneAxis.antt =====
-- Stage/AxisConstraint lets no motion off the intended axis pass.
use zmk_pointing_tools.Base.{
  add_u32, ◌==◌, if◌then◌else◌, if-elim, true, not-true, sym, arith, [], refl, true≢false, not,
  false, ◌≡◌, ◌∙◌, ◌∷◌, ℕ, Bool,
}
use zmk_pointing_tools.Base.Int.{pos, ℤ}
use zmk_pointing_tools.Core.Pipeline.Types.{cancel, schedule, Script}
use zmk_pointing_tools.Core.Signal.{
  vertical, payload_x, Signal, free, normalized_motion, horizontal, kind, fixed_vector, kind_eq,
  AxisIntent, payload_y, undecided, Payload,
}
use zmk_pointing_tools.Stage.AxisConstraint.{
  buffer, expiry_interval, AxisConstraintConfig, clear_undecided, AxisConstraint, constrain,
  along_y, folds, emit_zeroed_frame, along_x, begin_constraint, axis_constraint_stage_process,
  schedule_undecided_expiry,
}
use zmk_pointing_tools.Stage.Effect.{Effect, intent_eq, effect}
use zmk_pointing_tools.Stage.Suppression.{suppression_active}

-- No motion off the intended axis, and none at all before there is an intent.
abbrev pub IsAlong : AxisIntent → Payload → Type 0
IsAlong free payload = Unit
IsAlong horizontal payload = payload_y payload ≡ pos 0
IsAlong vertical payload = payload_x payload ≡ pos 0
IsAlong undecided payload = (payload_x payload ≡ pos 0) × (payload_y payload ≡ pos 0)

-- One frame leaves, along the intent.
abbrev pub IsConstrained : AxisIntent → Effect AxisConstraint → Type 0
IsConstrained intent after =
    (out : Signal) × (after.emitted ≡ out ∷ [])
    × IsAlong intent out.payload
    × (kind out ≡ normalized_motion)

zeroed-IsAlong : (intent : AxisIntent) → IsAlong intent (fixed_vector (pos 0) (pos 0))
zeroed-IsAlong free = tt
zeroed-IsAlong horizontal = refl
zeroed-IsAlong vertical = refl
zeroed-IsAlong undecided = (refl, refl)

zeroed-IsConstrained :
    (intent : AxisIntent) (signal : Signal) (state : AxisConstraint)
    → IsConstrained intent (effect (emit_zeroed_frame signal state))
zeroed-IsConstrained intent signal state = (_, refl, zeroed-IsAlong intent, refl)

expiry-IsConstrained :
    (config : AxisConstraintConfig) (now : ℕ) (have_undecided : Bool) (intent : AxisIntent)
    (next : Script AxisConstraint)
    → IsConstrained intent (effect next)
    → IsConstrained intent (effect (schedule_undecided_expiry config now have_undecided next))
unfolding schedule_undecided_expiry
expiry-IsConstrained config now have_undecided intent next h =
    let P : Script AxisConstraint → Type 0 = λ s. IsConstrained intent (effect s) in
    let deadline_ms = add_u32 now (expiry_interval config) in
    if-elim P (expiry_interval config == 0) next
      (if have_undecided then schedule deadline_ms (λ ret. next) else cancel next) (λ e. h)
      (λ e.
        if-elim P have_undecided (schedule deadline_ms (λ ret. next)) (cancel next) (λ e. h)
          (λ e. h))

sum-IsAlong :
    (intent : AxisIntent) (x y x' y' : ℤ)
    → intent_eq intent undecided ≡ false
    → IsAlong intent (
        fixed_vector
          (along_x intent (along_x intent (pos 0) x) x')
          (along_y intent (along_y intent (pos 0) y) y'))
sum-IsAlong free x y x' y' h = tt
sum-IsAlong horizontal x y x' y' h = refl
sum-IsAlong vertical x y x' y' h = refl
sum-IsAlong undecided x y x' y' h = absurd (true≢false h)

frame-IsAlong :
    (intent : AxisIntent) (x y : ℤ)
    → intent_eq intent undecided ≡ false
    → IsAlong intent (fixed_vector (along_x intent (pos 0) x) (along_y intent (pos 0) y))
frame-IsAlong free x y h = tt
frame-IsAlong horizontal x y h = refl
frame-IsAlong vertical x y h = refl
frame-IsAlong undecided x y h = absurd (true≢false h)

constrain-IsConstrained :
    (config : AxisConstraintConfig) (state : AxisConstraint) (now : ℕ) (intent : AxisIntent)
    (signal : Signal)
    → intent_eq intent undecided ≡ false
    → IsConstrained intent (effect (constrain config state now intent signal))
unfolding constrain
constrain-IsConstrained config state now intent signal h =
    if-elim (λ s. IsConstrained intent (effect s)) (folds state) _ _
      (λ e.
        expiry-IsConstrained config now false intent _
          (_, refl, sum-IsAlong intent _ _ _ _ h, refl))
      (λ e. (_, refl, frame-IsAlong intent _ _ h, refl))

undecided_of_eq : (intent : AxisIntent) → intent_eq intent undecided ≡ true → intent ≡ undecided
undecided_of_eq undecided h = refl
undecided_of_eq free h = ground arith
undecided_of_eq horizontal h = ground arith
undecided_of_eq vertical h = ground arith

-- When the calls of process into the runtime succeed, a frame of normalized motion makes it send exactly one
-- frame, of the same kind: without vertical motion under a horizontal intent, without horizontal motion under
-- a vertical one, motion buffered before the intent included, and without any motion while there is no intent.
pub process-IsConstrained :
    (config : AxisConstraintConfig) (state : AxisConstraint) (signal : Signal) (now : ℕ)
    → kind_eq (kind signal) normalized_motion ≡ true
    → IsConstrained signal.annotations.axis_intent
        (effect (axis_constraint_stage_process config state signal now))
unfolding axis_constraint_stage_process
process-IsConstrained config state signal now h =
    let intent = signal.annotations.axis_intent in
    let begun = begin_constraint config state now in
    let P : Script AxisConstraint → Type 0 = λ s. IsConstrained intent (effect s) in
    if-elim P (not (kind_eq (kind signal) normalized_motion)) _ _
      (λ e. absurd (true≢false (sym h ∙ not-true _ e)))
      (λ e.
        if-elim P (suppression_active config.suppression signal now) _ _
          (λ e. zeroed-IsConstrained intent signal (clear_undecided state))
          (λ e.
            if-elim P (intent_eq intent undecided) _ _
              (λ e. expiry-IsConstrained config now true intent _ (
                zeroed-IsConstrained intent signal
                  (buffer begun (payload_x signal.payload) (payload_y signal.payload))))
              (λ e. constrain-IsConstrained config begun now intent signal e)))
