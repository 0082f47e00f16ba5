-- ===== src/Stage/Tuning/Tunable.antt =====
-- The stages whose configuration can be set at run time, in src/stage/stage_tuning.c: through the
-- service of Service/Tuning, a value that is set on one of them reads back.
use zmk_pointing_tools.Base.{
  suc, set, sym, subst, enoent, true≢false, zero, inl, length, enodev, err, if_true, get_elem?,
  get_elem?-set_self, ◌<◌, ◌∙◌, Option, [], Status, arith, none, ap, success, ◌∷◌, if-elim, false,
  refl, is_error, inr, ltb, List, some, ◌≡◌, ℕ,
}
use zmk_pointing_tools.Base.Int.{ℤ}
use zmk_pointing_tools.Service.Tuning.{
  tuning_parameter_get, TuningParameter, validate_values, validate_value_update, target_set_many,
  set_validated, TuningValue, tuning_set, TuningTarget, tuning_target_get, tuning_get,
  tuning_set_many,
}
use zmk_pointing_tools.Stage.AxisConstraint.{AxisConstraintConfig}
use zmk_pointing_tools.Stage.AxisIntentStage.{AxisIntentStageConfig}
use zmk_pointing_tools.Stage.CursorAcceleration.Curve.{AccelerationConfig}
use zmk_pointing_tools.Stage.CursorCoalescer.{CursorCoalescerConfig}
use zmk_pointing_tools.Stage.CursorTransfer.{CursorTransferConfig}
use zmk_pointing_tools.Stage.MotionGateStage.{GateStageConfig}
use zmk_pointing_tools.Stage.ScrollBatcher.{ScrollBatcherConfig}
use zmk_pointing_tools.Stage.TextNav.{TextNavConfig}
use zmk_pointing_tools.Stage.Tuning.{
  binding_set_many, String, TuningOps, max_config_size, stage_target, TuningBinding,
  stage_tuning_target_init,
}
use zmk_pointing_tools.Stage.Tuning.Acceleration.{
  acceleration_fields, cursor_acceleration_tuning_ops,
}
use zmk_pointing_tools.Stage.Tuning.Axis.{
  axis_constraint_tuning_ops, constraint_fields, intent_fields, axis_intent_tuning_ops,
}
use zmk_pointing_tools.Stage.Tuning.Gate.{gate_fields, coherent_displacement_tuning_ops}
use zmk_pointing_tools.Stage.Tuning.Output.{
  text_fields, scroll_fields, text_nav_tuning_ops, scroll_batcher_tuning_ops,
}
use zmk_pointing_tools.Stage.Tuning.Pointer.{
  transfer_fields, coalescer_fields, cursor_coalescer_tuning_ops, cursor_transfer_tuning_ops,
}
use zmk_pointing_tools.Stage.Tuning.ReadsBack.{
  validate_value_update_lem, binding_set_one, IsCopying, IsServed,
}
use zmk_pointing_tools.Stage.Tuning.Tables.{
  scroll-IsSwitch, gate-IsSwitch, text-IsSwitch, acceleration-IsSwitch, intent-IsSwitch,
  transfer-IsSwitch, coalescer-IsSwitch, constraint-IsSwitch,
}

-- One for each zpt_*_tuning_ops.
pub data Tunable : Type 0 where
  tune_gate tune_transfer tune_scroll tune_text : Tunable
  tune_intent tune_constraint tune_acceleration tune_coalescer : Tunable

abbrev pub ConfigOf : Tunable → Type 0
ConfigOf tune_gate = GateStageConfig
ConfigOf tune_transfer = CursorTransferConfig
ConfigOf tune_scroll = ScrollBatcherConfig
ConfigOf tune_text = TextNavConfig
ConfigOf tune_intent = AxisIntentStageConfig
ConfigOf tune_constraint = AxisConstraintConfig
ConfigOf tune_acceleration = AccelerationConfig
ConfigOf tune_coalescer = CursorCoalescerConfig

abbrev pub ops_of : (stage : Tunable) → ℕ → TuningOps (ConfigOf stage)
ops_of tune_gate config_size = coherent_displacement_tuning_ops config_size
ops_of tune_transfer config_size = cursor_transfer_tuning_ops config_size
ops_of tune_scroll config_size = scroll_batcher_tuning_ops config_size
ops_of tune_text config_size = text_nav_tuning_ops config_size
ops_of tune_intent config_size = axis_intent_tuning_ops config_size
ops_of tune_constraint config_size = axis_constraint_tuning_ops config_size
ops_of tune_acceleration config_size = cursor_acceleration_tuning_ops config_size
ops_of tune_coalescer config_size = cursor_coalescer_tuning_ops config_size

ops_of-IsServed : (stage : Tunable) (config_size : ℕ) → IsServed (ops_of stage config_size)
unfolding coherent_displacement_tuning_ops cursor_transfer_tuning_ops scroll_batcher_tuning_ops
    text_nav_tuning_ops axis_intent_tuning_ops axis_constraint_tuning_ops
    cursor_acceleration_tuning_ops cursor_coalescer_tuning_ops
ops_of-IsServed tune_gate config_size = (gate_fields, gate-IsSwitch, refl, refl)
ops_of-IsServed tune_transfer config_size = (transfer_fields, transfer-IsSwitch, refl, refl)
ops_of-IsServed tune_scroll config_size = (scroll_fields, scroll-IsSwitch, refl, refl)
ops_of-IsServed tune_text config_size = (text_fields, text-IsSwitch, refl, refl)
ops_of-IsServed tune_intent config_size = (intent_fields, intent-IsSwitch, refl, refl)
ops_of-IsServed tune_constraint config_size = (constraint_fields, constraint-IsSwitch, refl, refl)
ops_of-IsServed tune_acceleration config_size =
    (acceleration_fields, acceleration-IsSwitch, refl, refl)
ops_of-IsServed tune_coalescer config_size = (coalescer_fields, coalescer-IsSwitch, refl, refl)

target_of_init :
    {C : Type 0} (address : ℕ) (binding : TuningBinding C) (stable_id devicetree_path : String)
    (target : TuningTarget (TuningBinding C))
    → stage_tuning_target_init address binding stable_id devicetree_path ≡ some target
    → stage_target address binding stable_id devicetree_path ≡ target
unfolding stage_tuning_target_init
target_of_init {C = C} address binding stable_id devicetree_path target =
    if-elim (λ o. o ≡ some target → stage_target address binding stable_id devicetree_path ≡ target)
      (ltb max_config_size binding.ops.config_size) _ _ (λ e. λ same. ground arith)
      (λ e. λ same.
        ap
          (λ (o : Option (TuningTarget (TuningBinding C))). elim o [
            | none ↦ stage_target address binding stable_id devicetree_path
            | some t ↦ t
          ])
          same)

-- The call of the target's set_many, in set_validated.
abbrev called :
    {C : Type 0} → TuningTarget C → TuningValue → ℕ → TuningTarget C × (Status × Option ℕ)
called target v failed =
    let (context, (result, blamed)) = target.set_many target.context (v ∷ []) in
    (
      record target { context = context },
      (result, elim blamed [ none ↦ some failed | some id ↦ some id ]),
    )

-- A target after a set of one value.
target_set_one :
    {C : Type 0} (target : TuningTarget C) (v : TuningValue)
    → is_error (target_set_many target (v ∷ [])).1.0 ≡ false
    → (is_error (validate_value_update target.parameters [] v) ≡ false)
      × (is_error (target.set_many target.context (v ∷ [])).1.0 ≡ false)
      × ((target_set_many target (v ∷ [])).0
          ≡ record target { context = (target.set_many target.context (v ∷ [])).0 })
unfolding target_set_many set_validated validate_values
target_set_one {C = C} target v =
    let ret = validate_value_update target.parameters [] v in
    let id = v.parameter_id in
    if-elim
      (λ (r : Status × Option ℕ).
        is_error (set_validated target (v ∷ []) r).1.0 ≡ false
        → (is_error ret ≡ false)
          × (is_error (target.set_many target.context (v ∷ [])).1.0 ≡ false)
          × ((set_validated target (v ∷ []) r).0
              ≡ record target { context = (target.set_many target.context (v ∷ [])).0 }))
      (is_error ret) (ret, some id) (success, some id)
      (λ e. λ done. absurd (
        true≢false (
          sym e
          ∙ sym (
              ap (λ (r : TuningTarget C × (Status × Option ℕ)). is_error r.1.0)
                (if_true (target, (ret, some id)) (called target v id) e))
          ∙ done)))
      (λ e. λ done. (e, done, refl))

bound_of_some : {A : Type 0} (xs : List A) (i : ℕ) (a : A) → get_elem? xs i ≡ some a → i < length xs
bound_of_some [] i a h = ground arith
bound_of_some (x ∷ xs) zero a h = omega arith
bound_of_some (x ∷ xs) (suc i) a h = omega (arith, bound_of_some xs i a h)

-- A target that is found, and has its parameter.
get_found :
    {C : Type 0} (targets : List (TuningTarget C)) (target : TuningTarget C)
    (target_id parameter_id : ℕ) (p : TuningParameter)
    → tuning_target_get targets target_id ≡ some target
    → tuning_parameter_get target.parameters parameter_id ≡ some p
    → tuning_get targets target_id parameter_id false ≡ target.get target.context parameter_id false
unfolding tuning_get
get_found {C = C} targets target target_id parameter_id p at found =
    ap
      (λ (o : Option (TuningTarget C)). elim o [
        | none ↦ inl enodev
        | some t ↦ elim (tuning_parameter_get t.parameters parameter_id) [
          | none ↦ inl enoent
          | some q ↦ t.get t.context parameter_id false
        ]
      ])
      at
    ∙ ap
        (λ (o : Option TuningParameter). elim o [
          | none ↦ inl enoent
          | some q ↦ target.get target.context parameter_id false
        ])
        found

set_found :
    {C : Type 0} (targets : List (TuningTarget C)) (target : TuningTarget C)
    (target_id parameter_id : ℕ) (value : ℤ)
    → tuning_target_get targets target_id ≡ some target
    → let result =
        target_set_many target (record { parameter_id = parameter_id; value = value } ∷ []) in
      tuning_set targets target_id parameter_id value ≡ (set targets target_id result.0, result.1.0)
unfolding tuning_set tuning_set_many
set_found {C = C} targets target target_id parameter_id value at =
    ap (λ (r : List (TuningTarget C) × (Status × Option ℕ)). (r.0, r.1.0))
      (ap
        (λ (o : Option (TuningTarget C)). elim o [
          | none ↦ (targets, (err enodev, none))
          | some t ↦
              let result =
                target_set_many t (record { parameter_id = parameter_id; value = value } ∷ []) in
              (set targets target_id result.0, result.1)
        ])
        at)

-- A value that the service sets on a stage without an error, where applying a configuration without an error
-- copies it, is then the current value of its parameter.
pub tuning_set-tuning_get :
    (stage : Tunable) (config_size address : ℕ) (binding : TuningBinding (ConfigOf stage))
    (stable_id devicetree_path : String)
    (targets : List (TuningTarget (TuningBinding (ConfigOf stage))))
    (target : TuningTarget (TuningBinding (ConfigOf stage))) (target_id parameter_id : ℕ)
    (value : ℤ)
    → binding.ops ≡ ops_of stage config_size
    → IsCopying binding.apply
    → stage_tuning_target_init address binding stable_id devicetree_path ≡ some target
    → tuning_target_get targets target_id ≡ some target
    → is_error (tuning_set targets target_id parameter_id value).1 ≡ false
    → tuning_get (tuning_set targets target_id parameter_id value).0 target_id parameter_id false
      ≡ inr value
tuning_set-tuning_get stage config_size address binding stable_id devicetree_path targets target
      target_id parameter_id value e copying init at done =
    let v : TuningValue = record { parameter_id = parameter_id; value = value } in
    let own = stage_target address binding stable_id devicetree_path in
    let at_own =
      at ∙ ap some (sym (target_of_init address binding stable_id devicetree_path target init)) in
    let stored = set_found targets own target_id parameter_id value at_own in
    let (valid, applied, after) =
      target_set_one own v (sym (ap (λ r. is_error r.1) stored) ∙ done) in
    let (p, found, fits) = validate_value_update_lem own.parameters v valid in
    let next : TuningTarget (TuningBinding (ConfigOf stage)) = record own {
      context = (binding_set_many binding (v ∷ [])).0;
    } in
    let at_next =
      get_elem?-set_self targets target_id next (bound_of_some targets target_id own at_own) in
    ap (λ ts. tuning_get ts target_id parameter_id false)
      (ap (λ r. r.0) stored ∙ ap (set targets target_id) after)
    ∙ get_found (set targets target_id next) next target_id parameter_id p at_next found
    ∙ binding_set_one binding v p (subst IsServed (sym e) (ops_of-IsServed stage config_size))
        copying found fits applied
