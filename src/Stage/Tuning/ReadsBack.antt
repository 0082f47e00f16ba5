-- ===== src/Stage/Tuning/ReadsBack.antt =====
-- A value that the service has set on a stage reads back: Service/Tuning over Stage/Tuning.
use zmk_pointing_tools.Base.{
  if-elim, sym, Errno, Option, ap, ◌∙◌, Bool-cases, inl, true≢false, is_error, arith, not, erange,
  Option-cases, Status, true, some, enoent, List, subst, false, [], none, success, inr, err,
  if◌then◌else◌, ◌≡◌, ◌⊎◌, ◌∷◌, ℕ,
}
use zmk_pointing_tools.Service.Tuning.{
  TuningParameter, validate_value_update, value_in_range, has_value, TuningValue,
  tuning_parameter_get,
}
use zmk_pointing_tools.Stage.Tuning.{
  apply_prepared, check_candidate, stage_tuning_prepare, binding_get, TuningBinding,
  validate_candidate, binding_set_many, put_values, TuningOps,
}
use zmk_pointing_tools.Stage.Tuning.Backs.{IsSwitch, IsSwitch-field}
use zmk_pointing_tools.Stage.Tuning.Fields.{field_put, field_get, Field}
use zmk_pointing_tools.Base.Int.{ℤ}

pub validate_value_update_lem :
    (parameters : List TuningParameter) (v : TuningValue)
    → is_error (validate_value_update parameters [] v) ≡ false
    → (p : TuningParameter) × (tuning_parameter_get parameters v.parameter_id ≡ some p)
      × (value_in_range p v.value ≡ true)
unfolding validate_value_update has_value
validate_value_update_lem parameters v h =
    elim (Option-cases (tuning_parameter_get parameters v.parameter_id)) [
      | inl e ↦ absurd (
          true≢false (
            subst
              (λ o.
                is_error (elim o [
                  | none ↦ err enoent
                  | some p ↦ if not (value_in_range p v.value) then err erange else success
                ])
                ≡ false)
              e h))
      | inr (p, e) ↦ (
        p,
        e,
        in_range p (
            subst
              (λ o.
                is_error (elim o [
                  | none ↦ err enoent
                  | some p ↦ if not (value_in_range p v.value) then err erange else success
                ])
                ≡ false)
              e h),
      )
    ]
  where
    in_range :
        (p : TuningParameter)
        → is_error (if not (value_in_range p v.value) then err erange else success) ≡ false
        → value_in_range p v.value ≡ true
    in_range p h = elim (Bool-cases (value_in_range p v.value)) [
      | inl e ↦ e
      | inr e ↦
          absurd
            (true≢false (subst (λ b. is_error (if not b then err erange else success) ≡ false) e h))
    ]

module _ {C : Type 0} where
  -- Operations that are the switches of a table.
  abbrev pub IsServed : TuningOps C → Type 0
  IsServed ops =
      (fields : List (Field C)) × IsSwitch 0 ops.parameters fields
      × (ops.get ≡ field_get fields)
      × (ops.put ≡ field_put fields)

  put_one :
      (ops : TuningOps C) (config : C) (v : TuningValue) (p : TuningParameter)
      → IsServed ops
      → tuning_parameter_get ops.parameters v.parameter_id ≡ some p
      → value_in_range p v.value ≡ true
      → (next : C) × (put_values ops config (v ∷ []) ≡ inr next)
        × (ops.get next v.parameter_id ≡ inr v.value)
  unfolding put_values field_get field_put
  put_one ops config v p (fields, t, e_get, e_put) found fits =
      let (f, at, back) =
        IsSwitch-field 0 v.parameter_id ops.parameters fields p t
          (subst (λ j. tuning_parameter_get ops.parameters j ≡ some p) (omega arith) found) in
      let next = f.write config v.value in
      let stored : ops.put config v.parameter_id v.value ≡ inr next =
        ap (λ (g : C → ℕ → ℤ → Errno ⊎ C). g config v.parameter_id v.value) e_put
        ∙ ap
            (λ (o : Option (Field C)). elim o [
              | none ↦ inl enoent
              | some f ↦ inr (f.write config v.value)
            ])
            at in
      let read : ops.get next v.parameter_id ≡ inr (f.read next) =
        ap (λ (g : C → ℕ → Errno ⊎ ℤ). g next v.parameter_id) e_get
        ∙ ap (λ (o : Option (Field C)). elim o [ none ↦ inl enoent | some f ↦ inr (f.read next) ])
            at in
      (
        next,
        ap (λ (r : Errno ⊎ C). elim r [ inl e ↦ inl (e, v.parameter_id) | inr next ↦ inr next ])
            stored,
        read ∙ ap inr (back config v.value fits),
      )

  -- The part of the platform that the reading back relies on: an application that succeeds copies.
  abbrev pub IsCopying : (C → C → C × Status) → Type 0
  IsCopying apply =
      (current candidate : C)
      → (is_error (apply current candidate).1 ≡ true) ⊎ ((apply current candidate).0 ≡ candidate)

  -- What a set of values that ends without an error has done.
  apply_prepared_lem :
      (binding : TuningBinding C) (next : C)
      → IsCopying binding.apply
      → is_error (apply_prepared binding (check_candidate binding.ops (inr next))).1.0 ≡ false
      → (apply_prepared binding (check_candidate binding.ops (inr next))).0
        ≡ record binding { current = next }
  unfolding apply_prepared check_candidate
  apply_prepared_lem binding next copying =
      if-elim
        (λ r.
          is_error (apply_prepared binding r).1.0 ≡ false
          → (apply_prepared binding r).0 ≡ record binding { current = next })
        (is_error (validate_candidate binding.ops next).0) _ _
        (λ e. λ done. absurd (true≢false (sym e ∙ done)))
        (λ e. λ done. elim (copying binding.current next) [
          | inl failed ↦ absurd (true≢false (sym failed ∙ done))
          | inr same ↦ ap (λ (c : C). record binding { current = c }) same
        ])

  -- A binding that has set a value has it as the current one.
  pub binding_set_one :
      (binding : TuningBinding C) (v : TuningValue) (p : TuningParameter)
      → IsServed binding.ops
      → IsCopying binding.apply
      → tuning_parameter_get binding.ops.parameters v.parameter_id ≡ some p
      → value_in_range p v.value ≡ true
      → is_error (binding_set_many binding (v ∷ [])).1.0 ≡ false
      → binding_get (binding_set_many binding (v ∷ [])).0 v.parameter_id false ≡ inr v.value
  unfolding binding_set_many binding_get stage_tuning_prepare
  binding_set_one binding v p served copying found fits done =
      let (next, put, get) = put_one binding.ops binding.current v p served found fits in
      let P : (Errno × ℕ) ⊎ C → Type 0 = λ r.
        is_error (apply_prepared binding (check_candidate binding.ops r)).1.0 ≡ false
        → binding_get (apply_prepared binding (check_candidate binding.ops r)).0 v.parameter_id
            false
          ≡ inr v.value in
      subst P (sym put)
        (λ applied.
          ap (λ (b : TuningBinding C). binding_get b v.parameter_id false)
            (apply_prepared_lem binding next copying applied)
          ∙ get)
        done
