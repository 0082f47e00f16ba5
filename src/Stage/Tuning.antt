-- ===== src/Stage/Tuning.antt =====
-- The frame of src/stage/stage_tuning.c: how the parameters of a stage are set and reset. `C` is the
-- type of the stage's configuration.
pub mod Units
pub mod Fields
pub mod Gate
pub mod Pointer
pub mod Output
pub mod Axis
pub mod Acceleration
pub mod Backs
pub mod Tables
pub mod ReadsBack
pub mod Tunable
mod Tests
use Prim.Native.String.{String}
use zmk_pointing_tools.Base.{
  inr, Errno, err, [], List, success, ltb, inl, none, is_error, some, Status, Option, if◌then◌else◌,
  ◌-◌, ◌^◌, ◌⊎◌, ◌∷◌, ℕ, Bool,
}
use zmk_pointing_tools.Base.Int.{ℤ}
use zmk_pointing_tools.Service.Tuning.{
  TuningParameter, TuningTarget, target_pipeline_stage, TuningValue,
}

-- struct zpt_stage_tuning_ops. config_size is the compiler's size of a `C`.
pub record TuningOps (C : Type 0) : Type 0 where
  pub parameters : List TuningParameter
  pub config_size : ℕ
  pub get : C → ℕ → Errno ⊎ ℤ
  pub put : C → ℕ → ℤ → Errno ⊎ C
  pub validate : Option (C → Status × Option ℕ)

-- ZPT_STAGE_TUNING_MAX_CONFIG_SIZE, and the size of union zpt_stage_tuning_candidate
abbrev pub max_config_size : ℕ
max_config_size = 96

module _ {C : Type 0} where
  -- The loop of zpt_stage_tuning_prepare: the candidate, or an error with its parameter.
  unfoldable pub put_values : TuningOps C → C → List TuningValue → (Errno × ℕ) ⊎ C
  put_values ops candidate [] = inr candidate
  put_values ops candidate (v ∷ rest) = elim (ops.put candidate v.parameter_id v.value) [
    | inl e ↦ inl (e, v.parameter_id)
    | inr next ↦ put_values ops next rest
  ]

  -- The call of ops->validate, with what it leaves in `failed`.
  abbrev pub validate_candidate : TuningOps C → C → Status × ℕ
  validate_candidate ops candidate = elim ops.validate [
    | none ↦ (success, 2 ^ 8 - 1)
    | some validate ↦
        let (ret, failed) = validate candidate in
        (ret, elim failed [ none ↦ 2 ^ 8 - 1 | some id ↦ id ])
  ]

  -- The candidate, or the status of an error with the parameter to blame.
  unfoldable pub check_candidate : TuningOps C → (Errno × ℕ) ⊎ C → (Status × Option ℕ) ⊎ C
  check_candidate ops (inl (e, parameter_id)) = inl (err e, some parameter_id)
  check_candidate ops (inr candidate) =
      let (ret, failed) = validate_candidate ops candidate in
      if is_error ret then inl (ret, some failed) else inr candidate

  unfoldable pub stage_tuning_prepare : TuningOps C → C → List TuningValue → (Status × Option ℕ) ⊎ C
  unfolding put_values check_candidate
  stage_tuning_prepare ops current values = check_candidate ops (put_values ops current values)

  -- The loop of zpt_stage_tuning_prepare_reset.
  unfoldable pub reset_values : TuningOps C → C → C → List TuningParameter → Errno ⊎ C
  reset_values ops compiled candidate [] = inr candidate
  reset_values ops compiled candidate (p ∷ rest) = elim (ops.get compiled p.id) [
    | inl e ↦ inl e
    | inr value ↦ elim (ops.put candidate p.id value) [
      | inl e ↦ inl e
      | inr next ↦ reset_values ops compiled next rest
    ]
  ]

  unfoldable pub stage_tuning_prepare_reset : TuningOps C → (compiled current : C) → Errno ⊎ C
  unfolding reset_values
  stage_tuning_prepare_reset ops compiled current = reset_values ops compiled current ops.parameters

-- struct zpt_stage_tuning_binding. `apply`, code of the platform, takes the current configuration and a
-- candidate, and answers the current one after it.
pub record TuningBinding (C : Type 0) : Type 0 where
  pub ops : TuningOps C
  pub compiled : C
  pub current : C
  pub apply : C → C → C × Status

module _ {C : Type 0} where
  unfoldable pub binding_get : TuningBinding C → ℕ → Bool → Errno ⊎ ℤ
  binding_get binding parameter_id compiled =
      binding.ops.get (if compiled then binding.compiled else binding.current) parameter_id

  -- binding->apply(binding->current, candidate, size)
  abbrev pub apply_candidate : TuningBinding C → C → TuningBinding C × Status
  apply_candidate binding candidate =
      let (current, ret) = binding.apply binding.current candidate in
      (record binding { current = current }, ret)

  unfoldable pub apply_prepared :
      TuningBinding C → (Status × Option ℕ) ⊎ C → TuningBinding C × (Status × Option ℕ)
  apply_prepared binding (inl failure) = (binding, failure)
  apply_prepared binding (inr candidate) =
      let (binding', ret) = apply_candidate binding candidate in (binding', (ret, none))

  unfoldable pub binding_set_many :
      TuningBinding C → List TuningValue → TuningBinding C × (Status × Option ℕ)
  unfolding stage_tuning_prepare apply_prepared
  binding_set_many binding values =
      apply_prepared binding (stage_tuning_prepare binding.ops binding.current values)

  unfoldable pub binding_reset : TuningBinding C → TuningBinding C × Status
  unfolding stage_tuning_prepare_reset
  binding_reset binding =
      elim (stage_tuning_prepare_reset binding.ops binding.compiled binding.current) [
        | inl e ↦ (binding, err e)
        | inr candidate ↦ apply_candidate binding candidate
      ]

  abbrev pub stage_target :
      (address : ℕ)
      → TuningBinding C
      → (stable_id devicetree_path : String) → TuningTarget (TuningBinding C)
  stage_target address binding stable_id devicetree_path = record {
    address = address;
    target_kind = target_pipeline_stage;
    stable_id = stable_id;
    label = stable_id;
    devicetree_path = devicetree_path;
    parameters = binding.ops.parameters;
    context = binding;
    get = binding_get;
    set_many = binding_set_many;
    reset = binding_reset;
  }

  -- The target at an address, or none for -EINVAL.
  unfoldable pub stage_tuning_target_init :
      (address : ℕ)
      → TuningBinding C
      → (stable_id devicetree_path : String) → Option (TuningTarget (TuningBinding C))
  unfolding binding_get binding_set_many binding_reset
  stage_tuning_target_init address binding stable_id devicetree_path =
      if ltb max_config_size binding.ops.config_size
      then none
      else some (stage_target address binding stable_id devicetree_path)
