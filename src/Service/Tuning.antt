-- ===== src/Service/Tuning.antt =====
-- src/service/tuning.c: the registry of the targets whose parameters can be set at run time. `C` is
-- what a target's context points to; its callbacks take it and answer it. The size of the registry,
-- from the build's configuration, is an argument. `failed_parameter_id` is an answer: none where
-- nothing is written.
use Prim.Native.String.{String, compare as compare_text}
use text.Mathlib.Text.{is_eq}
use zmk_pointing_tools.Base.{
  set, is_success, not, false, [], Status, success, is_error, err, enomem, get_elem?, ok, true,
  List, none, enodev, some, ltb, Option, leb, enoent, eexist, Errno, erange, length, einval, inl,
  ◌==◌, if◌then◌else◌, ◌+◌, ◌⊎◌, ◌&&◌, ◌||◌, ◌∷◌, ◌++◌, ℕ, Bool,
}
use zmk_pointing_tools.Base.Int.{tmod, ltb_ℤ, eqb_ℤ, ℤ, pos, ◌-ℤ◌}

-- enum zpt_tuning_value_type
pub data TuningValueType : Type 0 where
  integer boolean : TuningValueType

-- struct zpt_tuning_parameter. The limits are int32_t, and so is the step, which is not negative.
pub record TuningParameter : Type 0 where
  pub id : ℕ  -- uint8_t
  pub value_type : TuningValueType
  pub key : String
  pub devicetree_property : String
  pub minimum : ℤ
  pub maximum : ℤ
  pub step : ℕ
  pub label : String
  pub unit : String
  pub description : String

-- struct zpt_tuning_value
pub record TuningValue : Type 0 where
  pub parameter_id : ℕ  -- uint8_t
  pub value : ℤ  -- int32_t

-- enum zpt_tuning_target_kind
pub data TuningTargetKind : Type 0 where
  target_scroll target_text_nav target_noise_filter target_pipeline_stage : TuningTargetKind

-- struct zpt_tuning_target; `address` is its identity.
pub record TuningTarget (C : Type 0) : Type 0 where
  pub address : ℕ
  pub target_kind : TuningTargetKind
  pub stable_id : String
  pub label : String
  pub devicetree_path : String
  pub parameters : List TuningParameter
  pub context : C
  pub get : C → ℕ → Bool → Errno ⊎ ℤ
  pub set_many : C → List TuningValue → C × (Status × Option ℕ)
  pub reset : C → C × Status

abbrev is_boolean : TuningValueType → Bool
is_boolean integer = false
is_boolean boolean = true

-- Whether one of the parameters has the id or the key.
unfoldable pub has_parameter : TuningParameter → List TuningParameter → Bool
has_parameter parameter [] = false
has_parameter parameter (p ∷ rest) =
    p.id == parameter.id || is_eq (compare_text p.key parameter.key) || has_parameter parameter rest

-- The loop of the validation, with the parameters before it.
unfoldable pub validate_parameters_from : List TuningParameter → List TuningParameter → Status
unfolding has_parameter
validate_parameters_from earlier [] = success
validate_parameters_from earlier (p ∷ rest) =
    let later = validate_parameters_from (p ∷ earlier) rest in
    if has_parameter p earlier then err eexist else later

unfoldable pub tuning_parameter_get : List TuningParameter → ℕ → Option TuningParameter
tuning_parameter_get [] parameter_id = none
tuning_parameter_get (p ∷ rest) parameter_id =
    let later = tuning_parameter_get rest parameter_id in
    if p.id == parameter_id then some p else later

-- The limits of a parameter: the checks of validate_value_update that only read the value.
unfoldable pub value_in_range : TuningParameter → ℤ → Bool
value_in_range p value =
    not (
      ltb_ℤ value p.minimum
      || ltb_ℤ p.maximum value
      || (ltb 1 p.step && not (eqb_ℤ (tmod (value -ℤ p.minimum) p.step) (pos 0))))
    && not (is_boolean p.value_type && not (eqb_ℤ value (pos 0)) && not (eqb_ℤ value (pos 1)))

unfoldable pub has_value : ℕ → List TuningValue → Bool
has_value parameter_id [] = false
has_value parameter_id (v ∷ rest) = v.parameter_id == parameter_id || has_value parameter_id rest

-- A value, with those before it.
unfoldable pub validate_value_update :
    List TuningParameter → List TuningValue → TuningValue → Status
unfolding tuning_parameter_get value_in_range has_value
validate_value_update parameters earlier v = elim (tuning_parameter_get parameters v.parameter_id) [
  | none ↦ err enoent
  | some p ↦
      if not (value_in_range p v.value)
      then err erange
      else if has_value v.parameter_id earlier
      then err eexist
      else success
]

-- The loop of zpt_tuning_set_many: the status, with the parameter that is reported last.
unfoldable pub validate_values :
    List TuningParameter → List TuningValue → List TuningValue → Option ℕ → Status × Option ℕ
unfolding validate_value_update
validate_values parameters earlier [] failed = (success, failed)
validate_values parameters earlier (v ∷ rest) failed =
    let ret = validate_value_update parameters earlier v in
    let later = validate_values parameters (v ∷ earlier) rest (some v.parameter_id) in
    if is_error ret then (ret, some v.parameter_id) else later

abbrev pub is_enoent : Status → Bool
is_enoent (err enoent) = true
is_enoent _ = false

module _ {C : Type 0} where
  unfoldable pub validate_target : TuningTarget C → Status
  unfolding validate_parameters_from
  validate_target target = elim target.parameters [
    | [] ↦ err einval
    | p ∷ rest ↦ validate_parameters_from [] target.parameters
  ]

  unfoldable pub find_registered_target : TuningTarget C → List (TuningTarget C) → ℕ → Status
  find_registered_target target [] i = err enoent
  find_registered_target target (t ∷ rest) i =
      let later = find_registered_target target rest (i + 1) in
      if t.address == target.address
      then ok i
      else if is_eq (compare_text t.stable_id target.stable_id)
      then err eexist
      else later

  unfoldable pub tuning_register :
      ℕ → List (TuningTarget C) → TuningTarget C → List (TuningTarget C) × Status
  unfolding validate_target find_registered_target
  tuning_register max_targets targets target =
      let ret = validate_target target in
      let found = find_registered_target target targets 0 in
      if is_error ret
      then (targets, ret)
      else if not (is_enoent found)
      then (targets, found)
      else if leb max_targets (length targets)
      then (targets, err enomem)
      else (targets ++ target ∷ [], ok (length targets))

  abbrev pub tuning_target_get : List (TuningTarget C) → ℕ → Option (TuningTarget C)
  tuning_target_get targets target_id = get_elem? targets target_id

  unfoldable pub tuning_get :
      List (TuningTarget C) → (target_id parameter_id : ℕ) → Bool → Errno ⊎ ℤ
  unfolding tuning_parameter_get
  tuning_get targets target_id parameter_id compiled = elim (tuning_target_get targets target_id) [
    | none ↦ inl enodev
    | some target ↦ elim (tuning_parameter_get target.parameters parameter_id) [
      | none ↦ inl enoent
      | some p ↦ target.get target.context parameter_id compiled
    ]
  ]

  -- The end of zpt_tuning_set_many, on what the loop found.
  unfoldable pub set_validated :
      TuningTarget C → List TuningValue → Status × Option ℕ → TuningTarget C × (Status × Option ℕ)
  set_validated target values (ret, failed) =
      if is_error ret
      then (target, (ret, failed))
      else (let (context, (result, blamed)) = target.set_many target.context values in
          (
            record target { context = context },
            (result, elim blamed [ none ↦ failed | some id ↦ some id ]),
          ))

  unfoldable pub target_set_many :
      TuningTarget C → List TuningValue → TuningTarget C × (Status × Option ℕ)
  unfolding validate_values set_validated
  target_set_many target [] = (target, (err einval, none))
  target_set_many target (v ∷ rest) =
      set_validated target (v ∷ rest) (validate_values target.parameters [] (v ∷ rest) none)

  unfoldable pub tuning_set_many :
      List (TuningTarget C) → ℕ → List TuningValue → List (TuningTarget C) × (Status × Option ℕ)
  unfolding target_set_many
  tuning_set_many targets target_id values = elim (tuning_target_get targets target_id) [
    | none ↦ (targets, (err enodev, none))
    | some target ↦
        let (target', result) = target_set_many target values in
        (set targets target_id target', result)
  ]

  unfoldable pub tuning_set :
      List (TuningTarget C) → (target_id parameter_id : ℕ) → ℤ → List (TuningTarget C) × Status
  unfolding tuning_set_many
  tuning_set targets target_id parameter_id value =
      let (targets', (ret, failed)) =
        tuning_set_many targets target_id
          (record { parameter_id = parameter_id; value = value } ∷ []) in
      (targets', ret)

  unfoldable pub reset_target : TuningTarget C → TuningTarget C × Status
  reset_target target =
      let (context, ret) = target.reset target.context in (record target { context = context }, ret)

  unfoldable pub tuning_reset : List (TuningTarget C) → ℕ → List (TuningTarget C) × Status
  unfolding reset_target
  tuning_reset targets target_id = elim (tuning_target_get targets target_id) [
    | none ↦ (targets, err enodev)
    | some target ↦ let (target', ret) = reset_target target in (set targets target_id target', ret)
  ]

  -- The loop, with the result so far.
  unfoldable pub reset_targets : Status → List (TuningTarget C) → List (TuningTarget C) × Status
  unfolding reset_target
  reset_targets result [] = ([], result)
  reset_targets result (t ∷ rest) =
      let (t', ret) = reset_target t in
      let (rest', last) =
        reset_targets (if is_error ret && is_success result then ret else result) rest in
      (t' ∷ rest', last)

  unfoldable pub tuning_reset_all : List (TuningTarget C) → List (TuningTarget C) × Status
  unfolding reset_targets
  tuning_reset_all targets = reset_targets success targets
