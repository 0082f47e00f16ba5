-- ===== src/Stage/Tuning/Axis.antt =====
-- The tuning of the axis intent and of the axis constraint, in src/stage/stage_tuning.c.
use zmk_pointing_tools.Base.{
  ltb, none, some, [], Option, err, List, success, Errno, einval, Status, if◌then◌else◌, ◌⊎◌, ◌∷◌,
  ℕ,
}
use zmk_pointing_tools.Base.Int.{ℤ}
use zmk_pointing_tools.Service.Tuning.{TuningParameter}
use zmk_pointing_tools.Stage.AxisConstraint.{AxisConstraintConfig}
use zmk_pointing_tools.Stage.AxisIntentStage.{AxisIntentStageConfig}
use zmk_pointing_tools.Stage.Tuning.{TuningOps}
use zmk_pointing_tools.Stage.Tuning.Fields.{
  boolean_parameter, boolean_field, integer_parameter, field_get, distance_field, field_put,
  uint16_field, Field,
}

abbrev pub intent_parameters : List TuningParameter
intent_parameters =
    integer_parameter 0 "engage-ratio" "engage-ratio-percent" 100 1000 "Engage ratio" "%"
      "How much the major axis must dominate before motion locks to it."
    ∷ integer_parameter 1 "release-ratio" "release-ratio-percent" 100 1000 "Release ratio" "%"
        "Dominance below which a locked axis is released. Keep it at or below the engage ratio."
    ∷ integer_parameter 2 "activation-distance" "activation-distance-micrometers" 1 20000
        "Activation distance" "µm" "Ball travel needed before an axis is chosen."
    ∷ integer_parameter 3 "window" "window-ms" 1 2000 "Window" "ms"
        "How far back motion counts toward choosing an axis."
    ∷ integer_parameter 4 "idle-timeout" "idle-timeout-ms" 0 5000 "Idle timeout" "ms"
        "Pause after which the axis choice resets; 0 never resets."
    ∷ []

abbrev pub intent_fields : List (Field AxisIntentStageConfig)
intent_fields =
    uint16_field (λ c. c.settings.engage_ratio_percent)
      (λ c x. record c { settings = record (c.settings) { engage_ratio_percent = x } })
    ∷ uint16_field (λ c. c.settings.release_ratio_percent)
        (λ c x. record c { settings = record (c.settings) { release_ratio_percent = x } })
    ∷ distance_field (λ c. c.settings.activation_distance)
        (λ c x. record c { settings = record (c.settings) { activation_distance = x } })
    ∷ uint16_field (λ c. c.settings.window_ms)
        (λ c x. record c { settings = record (c.settings) { window_ms = x } })
    ∷ uint16_field (λ c. c.idle_timeout_ms) (λ c x. record c { idle_timeout_ms = x })
    ∷ []

unfoldable pub intent_get : AxisIntentStageConfig → ℕ → Errno ⊎ ℤ
intent_get = field_get intent_fields

unfoldable pub intent_put : AxisIntentStageConfig → ℕ → ℤ → Errno ⊎ AxisIntentStageConfig
intent_put = field_put intent_fields

-- A release ratio above the engage ratio is blamed on the release ratio, parameter 1.
unfoldable pub intent_validate : AxisIntentStageConfig → Status × Option ℕ
intent_validate config =
    if ltb config.settings.engage_ratio_percent config.settings.release_ratio_percent
    then (err einval, some 1)
    else (success, none)

unfoldable pub axis_intent_tuning_ops : (config_size : ℕ) → TuningOps AxisIntentStageConfig
unfolding intent_get intent_put
axis_intent_tuning_ops config_size = record {
  parameters = intent_parameters;
  config_size = config_size;
  get = intent_get;
  put = intent_put;
  validate = some intent_validate;
}

abbrev pub constraint_parameters : List TuningParameter
constraint_parameters =
    boolean_parameter 0 "discard-unclassified" "discard-unclassified" "Discard undecided motion" ""
      "Drop motion held while no axis was chosen instead of releasing it in both axes."
    ∷ integer_parameter 1 "idle-timeout" "idle-timeout-ms" 0 5000 "Idle timeout" "ms"
        "Pause after which held undecided motion is released or dropped; 0 never times out."
    ∷ integer_parameter 2 "fold-interval" "fold-interval-ms" 0 1000 "Fold interval" "ms"
        "How often held undecided motion is released or dropped; 0 uses the idle timeout."
    ∷ []

abbrev pub constraint_fields : List (Field AxisConstraintConfig)
constraint_fields =
    boolean_field (λ c. c.discard_unclassified) (λ c x. record c { discard_unclassified = x })
    ∷ uint16_field (λ c. c.idle_timeout_ms) (λ c x. record c { idle_timeout_ms = x })
    ∷ uint16_field (λ c. c.fold_interval_ms) (λ c x. record c { fold_interval_ms = x })
    ∷ []

unfoldable pub constraint_get : AxisConstraintConfig → ℕ → Errno ⊎ ℤ
constraint_get = field_get constraint_fields

unfoldable pub constraint_put : AxisConstraintConfig → ℕ → ℤ → Errno ⊎ AxisConstraintConfig
constraint_put = field_put constraint_fields

unfoldable pub axis_constraint_tuning_ops : (config_size : ℕ) → TuningOps AxisConstraintConfig
unfolding constraint_get constraint_put
axis_constraint_tuning_ops config_size = record {
  parameters = constraint_parameters;
  config_size = config_size;
  get = constraint_get;
  put = constraint_put;
  validate = none;
}
