-- ===== src/Stage/Tuning/Gate.antt =====
-- The tuning of the motion gate, in src/stage/stage_tuning.c.
use zmk_pointing_tools.Base.{Errno, List, [], none, ◌⊎◌, ◌∷◌, ℕ}
use zmk_pointing_tools.Base.Int.{ℤ}
use zmk_pointing_tools.Service.Tuning.{TuningParameter}
use zmk_pointing_tools.Stage.MotionGateStage.{GateStageConfig}
use zmk_pointing_tools.Stage.Tuning.{TuningOps}
use zmk_pointing_tools.Stage.Tuning.Fields.{
  integer_parameter, distance_field, uint16_field, field_get, Field, boolean_field,
  boolean_parameter, field_put,
}

abbrev pub gate_parameters : List TuningParameter
gate_parameters =
    boolean_parameter 0 "enabled" "enabled" "Enabled" ""
      "Hold back motion until it moves far enough in a consistent direction; off passes every frame through."
    ∷ integer_parameter 1 "activation-distance" "activation-distance-micrometers" 1 20000
        "Activation distance" "µm"
        "Ball travel needed before motion starts. Raise it if resting your hand nudges the cursor."
    ∷ integer_parameter 2 "coherence" "coherence-percent" 0 100 "Coherence" "%"
        "How consistently held-back motion must point one way to count as intended."
    ∷ integer_parameter 3 "qualification-timeout" "qualification-timeout-ms" 1 5000
        "Qualification timeout" "ms"
        "How long held-back motion may take to qualify before it is discarded."
    ∷ integer_parameter 4 "idle-timeout" "idle-timeout-ms" 1 5000 "Idle timeout" "ms"
        "Pause after which the gate closes and motion must qualify again."
    ∷ []

abbrev pub gate_fields : List (Field GateStageConfig)
gate_fields =
    boolean_field (λ c. c.settings.enabled)
      (λ c x. record c { settings = record (c.settings) { enabled = x } })
    ∷ distance_field (λ c. c.settings.activation_distance)
        (λ c x. record c { settings = record (c.settings) { activation_distance = x } })
    ∷ uint16_field (λ c. c.settings.coherence_percent)
        (λ c x. record c { settings = record (c.settings) { coherence_percent = x } })
    ∷ uint16_field (λ c. c.settings.qualification_timeout_ms)
        (λ c x. record c { settings = record (c.settings) { qualification_timeout_ms = x } })
    ∷ uint16_field (λ c. c.settings.idle_timeout_ms)
        (λ c x. record c { settings = record (c.settings) { idle_timeout_ms = x } })
    ∷ []

unfoldable pub gate_get : GateStageConfig → ℕ → Errno ⊎ ℤ
gate_get = field_get gate_fields

unfoldable pub gate_put : GateStageConfig → ℕ → ℤ → Errno ⊎ GateStageConfig
gate_put = field_put gate_fields

unfoldable pub coherent_displacement_tuning_ops : (config_size : ℕ) → TuningOps GateStageConfig
unfolding gate_get gate_put
coherent_displacement_tuning_ops config_size = record {
  parameters = gate_parameters;
  config_size = config_size;
  get = gate_get;
  put = gate_put;
  validate = none;
}
