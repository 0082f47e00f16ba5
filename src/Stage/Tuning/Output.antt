-- ===== src/Stage/Tuning/Output.antt =====
-- The tuning of the scroll batcher and of the text navigation, in src/stage/stage_tuning.c.
use zmk_pointing_tools.Base.{[], Errno, List, none, ◌⊎◌, ◌∷◌, ℕ}
use zmk_pointing_tools.Base.Int.{ℤ}
use zmk_pointing_tools.Service.Tuning.{TuningParameter}
use zmk_pointing_tools.Stage.ScrollBatcher.{ScrollBatcherConfig}
use zmk_pointing_tools.Stage.TextNav.{TextNavConfig}
use zmk_pointing_tools.Stage.Tuning.{TuningOps}
use zmk_pointing_tools.Stage.Tuning.Fields.{
  field_put, distance_field, Field, uint16_field, per_meter_field, field_get, integer_parameter,
}

abbrev pub scroll_parameters : List TuningParameter
scroll_parameters =
    integer_parameter 0 "steps-per-meter" "steps-per-meter" 1 100000 "Scroll speed" "steps/m"
      "Wheel steps per metre of ball travel along the engaged axis."
    ∷ integer_parameter 1 "report-interval" "report-interval-ms" 1 1000 "Report interval" "ms"
        "How often accumulated scroll is sent. Longer intervals send fewer, larger steps."
    ∷ []

abbrev pub scroll_fields : List (Field ScrollBatcherConfig)
scroll_fields =
    per_meter_field (λ c. c.steps_per_millimeter) (λ c x. record c { steps_per_millimeter = x })
    ∷ uint16_field (λ c. c.report_interval_ms) (λ c x. record c { report_interval_ms = x })
    ∷ []

unfoldable pub scroll_get : ScrollBatcherConfig → ℕ → Errno ⊎ ℤ
scroll_get = field_get scroll_fields

unfoldable pub scroll_put : ScrollBatcherConfig → ℕ → ℤ → Errno ⊎ ScrollBatcherConfig
scroll_put = field_put scroll_fields

unfoldable pub scroll_batcher_tuning_ops : (config_size : ℕ) → TuningOps ScrollBatcherConfig
unfolding scroll_get scroll_put
scroll_batcher_tuning_ops config_size = record {
  parameters = scroll_parameters;
  config_size = config_size;
  get = scroll_get;
  put = scroll_put;
  validate = none;
}

abbrev pub text_parameters : List TuningParameter
text_parameters =
    integer_parameter 0 "horizontal-threshold" "horizontal-threshold-micrometers" 1 50000
      "Horizontal step" "µm" "Ball travel per left or right key tap."
    ∷ integer_parameter 1 "vertical-threshold" "vertical-threshold-micrometers" 1 50000
        "Vertical step" "µm" "Ball travel per up or down key tap."
    ∷ integer_parameter 2 "idle-timeout" "idle-timeout-ms" 1 5000 "Idle timeout" "ms"
        "Pause after which partial travel toward the next tap is dropped."
    ∷ []

abbrev pub text_fields : List (Field TextNavConfig)
text_fields =
    distance_field (λ c. c.horizontal_threshold) (λ c x. record c { horizontal_threshold = x })
    ∷ distance_field (λ c. c.vertical_threshold) (λ c x. record c { vertical_threshold = x })
    ∷ uint16_field (λ c. c.idle_timeout_ms) (λ c x. record c { idle_timeout_ms = x })
    ∷ []

unfoldable pub text_get : TextNavConfig → ℕ → Errno ⊎ ℤ
text_get = field_get text_fields

unfoldable pub text_put : TextNavConfig → ℕ → ℤ → Errno ⊎ TextNavConfig
text_put = field_put text_fields

unfoldable pub text_nav_tuning_ops : (config_size : ℕ) → TuningOps TextNavConfig
unfolding text_get text_put
text_nav_tuning_ops config_size = record {
  parameters = text_parameters;
  config_size = config_size;
  get = text_get;
  put = text_put;
  validate = none;
}
