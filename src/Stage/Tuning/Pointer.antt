-- ===== src/Stage/Tuning/Pointer.antt =====
-- The tuning of the cursor transfer and of the cursor coalescer, in src/stage/stage_tuning.c.
use zmk_pointing_tools.Base.{List, Errno, [], none, ◌⊎◌, ◌∷◌, ℕ}
use zmk_pointing_tools.Base.Int.{ℤ}
use zmk_pointing_tools.Service.Tuning.{TuningParameter}
use zmk_pointing_tools.Stage.CursorCoalescer.{CursorCoalescerConfig}
use zmk_pointing_tools.Stage.CursorTransfer.{CursorTransferConfig}
use zmk_pointing_tools.Stage.Tuning.{TuningOps}
use zmk_pointing_tools.Stage.Tuning.Fields.{
  field_get, integer_parameter, field_put, Field, uint16_field,
}

abbrev pub transfer_parameters : List TuningParameter
transfer_parameters =
    integer_parameter 0 "scale-multiplier" "scale-multiplier" 0 1000 "Gain multiplier" "×"
      "Cursor gain numerator: pointer distance is ball distance × multiplier ÷ divisor."
    ∷ integer_parameter 1 "scale-divisor" "scale-divisor" 1 1000 "Gain divisor" "÷"
        "Cursor gain denominator."
    ∷ []

abbrev pub transfer_fields : List (Field CursorTransferConfig)
transfer_fields =
    uint16_field (λ c. c.scale_multiplier) (λ c x. record c { scale_multiplier = x })
    ∷ uint16_field (λ c. c.scale_divisor) (λ c x. record c { scale_divisor = x })
    ∷ []

unfoldable pub transfer_get : CursorTransferConfig → ℕ → Errno ⊎ ℤ
transfer_get = field_get transfer_fields

unfoldable pub transfer_put : CursorTransferConfig → ℕ → ℤ → Errno ⊎ CursorTransferConfig
transfer_put = field_put transfer_fields

unfoldable pub cursor_transfer_tuning_ops : (config_size : ℕ) → TuningOps CursorTransferConfig
unfolding transfer_get transfer_put
cursor_transfer_tuning_ops config_size = record {
  parameters = transfer_parameters;
  config_size = config_size;
  get = transfer_get;
  put = transfer_put;
  validate = none;
}

abbrev pub coalescer_parameters : List TuningParameter
coalescer_parameters =
    integer_parameter 0 "usb-report-interval" "usb-report-interval-ms" 0 1000 "USB report interval"
      "ms"
      "Shortest time between cursor reports over USB; motion in between is summed. 0 sends every frame."
    ∷ integer_parameter 1 "ble-report-interval" "ble-report-interval-ms" 0 1000
        "Bluetooth report interval" "ms"
        "Shortest time between cursor reports over Bluetooth. Match the connection interval, usually 7.5 to 15 ms, so reports don't queue up."
    ∷ []

abbrev pub coalescer_fields : List (Field CursorCoalescerConfig)
coalescer_fields =
    uint16_field (λ c. c.usb_report_interval_ms) (λ c x. record c { usb_report_interval_ms = x })
    ∷ uint16_field (λ c. c.ble_report_interval_ms) (λ c x. record c { ble_report_interval_ms = x })
    ∷ []

unfoldable pub coalescer_get : CursorCoalescerConfig → ℕ → Errno ⊎ ℤ
coalescer_get = field_get coalescer_fields

unfoldable pub coalescer_put : CursorCoalescerConfig → ℕ → ℤ → Errno ⊎ CursorCoalescerConfig
coalescer_put = field_put coalescer_fields

unfoldable pub cursor_coalescer_tuning_ops : (config_size : ℕ) → TuningOps CursorCoalescerConfig
unfolding coalescer_get coalescer_put
cursor_coalescer_tuning_ops config_size = record {
  parameters = coalescer_parameters;
  config_size = config_size;
  get = coalescer_get;
  put = coalescer_put;
  validate = none;
}
