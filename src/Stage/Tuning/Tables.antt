-- ===== src/Stage/Tuning/Tables.antt =====
-- Each table of src/stage/stage_tuning.c has a field for each of its rows.
use zmk_pointing_tools.Base.{refl, arith, ==_iff, if_true, ◌^◌, ◌<◌, ◌≡◌, ℕ}
use zmk_pointing_tools.Base.Int.{pos}
use zmk_pointing_tools.Service.Tuning.{TuningParameter}
use zmk_pointing_tools.Stage.Tuning.Acceleration.{
  acceleration_fields, put_at, acceleration_parameters, percent_field, speed_field,
}
use zmk_pointing_tools.Stage.Tuning.Axis.{
  constraint_fields, constraint_parameters, intent_fields, intent_parameters,
}
use zmk_pointing_tools.Stage.Tuning.Backs.{
  IsSwitch, uint16_field-IsBack, boolean_field-IsBack, IsBack, per_meter_field-IsBack,
  distance_field-IsBack,
}
use zmk_pointing_tools.Stage.Tuning.Gate.{gate_fields, gate_parameters}
use zmk_pointing_tools.Stage.Tuning.Output.{
  text_parameters, scroll_parameters, scroll_fields, text_fields,
}
use zmk_pointing_tools.Stage.Tuning.Pointer.{
  transfer_fields, coalescer_fields, transfer_parameters, coalescer_parameters,
}

pub gate-IsSwitch : IsSwitch 0 gate_parameters gate_fields
gate-IsSwitch = (
  refl,
  boolean_field-IsBack (λ c. c.settings.enabled)
      (λ c x. record c { settings = record (c.settings) { enabled = x } }) _ (λ c x. refl) refl
      refl,
  (
    refl,
    distance_field-IsBack (λ c. c.settings.activation_distance)
        (λ c x. record c { settings = record (c.settings) { activation_distance = x } }) _ _ _
        (λ c x. refl) refl refl (omega arith),
    (
      refl,
      uint16_field-IsBack (λ c. c.settings.coherence_percent)
          (λ c x. record c { settings = record (c.settings) { coherence_percent = x } }) _ _ _
          (λ c x. refl) refl refl (omega arith),
      (
        refl,
        uint16_field-IsBack (λ c. c.settings.qualification_timeout_ms)
            (λ c x. record c { settings = record (c.settings) { qualification_timeout_ms = x } }) _
            _ _ (λ c x. refl) refl refl (omega arith),
        (
          refl,
          uint16_field-IsBack (λ c. c.settings.idle_timeout_ms)
              (λ c x. record c { settings = record (c.settings) { idle_timeout_ms = x } }) _ _ _
              (λ c x. refl) refl refl (omega arith),
          tt,
        ),
      ),
    ),
  ),
)

pub transfer-IsSwitch : IsSwitch 0 transfer_parameters transfer_fields
transfer-IsSwitch = (
  refl,
  uint16_field-IsBack (λ c. c.scale_multiplier) (λ c x. record c { scale_multiplier = x }) _ _ _
      (λ c x. refl) refl refl (omega arith),
  (
    refl,
    uint16_field-IsBack (λ c. c.scale_divisor) (λ c x. record c { scale_divisor = x }) _ _ _
        (λ c x. refl) refl refl (omega arith),
    tt,
  ),
)

pub coalescer-IsSwitch : IsSwitch 0 coalescer_parameters coalescer_fields
coalescer-IsSwitch = (
  refl,
  uint16_field-IsBack (λ c. c.usb_report_interval_ms)
      (λ c x. record c { usb_report_interval_ms = x }) _ _ _ (λ c x. refl) refl refl (omega arith),
  (
    refl,
    uint16_field-IsBack (λ c. c.ble_report_interval_ms)
        (λ c x. record c { ble_report_interval_ms = x }) _ _ _ (λ c x. refl) refl refl
        (omega arith),
    tt,
  ),
)

pub scroll-IsSwitch : IsSwitch 0 scroll_parameters scroll_fields
scroll-IsSwitch = (
  refl,
  per_meter_field-IsBack (λ c. c.steps_per_millimeter)
      (λ c x. record c { steps_per_millimeter = x }) _ _ _ (λ c x. refl) refl refl (omega arith),
  (
    refl,
    uint16_field-IsBack (λ c. c.report_interval_ms) (λ c x. record c { report_interval_ms = x }) _ _
        _ (λ c x. refl) refl refl (omega arith),
    tt,
  ),
)

pub text-IsSwitch : IsSwitch 0 text_parameters text_fields
text-IsSwitch = (
  refl,
  distance_field-IsBack (λ c. c.horizontal_threshold) (λ c x. record c { horizontal_threshold = x })
      _ _ _ (λ c x. refl) refl refl (omega arith),
  (
    refl,
    distance_field-IsBack (λ c. c.vertical_threshold) (λ c x. record c { vertical_threshold = x }) _
        _ _ (λ c x. refl) refl refl (omega arith),
    (
      refl,
      uint16_field-IsBack (λ c. c.idle_timeout_ms) (λ c x. record c { idle_timeout_ms = x }) _ _ _
          (λ c x. refl) refl refl (omega arith),
      tt,
    ),
  ),
)

pub intent-IsSwitch : IsSwitch 0 intent_parameters intent_fields
intent-IsSwitch = (
  refl,
  uint16_field-IsBack (λ c. c.settings.engage_ratio_percent)
      (λ c x. record c { settings = record (c.settings) { engage_ratio_percent = x } }) _ _ _
      (λ c x. refl) refl refl (omega arith),
  (
    refl,
    uint16_field-IsBack (λ c. c.settings.release_ratio_percent)
        (λ c x. record c { settings = record (c.settings) { release_ratio_percent = x } }) _ _ _
        (λ c x. refl) refl refl (omega arith),
    (
      refl,
      distance_field-IsBack (λ c. c.settings.activation_distance)
          (λ c x. record c { settings = record (c.settings) { activation_distance = x } }) _ _ _
          (λ c x. refl) refl refl (omega arith),
      (
        refl,
        uint16_field-IsBack (λ c. c.settings.window_ms)
            (λ c x. record c { settings = record (c.settings) { window_ms = x } }) _ _ _
            (λ c x. refl) refl refl (omega arith),
        (
          refl,
          uint16_field-IsBack (λ c. c.idle_timeout_ms) (λ c x. record c { idle_timeout_ms = x }) _ _
              _ (λ c x. refl) refl refl (omega arith),
          tt,
        ),
      ),
    ),
  ),
)

pub constraint-IsSwitch : IsSwitch 0 constraint_parameters constraint_fields
constraint-IsSwitch = (
  refl,
  boolean_field-IsBack (λ c. c.discard_unclassified) (λ c x. record c { discard_unclassified = x })
      _ (λ c x. refl) refl refl,
  (
    refl,
    uint16_field-IsBack (λ c. c.idle_timeout_ms) (λ c x. record c { idle_timeout_ms = x }) _ _ _
        (λ c x. refl) refl refl (omega arith),
    (
      refl,
      uint16_field-IsBack (λ c. c.fold_interval_ms) (λ c x. record c { fold_interval_ms = x }) _ _ _
          (λ c x. refl) refl refl (omega arith),
      tt,
    ),
  ),
)

speed_field-IsBack :
    (p : TuningParameter) (i lo hi : ℕ)
    → p.minimum ≡ pos lo
    → p.maximum ≡ pos hi
    → hi < 2 ^ 16
    → IsBack p (speed_field i)
speed_field-IsBack p i lo hi =
    uint16_field-IsBack (λ c. c.curve_speed_mm_per_s i)
      (λ c x. record c { curve_speed_mm_per_s = put_at c.curve_speed_mm_per_s i x }) p lo hi
      (λ c x. if_true x (c.curve_speed_mm_per_s i) ((==_iff i i).1 refl))

percent_field-IsBack :
    (p : TuningParameter) (i lo hi : ℕ)
    → p.minimum ≡ pos lo
    → p.maximum ≡ pos hi
    → hi < 2 ^ 16
    → IsBack p (percent_field i)
percent_field-IsBack p i lo hi =
    uint16_field-IsBack (λ c. c.curve_percent i)
      (λ c x. record c { curve_percent = put_at c.curve_percent i x }) p lo hi
      (λ c x. if_true x (c.curve_percent i) ((==_iff i i).1 refl))

pub acceleration-IsSwitch : IsSwitch 0 acceleration_parameters acceleration_fields
acceleration-IsSwitch = (
  refl,
  speed_field-IsBack _ 0 0 10000 refl refl (omega arith),
  (
    refl,
    speed_field-IsBack _ 1 0 10000 refl refl (omega arith),
    (
      refl,
      speed_field-IsBack _ 2 0 10000 refl refl (omega arith),
      (
        refl,
        speed_field-IsBack _ 3 0 10000 refl refl (omega arith),
        (
          refl,
          speed_field-IsBack _ 4 0 10000 refl refl (omega arith),
          (
            refl,
            speed_field-IsBack _ 5 0 10000 refl refl (omega arith),
            (
              refl,
              speed_field-IsBack _ 6 0 10000 refl refl (omega arith),
              (
                refl,
                speed_field-IsBack _ 7 0 10000 refl refl (omega arith),
                (
                  refl,
                  percent_field-IsBack _ 0 1 1000 refl refl (omega arith),
                  (
                    refl,
                    percent_field-IsBack _ 1 1 1000 refl refl (omega arith),
                    (
                      refl,
                      percent_field-IsBack _ 2 1 1000 refl refl (omega arith),
                      (
                        refl,
                        percent_field-IsBack _ 3 1 1000 refl refl (omega arith),
                        (
                          refl,
                          percent_field-IsBack _ 4 1 1000 refl refl (omega arith),
                          (
                            refl,
                            percent_field-IsBack _ 5 1 1000 refl refl (omega arith),
                            (
                              refl,
                              percent_field-IsBack _ 6 1 1000 refl refl (omega arith),
                              (
                                refl,
                                percent_field-IsBack _ 7 1 1000 refl refl (omega arith),
                                (
                                  refl,
                                  uint16_field-IsBack (λ c. c.speed_rise_ms)
                                      (λ c x. record c { speed_rise_ms = x }) _ _ _ (λ c x. refl)
                                      refl refl (omega arith),
                                  (
                                    refl,
                                    uint16_field-IsBack (λ c. c.speed_fall_ms)
                                        (λ c x. record c { speed_fall_ms = x }) _ _ _ (λ c x. refl)
                                        refl refl (omega arith),
                                    tt,
                                  ),
                                ),
                              ),
                            ),
                          ),
                        ),
                      ),
                    ),
                  ),
                ),
              ),
            ),
          ),
        ),
      ),
    ),
  ),
)
