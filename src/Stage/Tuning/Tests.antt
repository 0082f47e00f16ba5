-- ===== src/Stage/Tuning/Tests.antt =====
-- Tests and witnesses for the tuning of the stages.
use zmk_pointing_tools.Base.{refl, [], inr, err, success, erange, none, false, ◌≡◌, ◌∷◌}
use zmk_pointing_tools.Base.Int.{pos}
use zmk_pointing_tools.Core.Fixed.{fixed_one}
use zmk_pointing_tools.Service.Tuning.{tuning_set, tuning_get, TuningTarget}
use zmk_pointing_tools.Stage.ScrollBatcher.{ScrollBatcherConfig}
use zmk_pointing_tools.Stage.Tuning.Fields.{field_put}
use zmk_pointing_tools.Stage.Tuning.{TuningBinding, stage_tuning_target_init, stage_target}
use zmk_pointing_tools.Stage.Tuning.Output.{scroll_batcher_tuning_ops}
use zmk_pointing_tools.Stage.Tuning.Tunable.{tuning_set-tuning_get, tune_scroll}

abbrev scroll_config : ScrollBatcherConfig
scroll_config = record {
  steps_per_millimeter = pos fixed_one;
  report_interval_ms = 10;
  suppression = none;
}

abbrev scroll_binding : TuningBinding ScrollBatcherConfig
scroll_binding = record {
  ops = scroll_batcher_tuning_ops 32;
  compiled = scroll_config;
  current = scroll_config;
  apply = λ current candidate. (candidate, success);
}

abbrev scroll_target : TuningTarget (TuningBinding ScrollBatcherConfig)
scroll_target = stage_target 1 scroll_binding "scroll" "/scroll"

tuning_set-tuning_get_example :
    tuning_get (tuning_set (scroll_target ∷ []) 0 0 (pos 1500)).0 0 0 false ≡ inr (pos 1500)
unfolding tuning_set stage_tuning_target_init scroll_batcher_tuning_ops field_put
tuning_set-tuning_get_example =
    tuning_set-tuning_get tune_scroll 32 1 scroll_binding "scroll" "/scroll" (scroll_target ∷ [])
      scroll_target 0 0 (pos 1500) refl (λ current candidate. inr refl) refl refl refl

-- A value outside the limits is refused, and nothing changes.
too_fast : tuning_set (scroll_target ∷ []) 0 0 (pos 100001) ≡ (scroll_target ∷ [], err erange)
unfolding tuning_set scroll_batcher_tuning_ops
too_fast = refl
