-- ===== src/Core/Router/Tests.antt =====
-- Tests and witnesses for the router.
use zmk_pointing_tools.Core.Router.Validates.{validate-establishes}
use zmk_pointing_tools.Base.{[], some, refl, none, false, arith, is_error, true, List, ℕ, ◌≡◌, ◌∷◌}
use zmk_pointing_tools.Core.Pipeline.Sample.{
  sample_signal, ready_pipeline, sample_stage, running_pipeline, new_pipeline,
}
use zmk_pointing_tools.Core.Pipeline.Sound.{AllFlushable}
use zmk_pointing_tools.Core.Pipeline.Types.{pipeline_entered, administrative}
use zmk_pointing_tools.Core.Pipeline.Validate.{
  validate_stages, validate_pipeline_identity, validate_stage_link, find_sink_conflict,
  validate_structure, validate_stage_api, validate_pipeline_sink, bytes_eq,
  find_stage_link_conflict, pipeline_validate,
}
use zmk_pointing_tools.Core.Router.{
  validate_router_pipeline, validate_pipelines, validate_router_structure, router_validate,
  validate_router_pipelines, router_deactivate, router_select, find_pipeline_conflict, Router,
}
use zmk_pointing_tools.Core.Router.Active.{OnlyActive}
use zmk_pointing_tools.Core.Router.Calls.{
  Call, calls-keep, flush, deactivate, push, select, router_calls, activate,
}
use zmk_pointing_tools.Core.Router.Keeps.{RouterReturns, IsRouted}
use zmk_pointing_tools.Core.Router.Runs.{deactivate-keeps}
use zmk_pointing_tools.Core.Router.Select.{HasSelected, select-keeps}
use zmk_pointing_tools.Core.Signal.{Signal, kind_valid, kind_accepted, raw_motion}

abbrev pub sample_router : Router ℕ (List Signal)
sample_router = record {
  stable_id = 9 ∷ [];
  input_kind = raw_motion;
  pipelines = running_pipeline 1 ∷ ready_pipeline 2 ∷ [];
  default_pipeline_index = 0;
  active_pipeline_index = some 0;
  validated = true;
  active = true;
}

abbrev stopped_router : Router ℕ (List Signal)
stopped_router = record sample_router {
  pipelines = ready_pipeline 1 ∷ ready_pipeline 2 ∷ [];
  active_pipeline_index = none;
  active = false;
}

abbrev new_router : Router ℕ (List Signal)
new_router = record sample_router {
  pipelines = new_pipeline 1 ∷ new_pipeline 2 ∷ [];
  active_pipeline_index = none;
  validated = false;
  active = false;
}

sample_flushable : AllFlushable (sample_stage ∷ [])
sample_flushable = (λ pending. refl, tt)

pub sample_router-IsRouted : IsRouted sample_router
sample_router-IsRouted = record {
  is_validated = refl;
  ready = (refl, sample_flushable, (refl, sample_flushable, tt));
  only = (refl, (refl, tt));
  inactive = λ e. cc;
}

stopped_router-IsRouted : IsRouted stopped_router
stopped_router-IsRouted = record {
  is_validated = refl;
  ready = (refl, sample_flushable, (refl, sample_flushable, tt));
  only = (refl, (refl, tt));
  inactive = λ e. refl;
}

abbrev sample_calls : List Call
sample_calls =
    push sample_signal
    ∷ select 1 4
    ∷ push sample_signal
    ∷ flush 20
    ∷ deactivate 21 administrative
    ∷ activate pipeline_entered
    ∷ []

calls-keep_example :
    (r' : Router ℕ (List Signal)) × (router_calls sample_calls sample_router ≡ some r')
    × IsRouted r'
calls-keep_example = calls-keep sample_calls sample_router sample_router-IsRouted

select-keeps_example :
    RouterReturns
      (λ r' result ret. IsRouted r' × HasSelected 1 (some 0) sample_router r' ret)
      (router_select 1 4 sample_router)
select-keeps_example = select-keeps 1 4 sample_router sample_router-IsRouted refl (omega arith)

deactivate-keeps_example :
    RouterReturns
      (λ r' result ret. IsRouted r' × (r'.active ≡ false) × OnlyActive r'.pipelines none)
      (router_deactivate 4 administrative sample_router)
deactivate-keeps_example = deactivate-keeps 4 administrative sample_router sample_router-IsRouted

validates : is_error (router_validate new_router).1 ≡ false
unfolding router_validate validate_router_structure validate_router_pipelines
    validate_router_pipeline find_pipeline_conflict bytes_eq kind_valid validate_pipelines
    pipeline_validate validate_structure validate_pipeline_identity validate_pipeline_sink
    validate_stages validate_stage_link validate_stage_api find_stage_link_conflict
    find_sink_conflict kind_accepted
validates = refl

validate-establishes_example :
    IsRouted (router_validate new_router).0 × ((router_validate new_router).0.active ≡ false)
validate-establishes_example = validate-establishes new_router validates
