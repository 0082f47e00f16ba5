-- ===== src/Core/Router.antt =====
-- src/core/router.c and include/zmk/pointing_tools/core/router.h: one active pipeline of several. The
-- pipelines are distinct objects; ZPT_ROUTER_NO_PIPELINE is `none`. An operation is `none` only if
-- one of its pipeline's operations is (Core/Pipeline/Push).
pub mod Active
pub mod Keeps
pub mod Select
pub mod Runs
pub mod Validates
pub mod Calls
pub mod Tests
use zmk_pointing_tools.Base.{
  List, einval, get_elem?, Option, [], true, false, eexist, not, some, length, leb, Bool, is_error,
  set, ebusy, Status, err, success, ok, none, eprototype, eacces, ealready, ◌==◌, if◌then◌else◌,
  ◌||◌, ◌∷◌, ◌++◌, ℕ,
}
use zmk_pointing_tools.Core.Pipeline.Activate.{pipeline_activate}
use zmk_pointing_tools.Core.Pipeline.Deactivate.{pipeline_deactivate}
use zmk_pointing_tools.Core.Pipeline.Flush.{pipeline_flush, pipeline_next_deadline}
use zmk_pointing_tools.Core.Pipeline.Push.{Reply, pipeline_push}
use zmk_pointing_tools.Core.Pipeline.Types.{
  Pipeline, clear_result, ResetReason, pipeline_entered, PipelineResult, pipeline_left,
}
use zmk_pointing_tools.Core.Pipeline.Validate.{address_eq, is_empty, bytes_eq, pipeline_validate}
use zmk_pointing_tools.Core.Signal.{Signal, kind_valid, kind, kind_eq, Kind}

-- struct zpt_router
pub record Router (S : Type 0) (T : Type 0) : Type 0 where
  pub stable_id : List ℕ
  pub input_kind : Kind
  pub pipelines : List (Pipeline S T)
  pub default_pipeline_index : ℕ
  pub active_pipeline_index : Option ℕ
  pub validated : Bool
  pub active : Bool

-- A router, the counters and the status that an operation returns.
abbrev pub RouterReply : Type 0 → Type 0 → Type 0
RouterReply S T = Option (Router S T × PipelineResult × Status)

-- if (ret < 0) first_error = ret;
abbrev pub error_or_success : Status → Status
error_or_success (ok n) = success
error_or_success (err e) = err e

module _ {S T : Type 0} where
  unfoldable pub find_pipeline_conflict : List (Pipeline S T) → List ℕ → Status
  unfolding bytes_eq
  find_pipeline_conflict [] stable_id = success
  find_pipeline_conflict (previous ∷ rest) stable_id =
      if bytes_eq previous.stable_id stable_id
      then err eexist
      else find_pipeline_conflict rest stable_id

  unfoldable pub validate_router_pipeline : Kind → List (Pipeline S T) → Pipeline S T → Status
  unfolding find_pipeline_conflict
  validate_router_pipeline input_kind previous p =
      if is_empty p.stable_id || not (kind_eq p.input_kind input_kind)
      then err einval
      else if p.validated
      then err ebusy
      else find_pipeline_conflict previous p.stable_id

  unfoldable pub validate_router_pipelines :
      Kind → List (Pipeline S T) → List (Pipeline S T) → Status
  unfolding validate_router_pipeline
  validate_router_pipelines input_kind previous [] = success
  validate_router_pipelines input_kind previous (p ∷ rest) =
      let next = validate_router_pipelines input_kind (previous ++ (p ∷ [])) rest in
      elim (validate_router_pipeline input_kind previous p) [ err e ↦ err e | ok n ↦ next ]

  unfoldable pub validate_router_structure : Router S T → Status
  unfolding validate_router_pipelines kind_valid
  validate_router_structure r =
      if is_empty r.stable_id
        || not (kind_valid r.input_kind)
        || length r.pipelines == 0
        || leb (length r.pipelines) r.default_pipeline_index
      then err einval
      else validate_router_pipelines r.input_kind [] r.pipelines

  -- The loop over zpt_pipeline_validate, which stops at the first that fails.
  unfoldable pub validate_pipelines : List (Pipeline S T) → List (Pipeline S T) × Status
  validate_pipelines [] = ([], success)
  validate_pipelines (p ∷ rest) =
      let (rest', ret) = validate_pipelines rest in
      let (p', own) = pipeline_validate p in
      elim own [ ok n ↦ (p' ∷ rest', ret) | err e ↦ (p' ∷ rest, err e) ]

  unfoldable pub router_validate : Router S T → Router S T × Status
  unfolding validate_router_structure
  router_validate r =
      if r.validated then (r, err ealready) else elim (validate_router_structure r) [
        | err e ↦ (r, err e)
        | ok n ↦
            let (pipelines, ret) = validate_pipelines r.pipelines in
            elim ret [
              | err e ↦ (record r { pipelines = pipelines }, err e)
              | ok n ↦ (
                record r {
                  pipelines = pipelines;
                  active_pipeline_index = none;
                  validated = true;
                  active = false;
                },
                success,
              )
            ]
      ]

  -- The active pipeline with its index.
  unfoldable pub router_active_pipeline : Router S T → Option (ℕ × Pipeline S T)
  router_active_pipeline r =
      if not r.validated || not r.active then none else elim r.active_pipeline_index [
        | none ↦ none
        | some index ↦ elim (get_elem? r.pipelines index) [ none ↦ none | some p ↦ some (index, p) ]
      ]

  abbrev pub put_pipeline : ℕ → Pipeline S T → Router S T → Router S T
  put_pipeline index p r = record r { pipelines = set r.pipelines index p }

  -- The pipeline at an index after its activation: it is the active one if that succeeded.
  unfoldable pub settle : ℕ → Pipeline S T × Status → Router S T → Router S T × Status
  settle index (p, err e) r = (put_pipeline index p r, err e)
  settle index (p, ok n) r =
      (record (put_pipeline index p r) { active_pipeline_index = some index }, success)

  -- Activation of the pipeline at an index. Past the end there is no pipeline to read.
  unfoldable pub enter_pipeline : ResetReason → ℕ → Router S T → Router S T × Status
  unfolding settle
  enter_pipeline reason index r = elim (get_elem? r.pipelines index) [
    | none ↦ (r, err einval)
    | some p ↦ settle index (pipeline_activate reason p) r
  ]

  unfoldable pub router_activate : ResetReason → Router S T → Router S T × Status
  unfolding enter_pipeline
  router_activate reason r =
      if not r.validated
      then (r, err einval)
      else if r.active
      then (r, err ealready)
      else (let (r', ret) = enter_pipeline reason r.default_pipeline_index r in
          if is_error ret then (r', ret) else (record r' { active = true }, success))

  -- The end of zpt_router_select, once no pipeline is active: enter the new one, or go back.
  unfoldable pub enter_or_restore : ℕ → Option ℕ → Status → Router S T → Router S T × Status
  enter_or_restore index previous first_error r =
      let (r', ret) = enter_pipeline pipeline_entered index r in
      if is_error ret
      then elim previous [
        | none ↦ (r', ret)
        | some back ↦
            let (r'', restore_ret) = enter_pipeline pipeline_entered back r' in
            if is_error restore_ret then (r'', restore_ret) else (r'', ret)
      ]
      else (r', first_error)

  -- zpt_router_select once the outgoing pipeline has answered.
  unfoldable pub replace_pipeline : ℕ → ℕ → Router S T → Reply S T → RouterReply S T
  replace_pipeline index previous r none = none
  replace_pipeline index previous r (some (p, result, ret)) =
      let left = record (put_pipeline previous p r) { active_pipeline_index = none } in
      let (r', ret') = enter_or_restore index (some previous) (error_or_success ret) left in
      some (r', result, ret')

  unfoldable pub leave_and_enter : ℕ → ℕ → Option (ℕ × Pipeline S T) → Router S T → RouterReply S T
  unfolding replace_pipeline
  leave_and_enter index now_ms none r =
      let (r', ret) =
        enter_or_restore index none success (record r { active_pipeline_index = none }) in
      some (r', clear_result, ret)
  leave_and_enter index now_ms (some (previous, outgoing)) r =
      replace_pipeline index previous r (pipeline_deactivate now_ms pipeline_left outgoing)

  unfoldable pub router_select : ℕ → ℕ → Router S T → RouterReply S T
  router_select index now_ms r =
      if not r.validated || leb (length r.pipelines) index
      then some (r, clear_result, err einval)
      else if not r.active
      then some (r, clear_result, err eacces)
      else if address_eq r.active_pipeline_index (some index)
      then some (r, clear_result, success)
      else leave_and_enter index now_ms (router_active_pipeline r) r

  unfoldable pub stopped : ℕ → Router S T → Reply S T → RouterReply S T
  stopped index r none = none
  stopped index r (some (p, result, ret)) = some (
    record (put_pipeline index p r) { active_pipeline_index = none; active = false },
    result,
    ret,
  )

  -- The end of zpt_router_deactivate, past its guards.
  unfoldable pub stop_active :
      ℕ → ResetReason → Option (ℕ × Pipeline S T) → Router S T → RouterReply S T
  unfolding stopped
  stop_active now_ms reason none r =
      some (record r { active_pipeline_index = none; active = false }, clear_result, success)
  stop_active now_ms reason (some (index, p)) r =
      stopped index r (pipeline_deactivate now_ms reason p)

  unfoldable pub router_deactivate : ℕ → ResetReason → Router S T → RouterReply S T
  router_deactivate now_ms reason r =
      if not r.validated
      then some (r, clear_result, err einval)
      else if not r.active
      then some (r, clear_result, err ealready)
      else stop_active now_ms reason (router_active_pipeline r) r

  -- The active pipeline after an operation, back in its place.
  unfoldable pub stored : ℕ → Router S T → Reply S T → RouterReply S T
  stored index r none = none
  stored index r (some (p, result, ret)) = some (put_pipeline index p r, result, ret)

  unfoldable pub on_active :
      (Pipeline S T → Reply S T) → Option (ℕ × Pipeline S T) → Router S T → RouterReply S T
  unfolding stored
  on_active f none r = some (r, clear_result, err eacces)
  on_active f (some (index, p)) r = stored index r (f p)

  unfoldable pub router_push : Signal → Router S T → RouterReply S T
  router_push signal r =
      if not r.validated
      then some (r, clear_result, err einval)
      else if not (kind_eq (kind signal) r.input_kind)
      then some (r, clear_result, err eprototype)
      else on_active (pipeline_push signal) (router_active_pipeline r) r

  unfoldable pub router_flush : ℕ → Router S T → RouterReply S T
  router_flush now_ms r =
      if not r.validated
      then some (r, clear_result, err einval)
      else on_active (pipeline_flush now_ms) (router_active_pipeline r) r

  unfoldable pub router_next_deadline : Router S T → ℕ → Option ℕ
  router_next_deadline r now_ms = elim (router_active_pipeline r) [
    | none ↦ none
    | some (index, p) ↦ pipeline_next_deadline p now_ms
  ]
