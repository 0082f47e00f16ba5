-- ===== src/Core/Pipeline/Validate.antt =====
-- zpt_pipeline_validate and its helpers in src/core/pipeline.c. A pointer that must not be NULL is
-- a value, an identifier that is NULL or empty the empty list.
use zmk_pointing_tools.Base.{
  ℕ, Bool, true, false, ◌&&◌, ◌||◌, not, List, [], ◌∷◌, ◌++◌, map, Option, none, some, Status, ok,
  err, einval, ebusy, eexist, ealready, eprototype, success, ◌==◌, if◌then◌else◌,
}
use zmk_pointing_tools.Core.Signal.{Kind, kind_valid, kind_accepted}
use zmk_pointing_tools.Core.Pipeline.Types.{Stage, StageApi, Pipeline, ResetReason, initialization}

-- strcmp(a, b) == 0
unfoldable pub bytes_eq : List ℕ → List ℕ → Bool
bytes_eq [] [] = true
bytes_eq [] (y ∷ ys) = false
bytes_eq (x ∷ xs) [] = false
bytes_eq (x ∷ xs) (y ∷ ys) = x == y && bytes_eq xs ys

abbrev pub is_empty : List ℕ → Bool
is_empty [] = true
is_empty (x ∷ xs) = false

-- previous_stage->state == stage->state
abbrev pub address_eq : Option ℕ → Option ℕ → Bool
address_eq none none = true
address_eq none (some b) = false
address_eq (some a) none = false
address_eq (some a) (some b) = a == b

-- owner != NULL && owner != pipeline
abbrev pub owned_by_other : Option ℕ → ℕ → Bool
owned_by_other none address = false
owned_by_other (some owner) address = not (owner == address)

abbrev pub is_null : Option ℕ → Bool
is_null none = true
is_null (some a) = false

module _ {S T : Type 0} where
  unfoldable pub validate_pipeline_identity : Pipeline S T → Status
  unfolding kind_valid
  validate_pipeline_identity p =
      if is_empty p.stable_id || not (kind_valid p.input_kind) || p.dispatch_budget == 0
      then err einval
      else success

  unfoldable pub validate_pipeline_sink : Pipeline S T → Status
  validate_pipeline_sink p =
      if is_empty p.sink.api.type_id
      then err einval
      else if owned_by_other p.sink.owner p.address
      then err ebusy
      else success

module _ {S : Type 0} where
  unfoldable pub validate_stage_api : StageApi S → Kind → Status
  unfolding kind_valid kind_accepted
  validate_stage_api api current_kind =
      if is_empty api.strategy_id
        || not (kind_valid api.output_kind)
        || not (kind_accepted api.accepted_kinds current_kind)
      then err einval
      else success

  -- The stages before `stage`, in their order.
  unfoldable pub find_stage_link_conflict : List (Stage S) → Stage S → Status
  unfolding bytes_eq
  find_stage_link_conflict [] stage = success
  find_stage_link_conflict (previous ∷ rest) stage =
      if bytes_eq previous.stable_id stage.stable_id
      then err eexist
      else if stage.api.stateful && address_eq previous.state_address stage.state_address
      then err ebusy
      else find_stage_link_conflict rest stage

  unfoldable pub validate_stage_link : ℕ → List (Stage S) → Stage S → Kind → Status
  unfolding validate_stage_api find_stage_link_conflict
  validate_stage_link address previous stage current_kind =
      if is_empty stage.stable_id
      then err einval
      else elim (validate_stage_api stage.api current_kind) [
        | err e ↦ err e
        | ok n ↦
            if stage.api.stateful && is_null stage.state_address
            then err einval
            else if owned_by_other stage.owner address
            then err ebusy
            else find_stage_link_conflict previous stage
      ]

  -- The loop over the stages: the stages passed, those to come, and the kind between them.
  unfoldable pub validate_stages : ℕ → List (Stage S) → List (Stage S) → Kind → Status × Kind
  unfolding validate_stage_link
  validate_stages address previous [] current_kind = (success, current_kind)
  validate_stages address previous (stage ∷ rest) current_kind =
      let next = validate_stages address (previous ++ (stage ∷ [])) rest stage.api.output_kind in
      elim (validate_stage_link address previous stage current_kind) [
        | err e ↦ (err e, current_kind)
        | ok n ↦ next
      ]

  unfoldable pub find_sink_conflict : List (Stage S) → List ℕ → Status
  unfolding bytes_eq
  find_sink_conflict [] sink_id = success
  find_sink_conflict (stage ∷ rest) sink_id =
      if bytes_eq stage.stable_id sink_id then err eexist else find_sink_conflict rest sink_id

  -- One turn of the loop of zpt_pipeline_reset.
  unfoldable pub reset_stage : ResetReason → Stage S → Stage S
  reset_stage reason stage = elim stage.api.reset [
    | none ↦ record stage { deadline_pending = false }
    | some reset ↦ record stage { deadline_pending = false; state = reset stage.state reason }
  ]

  unfoldable pub claim_stage : ℕ → Stage S → Stage S
  claim_stage address stage = record stage { owner = some address; deadline_pending = false }

module _ {S T : Type 0} where
  unfoldable pub validate_structure : Pipeline S T → Status
  unfolding validate_pipeline_identity validate_pipeline_sink validate_stages find_sink_conflict
      kind_accepted
  validate_structure p = elim (validate_pipeline_identity p) [
    | err e ↦ err e
    | ok n ↦ elim (validate_pipeline_sink p) [
      | err e ↦ err e
      | ok n ↦
          let (ret, current_kind) = validate_stages p.address [] p.stages p.input_kind in
          elim ret [
            | err e ↦ err e
            | ok n ↦
                if kind_accepted p.sink.api.accepted_kinds current_kind
                then find_sink_conflict p.stages p.sink.stable_id
                else err eprototype
          ]
    ]
  ]

  unfoldable pub pipeline_reset : ResetReason → Pipeline S T → Pipeline S T
  unfolding reset_stage
  pipeline_reset reason p =
      let stages = map (reset_stage reason) p.stages in
      elim p.sink.api.reset [
        | none ↦ record p { stages = stages }
        | some reset ↦ record p {
          stages = stages;
          sink = record (p.sink) { state = reset p.sink.state reason };
        }
      ]

  unfoldable pub pipeline_validate : Pipeline S T → Pipeline S T × Status
  unfolding validate_structure pipeline_reset claim_stage
  pipeline_validate p = if p.validated then (p, err ealready) else elim (validate_structure p) [
    | err e ↦ (p, err e)
    | ok n ↦ (
      pipeline_reset initialization (record p {
        stages = map (claim_stage p.address) p.stages;
        sink = record (p.sink) { owner = some p.address };
        validated = true;
        active = false;
      }),
      success,
    )
  ]
