-- ===== src/Core/Router/Validates.antt =====
-- Validating a router makes it ready to be activated.
use zmk_pointing_tools.Base.{
  Status-cases, map, refl, arith, List, inr, some, [], none, Bool-cases, inl, false, is_error, true,
  ◌≡◌, ◌∷◌,
}
use zmk_pointing_tools.Core.Pipeline.Types.{initialization, Pipeline}
use zmk_pointing_tools.Core.Router.{
  validate_router_structure, router_validate, validate_pipelines, Router,
}
use zmk_pointing_tools.Core.Router.Active.{OnlyActive, AllReady}
use zmk_pointing_tools.Core.Router.Keeps.{IsRouted}
use zmk_pointing_tools.Core.Pipeline.Idle.{pipeline_reset-IsReset, AllIdle-AllFlushable, AllIdle}
use zmk_pointing_tools.Core.Pipeline.Validate.{validate_structure, claim_stage, pipeline_validate}

module _ {S T : Type 0} where
  pipeline_validate-establishes :
      (p : Pipeline S T)
      → is_error (pipeline_validate p).1 ≡ false
      → let p' = (pipeline_validate p).0 in
        (p'.validated ≡ true) × (p'.active ≡ false) × AllIdle p'.stages
  unfolding pipeline_validate
  pipeline_validate-establishes p h = elim (Bool-cases p.validated) [
    | inl v ↦ absurd (ground arith)
    | inr v ↦ elim (Status-cases (validate_structure p)) [
      | inl (e, q) ↦ absurd (ground arith)
      | inr (n, q) ↦ ground (
        arith,
        pipeline_reset-IsReset initialization (record p {
          stages = map (claim_stage p.address) p.stages;
          sink = record (p.sink) { owner = some p.address };
          validated = true;
          active = false;
        }),
      )
    ]
  ]

  validate_pipelines-AllReady :
      (ps : List (Pipeline S T))
      → is_error (validate_pipelines ps).1 ≡ false
      → AllReady (validate_pipelines ps).0 × OnlyActive (validate_pipelines ps).0 none
  unfolding validate_pipelines
  validate_pipelines-AllReady [] h = (tt, tt)
  validate_pipelines-AllReady (p ∷ rest) h = elim (Status-cases (pipeline_validate p).1) [
    | inl (e, q) ↦ absurd (ground arith)
    | inr (n, q) ↦
        let (v, a, i) = pipeline_validate-establishes p (ground arith) in
        let (ready, none_active) = validate_pipelines-AllReady rest (ground arith) in
        rw (q, validate_pipelines) ((v, AllIdle-AllFlushable _ i, ready), (a, none_active))
  ]

  -- A router that validates is ready to be activated.
  pub validate-establishes :
      (r : Router S T)
      → is_error (router_validate r).1 ≡ false
      → IsRouted (router_validate r).0 × ((router_validate r).0.active ≡ false)
  unfolding router_validate
  validate-establishes r h = elim (Bool-cases r.validated) [
    | inl v ↦ absurd (ground arith)
    | inr v ↦ elim (Status-cases (validate_router_structure r)) [
      | inl (e, q) ↦ absurd (ground arith)
      | inr (n, q) ↦ elim (Status-cases (validate_pipelines r.pipelines).1) [
        | inl (e, q') ↦ absurd (ground arith)
        | inr (n', q') ↦
            let (ready, none_active) = validate_pipelines-AllReady r.pipelines (ground arith) in
            let settled : IsRouted (record r {
              pipelines = (validate_pipelines r.pipelines).0;
              active_pipeline_index = none;
              validated = true;
              active = false;
            }) =
              record {
                is_validated = refl;
                ready = ready;
                only = none_active;
                inactive = λ e. refl;
              } in
            rw (v, q, q', router_validate) (settled, refl)
      ]
    ]
  ]
