-- ===== src/Core/Router/Keeps.antt =====
-- What holds of a validated router between two calls, and what entering a pipeline leaves.
use zmk_pointing_tools.Base.{
  Bool, if◌then◌else◌, subst, not, length-set, ok, arith, err, ◌∙◌, ◌⊎◌, get_elem?, length, true,
  none, inr, Option-cases, inl, false, Status, refl, ℕ, some, is_error, ◌≡◌,
}
use zmk_pointing_tools.Core.Pipeline.Types.{Pipeline, PipelineResult, ResetReason}
use zmk_pointing_tools.Core.Router.{
  router_active_pipeline, settle, enter_pipeline, RouterReply, Router,
}
use zmk_pointing_tools.Core.Router.Active.{
  none-get_elem?, set-starts, set-stays_idle, set-ready, ready-get_elem?, idle-get_elem?, AllReady,
  OnlyActive,
}
use zmk_pointing_tools.Core.Pipeline.Activate.{pipeline_activate}
use zmk_pointing_tools.Core.Pipeline.Idle.{activate-enters, AllIdle-AllFlushable}
use zmk_pointing_tools.Core.Pipeline.Sound.{AllFlushable}

module _ {S T : Type 0} where
  -- What holds of a validated router between two calls.
  pub record IsRouted (r : Router S T) : Type 0 where
    pub is_validated : r.validated ≡ true
    pub ready : AllReady r.pipelines
    pub only : OnlyActive r.pipelines r.active_pipeline_index
    pub inactive : r.active ≡ false → r.active_pipeline_index ≡ none

  -- The operation returned, with the property.
  abbrev pub RouterReturns :
      (Router S T → PipelineResult → Status → Type 0) → RouterReply S T → Type 0
  RouterReturns P none = ⊥
  RouterReturns P (some (r, result, ret)) = P r result ret

  -- A router of which no pipeline is active, while it may itself be.
  pub record IsVacant (r : Router S T) : Type 0 where
    pub is_validated : r.validated ≡ true
    pub ready : AllReady r.pipelines
    pub only : OnlyActive r.pipelines none
    pub named : r.active_pipeline_index ≡ none

  -- What entering a pipeline of a vacant router leaves.
  pub record HasEntered (index : ℕ) (r r' : Router S T) (ret : Status) : Type 0 where
    pub is_validated : r'.validated ≡ true
    pub ready : AllReady r'.pipelines
    pub same_active : r'.active ≡ r.active
    pub same_length : length r'.pipelines ≡ length r.pipelines
    pub on_success :
        is_error ret ≡ false
        → (r'.active_pipeline_index ≡ some index) × OnlyActive r'.pipelines (some index)
    pub on_error :
        is_error ret ≡ true → (r'.active_pipeline_index ≡ none) × OnlyActive r'.pipelines none

  pub settle-HasEntered :
      (index : ℕ) (answer : Pipeline S T × Status) (r : Router S T)
      → IsVacant r
      → answer.0.validated ≡ true
      → AllFlushable answer.0.stages
      → answer.0.active ≡ not (is_error answer.1)
      → let (r', ret) = settle index answer r in HasEntered index r r' ret
  unfolding settle
  settle-HasEntered index (p, err e) r h v f a = record {
    is_validated = h.is_validated;
    ready = set-ready r.pipelines index p h.ready v f;
    same_active = refl;
    same_length = length-set r.pipelines index p;
    on_success = λ c. cc;
    on_error = λ c. (h.named, set-stays_idle r.pipelines index p h.only a);
  }
  settle-HasEntered index (p, ok n) r h v f a = record {
    is_validated = h.is_validated;
    ready = set-ready r.pipelines index p h.ready v f;
    same_active = refl;
    same_length = length-set r.pipelines index p;
    on_success = λ c. (refl, set-starts r.pipelines index p h.only a);
    on_error = λ c. cc;
  }

  pub enter_pipeline-HasEntered :
      (reason : ResetReason) (index : ℕ) (r : Router S T)
      → IsVacant r
      → let (r', ret) = enter_pipeline reason index r in HasEntered index r r' ret
  unfolding enter_pipeline
  enter_pipeline-HasEntered reason index r h = elim (Option-cases (get_elem? r.pipelines index)) [
    | inl e ↦
        rw (e, enter_pipeline)
          (record {
            is_validated = h.is_validated;
            ready = h.ready;
            same_active = refl;
            same_length = refl;
            on_success = λ p. cc;
            on_error = λ p. (h.named, h.only);
          })
    | inr (p, e) ↦
        let (v, f) = ready-get_elem? r.pipelines index h.ready e in
        let entered = activate-enters reason p v (idle-get_elem? r.pipelines index h.only e) in
        rw (e, enter_pipeline)
          (settle-HasEntered index (pipeline_activate reason p) r h (entered.same_validated ∙ v)
            (AllIdle-AllFlushable _ entered.idle) entered.active_if_success)
  ]

  -- The pipeline that a routed, active router works on, or that it has none.
  pub active_view :
      (r : Router S T)
      → IsRouted r
      → r.active ≡ true
      → ((router_active_pipeline r ≡ none) × OnlyActive r.pipelines none)
        ⊎ ((index : ℕ) × (p : Pipeline S T) × (router_active_pipeline r ≡ some (index, p))
            × (r.active_pipeline_index ≡ some index)
            × (get_elem? r.pipelines index ≡ some p)
            × OnlyActive r.pipelines (some index))
  unfolding router_active_pipeline
  active_view r h a = elim (Option-cases r.active_pipeline_index) [
    | inl e ↦ inl (ground (arith, h), subst (OnlyActive r.pipelines) e h.only)
    | inr (index, e) ↦ elim (Option-cases (get_elem? r.pipelines index)) [
      | inl q ↦ inl (
        ground (arith, h),
        none-get_elem? r.pipelines index (subst (OnlyActive r.pipelines) e h.only) q,
      )
      | inr (p, q) ↦
          inr (index, p, ground (arith, h), e, q, subst (OnlyActive r.pipelines) e h.only)
    ]
  ]

  pub guard-RouterReturns :
      (P : Router S T → PipelineResult → Status → Type 0) (b : Bool) (m n : RouterReply S T)
      → RouterReturns P m
      → RouterReturns P n
      → RouterReturns P (if b then m else n)
  guard-RouterReturns P true m n h k = h
  guard-RouterReturns P false m n h k = k

  pub past_guard :
      (P : Router S T → PipelineResult → Status → Type 0) (b : Bool) (m n : RouterReply S T)
      → b ≡ false
      → RouterReturns P n
      → RouterReturns P (if b then m else n)
  past_guard P true m n e k = cc
  past_guard P false m n e k = k
