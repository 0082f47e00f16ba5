-- ===== src/Core/Router/Runs.antt =====
-- The other operations of a router return, and keep at most one of its pipelines active.
use zmk_pointing_tools.Base.{
  if_true, refl, arith, set, ℕ, subst, inr, some, none, not, sym, Bool-cases, inl, false, is_error,
  true, ◌≡◌, ◌∙◌,
}
use zmk_pointing_tools.Core.Pipeline.Flush.{pipeline_flush}
use zmk_pointing_tools.Core.Pipeline.Push.{Reply, pipeline_push}
use zmk_pointing_tools.Core.Pipeline.Returns.{flush-Returns, IsWithinBudget, Returns, push-Returns}
use zmk_pointing_tools.Core.Pipeline.Sound.{AllFlushable}
use zmk_pointing_tools.Core.Pipeline.Types.{ResetReason, Pipeline}
use zmk_pointing_tools.Core.Router.{
  enter_pipeline, stopped, stop_active, stored, router_flush, router_deactivate, on_active,
  router_activate, router_push, Router, router_active_pipeline,
}
use zmk_pointing_tools.Core.Router.Active.{
  set-stops, active-get_elem?, OnlyActive, set-stays_active, ready-get_elem?, set-ready,
}
use zmk_pointing_tools.Core.Router.Keeps.{
  past_guard, enter_pipeline-HasEntered, IsVacant, IsRouted, active_view, RouterReturns,
  guard-RouterReturns,
}
use zmk_pointing_tools.Core.Signal.{kind, kind_eq, Signal}
use zmk_pointing_tools.Core.Pipeline.Deactivate.{pipeline_deactivate}
use zmk_pointing_tools.Core.Pipeline.Idle.{AllIdle-AllFlushable, deactivate-leaves, AllIdle}

module _ {S T : Type 0} where
  stored-IsRouted :
      (index : ℕ) (r : Router S T) (p : Pipeline S T) (m : Reply S T)
      → IsRouted r
      → p.validated ≡ true
      → p.active ≡ true
      → r.active_pipeline_index ≡ some index
      → OnlyActive r.pipelines (some index)
      → Returns (λ p' result ret. IsWithinBudget p p' result × (p'.active ≡ p.active)) m
      → RouterReturns (λ r' result ret. IsRouted r') (stored index r m)
  unfolding stored
  stored-IsRouted index r p none h v a n o k = k
  stored-IsRouted index r p (some (p', result, ret)) h v a n o (k, e) = record {
    is_validated = h.is_validated;
    ready =
        set-ready r.pipelines index p' h.ready (k.successor.same_validated ∙ v)
          k.successor.flushable;
    only =
        subst (OnlyActive (set r.pipelines index p')) (sym n)
          (set-stays_active r.pipelines index p' o (e ∙ a));
    inactive = h.inactive;
  }

  on_active-IsRouted :
      (f : Pipeline S T → Reply S T)
      → ((p : Pipeline S T)
          → AllFlushable p.stages
          → Returns (λ p' result ret. IsWithinBudget p p' result × (p'.active ≡ p.active)) (f p))
      → (r : Router S T) → IsRouted r
      → RouterReturns (λ r' result ret. IsRouted r') (on_active f (router_active_pipeline r) r)
  unfolding on_active router_active_pipeline
  on_active-IsRouted f k r h = elim (Bool-cases r.active) [
    | inl a ↦ elim (active_view r h a) [
      | inl (e, o) ↦ rw (e) h
      | inr (index, p, e, n, g, o) ↦
          let (v, flushable) = ready-get_elem? r.pipelines index h.ready g in
          rw (e) (
            stored-IsRouted index r p (f p) h v (active-get_elem? r.pipelines index o g) n o
              (k p flushable))
    ]
    | inr a ↦ let no_pipeline : router_active_pipeline r ≡ none = ground arith in rw (no_pipeline) h
  ]

  -- Pushing returns, and keeps what holds of a router between two calls.
  pub push-keeps :
      (signal : Signal) (r : Router S T)
      → IsRouted r
      → RouterReturns (λ r' result ret. IsRouted r') (router_push signal r)
  unfolding router_push
  push-keeps signal r h = guard-RouterReturns _ (not r.validated) _ _ h (
      guard-RouterReturns _ (not (kind_eq (kind signal) r.input_kind)) _ _ h
        (on_active-IsRouted (pipeline_push signal) (λ p. push-Returns p signal) r h))

  -- So does flushing.
  pub flush-keeps :
      (now_ms : ℕ) (r : Router S T)
      → IsRouted r
      → RouterReturns (λ r' result ret. IsRouted r') (router_flush now_ms r)
  unfolding router_flush
  flush-keeps now_ms r h =
      guard-RouterReturns _ (not r.validated) _ _ h
        (on_active-IsRouted (pipeline_flush now_ms) (λ p. flush-Returns p now_ms) r h)

  -- Entering the default pipeline: on success the router is active with it, on an error it is
  -- inactive, and in both cases no other pipeline is active.
  pub activate-keeps :
      (reason : ResetReason) (r : Router S T)
      → IsRouted r
      → let (r', ret) = router_activate reason r in
        IsRouted r'
        × (r.active ≡ false
            → is_error ret ≡ false
            → (r'.active ≡ true) × (r'.active_pipeline_index ≡ some r.default_pipeline_index))
        × (r.active ≡ false → is_error ret ≡ true → r'.active ≡ false)
  unfolding router_activate
  activate-keeps reason r h = elim (Bool-cases r.active) [
    | inl a ↦ ground (arith, h)
    | inr a ↦
        let vacant : IsVacant r = record {
          is_validated = h.is_validated;
          ready = h.ready;
          only = subst (OnlyActive r.pipelines) (h.inactive a) h.only;
          named = h.inactive a;
        } in
        let entered = enter_pipeline-HasEntered reason r.default_pipeline_index r vacant in
        elim (Bool-cases (is_error (enter_pipeline reason r.default_pipeline_index r).1)) [
          | inl failed ↦
              let failed_IsRouted : IsRouted (enter_pipeline reason r.default_pipeline_index r).0 =
                record {
                  is_validated = entered.is_validated;
                  ready = entered.ready;
                  only =
                      subst (OnlyActive _) (sym (entered.on_error failed).0)
                        (entered.on_error failed).1;
                  inactive = λ e. (entered.on_error failed).0;
                } in
              ground (arith, h, entered, failed_IsRouted)
          | inr fine ↦
              let started_IsRouted : IsRouted
                  (record ((enter_pipeline reason r.default_pipeline_index r).0) {
                    active = true;
                  }) =
                record {
                  is_validated = entered.is_validated;
                  ready = entered.ready;
                  only =
                      subst (OnlyActive _) (sym (entered.on_success fine).0)
                        (entered.on_success fine).1;
                  inactive = λ e. cc;
                } in
              ground (arith, h, entered, started_IsRouted)
        ]
  ]

  stopped-IsRouted :
      (index : ℕ) (r : Router S T) (p : Pipeline S T) (m : Reply S T)
      → IsRouted r
      → p.validated ≡ true
      → OnlyActive r.pipelines (some index)
      → Returns
          (λ p' result ret. IsWithinBudget p p' result × (p'.active ≡ false) × AllIdle p'.stages)
          m
      → RouterReturns
          (λ r' result ret. IsRouted r' × (r'.active ≡ false) × OnlyActive r'.pipelines none)
          (stopped index r m)
  unfolding stopped
  stopped-IsRouted index r p none h v o k = k
  stopped-IsRouted index r p (some (p', result, ret)) h v o (k, a, i) =
      let rest : OnlyActive (set r.pipelines index p') none = set-stops r.pipelines index p' o a in
      (
        record {
          is_validated = h.is_validated;
          ready =
              set-ready r.pipelines index p' h.ready (k.successor.same_validated ∙ v)
                (AllIdle-AllFlushable _ i);
          only = rest;
          inactive = λ e. refl;
        },
        refl,
        rest,
      )

  stop_active-keeps :
      (now_ms : ℕ) (reason : ResetReason) (r : Router S T)
      → IsRouted r
      → r.active ≡ true
      → RouterReturns
          (λ r' result ret. IsRouted r' × (r'.active ≡ false) × OnlyActive r'.pipelines none)
          (stop_active now_ms reason (router_active_pipeline r) r)
  unfolding stop_active
  stop_active-keeps now_ms reason r h a = elim (active_view r h a) [
    | inl (e, o) ↦
        let idle : IsRouted (record r { active_pipeline_index = none; active = false }) = record {
          is_validated = h.is_validated;
          ready = h.ready;
          only = o;
          inactive = λ e. refl;
        } in
        rw (e) (idle, refl, o)
    | inr (index, p, e, n, g, o) ↦
        let (v, f) = ready-get_elem? r.pipelines index h.ready g in
        rw (e) (
          stopped-IsRouted index r p (pipeline_deactivate now_ms reason p) h v o
            (deactivate-leaves now_ms reason p f v (active-get_elem? r.pipelines index o g)))
  ]

  -- Leaving: the router returns inactive, with no pipeline active.
  pub deactivate-keeps :
      (now_ms : ℕ) (reason : ResetReason) (r : Router S T)
      → IsRouted r
      → RouterReturns
          (λ r' result ret. IsRouted r' × (r'.active ≡ false) × OnlyActive r'.pipelines none)
          (router_deactivate now_ms reason r)
  unfolding router_deactivate
  deactivate-keeps now_ms reason r h =
      past_guard _ (not r.validated) _ _ (ground (arith, h.is_validated))
        (elim (Bool-cases r.active) [
          | inr a ↦
              let idle : OnlyActive r.pipelines none =
                subst (OnlyActive r.pipelines) (h.inactive a) h.only in
              subst
                (RouterReturns (λ r' result ret.
                  IsRouted r' × (r'.active ≡ false) × OnlyActive r'.pipelines none))
                (sym (if_true {b = not r.active} _ _ (ground arith))) (h, a, idle)
          | inl a ↦
              past_guard _ (not r.active) _ _ (ground arith) (stop_active-keeps now_ms reason r h a)
        ])
