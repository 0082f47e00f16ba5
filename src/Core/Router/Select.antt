-- ===== src/Core/Router/Select.antt =====
-- Selecting a pipeline of a router: it returns, and at most one pipeline is active after it.
use zmk_pointing_tools.Base.{
  ℕ, refl, success, length-set, inl, inr, Option, length, is_error, none, set, some, true, not,
  if_true, arith, sym, Bool-cases, Status, false, subst, leb, ◌<◌, ◌≡◌, ◌∙◌, ◌⊎◌, ◌||◌,
}
use zmk_pointing_tools.Core.Pipeline.Deactivate.{pipeline_deactivate}
use zmk_pointing_tools.Core.Pipeline.Idle.{AllIdle, AllIdle-AllFlushable, deactivate-leaves}
use zmk_pointing_tools.Core.Pipeline.Push.{Reply}
use zmk_pointing_tools.Core.Pipeline.Returns.{IsWithinBudget, Returns}
use zmk_pointing_tools.Core.Pipeline.Types.{Pipeline, pipeline_entered, pipeline_left}
use zmk_pointing_tools.Core.Pipeline.Validate.{address_eq}
use zmk_pointing_tools.Core.Router.{
  router_select, router_active_pipeline, enter_or_restore, leave_and_enter, RouterReply, Router,
  enter_pipeline, error_or_success, replace_pipeline,
}
use zmk_pointing_tools.Core.Router.Active.{
  ready-get_elem?, AllReady, OnlyActive, set-stops, set-ready, active-get_elem?,
}
use zmk_pointing_tools.Core.Router.Keeps.{
  IsRouted, past_guard, RouterReturns, active_view, IsVacant, enter_pipeline-HasEntered,
}

named_again : (o : Option ℕ) (index : ℕ) → address_eq o (some index) ≡ true → o ≡ some index
named_again none index e = cc
named_again (some a) index e = ground arith

module _ {S T : Type 0} where
  -- What selecting leaves: one pipeline active at most, the named one, which on success is the
  -- selected one and on an error is not a third one.
  pub record HasSelected (index : ℕ) (previous : Option ℕ) (r r' : Router S T) (ret : Status)
      : Type 0 where
    pub is_validated : r'.validated ≡ true
    pub ready : AllReady r'.pipelines
    pub only : OnlyActive r'.pipelines r'.active_pipeline_index
    pub same_active : r'.active ≡ r.active
    pub same_length : length r'.pipelines ≡ length r.pipelines
    pub on_success : is_error ret ≡ false → r'.active_pipeline_index ≡ some index
    pub selected_from :
        (r'.active_pipeline_index ≡ some index)
        ⊎ (r'.active_pipeline_index ≡ previous)
        ⊎ (r'.active_pipeline_index ≡ none)

  enter_or_restore-HasSelected :
      (index : ℕ) (previous : Option ℕ) (first_error : Status) (r : Router S T)
      → IsVacant r
      → let (r', ret) = enter_or_restore index previous first_error r in
        HasSelected index previous r r' ret
  unfolding enter_or_restore
  enter_or_restore-HasSelected index none first_error r h =
      ground (arith, enter_pipeline-HasEntered pipeline_entered index r h)
  enter_or_restore-HasSelected index (some back) first_error r h =
      let first = enter_pipeline pipeline_entered index r in
      let entered = enter_pipeline-HasEntered pipeline_entered index r h in
      elim (Bool-cases (is_error first.1)) [
        | inl failed ↦
            let vacant : IsVacant first.0 = record {
              is_validated = entered.is_validated;
              ready = entered.ready;
              only = (entered.on_error failed).1;
              named = (entered.on_error failed).0;
            } in
            ground (arith, enter_pipeline-HasEntered pipeline_entered back first.0 vacant, entered)
        | inr fine ↦ ground (arith, entered)
      ]

  widen-HasSelected :
      (index : ℕ) (previous : Option ℕ) (r r' : Router S T) (ret : Status)
      → HasSelected index none (record r { active_pipeline_index = none }) r' ret
      → HasSelected index previous r r' ret
  widen-HasSelected index previous r r' ret s = record {
    is_validated = s.is_validated;
    ready = s.ready;
    only = s.only;
    same_active = s.same_active;
    same_length = s.same_length;
    on_success = s.on_success;
    selected_from = elim s.selected_from [
      | inl e ↦ inl e
      | inr rest ↦ inr (inr (elim rest [ inl e ↦ e | inr e ↦ e ]))
    ];
  }

  HasSelected-IsRouted :
      (index : ℕ) (previous : Option ℕ) (r r' : Router S T) (ret : Status)
      → r.active ≡ true
      → HasSelected index previous r r' ret
      → IsRouted r'
  HasSelected-IsRouted index previous r r' ret a h = record {
    is_validated = h.is_validated;
    ready = h.ready;
    only = h.only;
    inactive = λ e. cc (h.same_active);
  }

  replace_pipeline-HasSelected :
      (index previous : ℕ) (r : Router S T) (p : Pipeline S T) (m : Reply S T)
      → IsRouted r
      → p.validated ≡ true
      → r.active_pipeline_index ≡ some previous
      → OnlyActive r.pipelines (some previous)
      → Returns
          (λ p' result ret. IsWithinBudget p p' result × (p'.active ≡ false) × AllIdle p'.stages)
          m
      → RouterReturns
          (λ r' result ret. HasSelected index r.active_pipeline_index r r' ret)
          (replace_pipeline index previous r m)
  unfolding replace_pipeline
  replace_pipeline-HasSelected index previous r p none h v n o k = k
  replace_pipeline-HasSelected index previous r p (some (p', result, ret)) h v n o (k, a, i) =
      let vacant : IsVacant
          (record r { pipelines = set r.pipelines previous p'; active_pipeline_index = none }) =
        record {
          is_validated = h.is_validated;
          ready =
              set-ready r.pipelines previous p' h.ready (k.successor.same_validated ∙ v)
                (AllIdle-AllFlushable _ i);
          only = set-stops r.pipelines previous p' o a;
          named = refl;
        } in
      let s = enter_or_restore-HasSelected index (some previous) (error_or_success ret) _ vacant in
      record {
        is_validated = s.is_validated;
        ready = s.ready;
        only = s.only;
        same_active = s.same_active;
        same_length = s.same_length ∙ length-set r.pipelines previous p';
        on_success = s.on_success;
        selected_from = elim s.selected_from [
          | inl e ↦ inl e
          | inr rest ↦ inr (elim rest [ inl e ↦ inl (e ∙ sym n) | inr e ↦ inr e ])
        ];
      }

  leave_and_enter-HasSelected :
      (index now_ms : ℕ) (r : Router S T)
      → IsRouted r
      → r.active ≡ true
      → RouterReturns
          (λ r' result ret. HasSelected index r.active_pipeline_index r r' ret)
          (leave_and_enter index now_ms (router_active_pipeline r) r)
  unfolding leave_and_enter
  leave_and_enter-HasSelected index now_ms r h a = elim (active_view r h a) [
    | inl (e, o) ↦
        let vacant : IsVacant (record r { active_pipeline_index = none }) = record {
          is_validated = h.is_validated;
          ready = h.ready;
          only = o;
          named = refl;
        } in
        rw (e) (
          widen-HasSelected index r.active_pipeline_index r _ _
            (enter_or_restore-HasSelected index none success _ vacant))
    | inr (previous, p, e, n, g, o) ↦
        let (v, f) = ready-get_elem? r.pipelines previous h.ready g in
        rw (e) (
          replace_pipeline-HasSelected index previous r p
            (pipeline_deactivate now_ms pipeline_left p) h v n o
            (deactivate-leaves now_ms pipeline_left p f v
              (active-get_elem? r.pipelines previous o g)))
  ]

  stays :
      (index : ℕ) (r : Router S T)
      → IsRouted r
      → r.active_pipeline_index ≡ some index
      → HasSelected index r.active_pipeline_index r r success
  stays index r h n = record {
    is_validated = h.is_validated;
    ready = h.ready;
    only = h.only;
    same_active = refl;
    same_length = refl;
    on_success = λ e. n;
    selected_from = inl n;
  }

  with_IsRouted :
      (index : ℕ) (previous : Option ℕ) (r : Router S T) (m : RouterReply S T)
      → r.active ≡ true
      → RouterReturns (λ r' result ret. HasSelected index previous r r' ret) m
      → RouterReturns (λ r' result ret. IsRouted r' × HasSelected index previous r r' ret) m
  with_IsRouted index previous r none a k = k
  with_IsRouted index previous r (some (r', result, ret)) a k =
      (HasSelected-IsRouted index previous r r' ret a k, k)

  -- Selecting a pipeline of an active router always returns, whatever the stages and the sinks do:
  -- at most the named pipeline is active afterwards; without an error it is the selected one, and
  -- with an error it is the selected one, the one before, or none.
  pub select-keeps :
      (index now_ms : ℕ) (r : Router S T)
      → IsRouted r
      → r.active ≡ true
      → index < length r.pipelines
      → RouterReturns
          (λ r' result ret. IsRouted r' × HasSelected index r.active_pipeline_index r r' ret)
          (router_select index now_ms r)
  unfolding router_select
  select-keeps index now_ms r h a l =
      past_guard _ (not r.validated || leb (length r.pipelines) index) _ _
        (ground (arith, h.is_validated))
        (past_guard _ (not r.active) _ _ (ground arith)
          (elim (Bool-cases (address_eq r.active_pipeline_index (some index))) [
            | inl same ↦
                subst
                  (RouterReturns (λ r' result ret.
                    IsRouted r' × HasSelected index r.active_pipeline_index r r' ret))
                  (sym (if_true _ _ same)) (h, stays index r h (named_again _ index same))
            | inr differs ↦
                past_guard _ (address_eq r.active_pipeline_index (some index)) _ _ differs (
                  with_IsRouted index r.active_pipeline_index r _ a
                    (leave_and_enter-HasSelected index now_ms r h a))
          ]))
