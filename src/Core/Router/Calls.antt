-- ===== src/Core/Router/Calls.antt =====
-- Sequences of calls on a router.
use zmk_pointing_tools.Base.{
  Option-cases, arith, inr, Bool-cases, sym, none, if_true, not, inl, leb, length, subst, Status,
  ◌||◌, refl, ℕ, List, [], some, Option, ◌≡◌, ◌∷◌,
}
use zmk_pointing_tools.Core.Pipeline.Types.{PipelineResult, ResetReason, clear_result}
use zmk_pointing_tools.Core.Router.{
  router_flush, router_push, RouterReply, router_activate, router_deactivate, Router, router_select,
}
use zmk_pointing_tools.Core.Router.Keeps.{guard-RouterReturns, IsRouted, RouterReturns}
use zmk_pointing_tools.Core.Router.Runs.{deactivate-keeps, flush-keeps, activate-keeps, push-keeps}
use zmk_pointing_tools.Core.Signal.{Signal}
use zmk_pointing_tools.Core.Router.Select.{select-keeps}

-- A call on a router between two interrupts of its work queue.
pub data Call : Type 0 where
  activate : ResetReason → Call
  deactivate : ℕ → ResetReason → Call
  push : Signal → Call
  flush : ℕ → Call
  select : ℕ → ℕ → Call

module _ {S T : Type 0} where
  unfoldable pub router_call : Call → Router S T → RouterReply S T
  router_call (activate reason) r =
      let (r', ret) = router_activate reason r in some (r', clear_result, ret)
  router_call (deactivate now_ms reason) r = router_deactivate now_ms reason r
  router_call (push signal) r = router_push signal r
  router_call (flush now_ms) r = router_flush now_ms r
  router_call (select index now_ms) r = router_select index now_ms r

  unfoldable pub router_calls : List Call → Router S T → Option (Router S T)
  unfolding router_call
  router_calls [] r = some r
  router_calls (call ∷ rest) r = elim (router_call call r) [
    | none ↦ none
    | some (r', result, ret) ↦ router_calls rest r'
  ]

  weaken :
      (P : Router S T → PipelineResult → Status → Type 0) (m : RouterReply S T)
      → ((r : Router S T) (result : PipelineResult) (ret : Status) → P r result ret → IsRouted r)
      → RouterReturns P m
      → RouterReturns (λ r' result ret. IsRouted r') m
  weaken P none f k = k
  weaken P (some (r, result, ret)) f k = f r result ret k

  pub any_select-IsRouted :
      (index now_ms : ℕ) (r : Router S T)
      → IsRouted r
      → RouterReturns (λ r' result ret. IsRouted r') (router_select index now_ms r)
  unfolding router_select
  any_select-IsRouted index now_ms r h = elim (Bool-cases r.active) [
    | inl a ↦ elim (Bool-cases (leb (length r.pipelines) index)) [
      | inl past ↦
          subst (RouterReturns (λ r' result ret. IsRouted r'))
            (sym
              (if_true {b = not r.validated || leb (length r.pipelines) index} _ _ (ground arith)))
            h
      | inr inside ↦
          weaken _ _ (λ r' result ret k. k.0) (select-keeps index now_ms r h a (ground arith))
    ]
    | inr a ↦ guard-RouterReturns _ (not r.validated || leb (length r.pipelines) index) _ _ h (
        subst (RouterReturns (λ r' result ret. IsRouted r'))
          (sym (if_true {b = not r.active} _ _ (ground arith))) h)
  ]

  router_call-IsRouted :
      (call : Call) (r : Router S T)
      → IsRouted r
      → RouterReturns (λ r' result ret. IsRouted r') (router_call call r)
  unfolding router_call
  router_call-IsRouted (activate reason) r h = (activate-keeps reason r h).0
  router_call-IsRouted (deactivate now_ms reason) r h =
      weaken _ _ (λ r' result ret k. k.0) (deactivate-keeps now_ms reason r h)
  router_call-IsRouted (push signal) r h = push-keeps signal r h
  router_call-IsRouted (flush now_ms) r h = flush-keeps now_ms r h
  router_call-IsRouted (select index now_ms) r h = any_select-IsRouted index now_ms r h

  then_calls :
      (call : Call) (rest : List Call) (r : Router S T)
      → RouterReturns (λ r' result ret. IsRouted r') (router_call call r)
      → ((r' : Router S T)
          → IsRouted r'
          → (last : Router S T) × (router_calls rest r' ≡ some last) × IsRouted last)
      → (last : Router S T) × (router_calls (call ∷ rest) r ≡ some last) × IsRouted last
  unfolding router_calls
  then_calls call rest r k go = elim (Option-cases (router_call call r)) [
    | inl e ↦ absurd (subst (RouterReturns _) e k)
    | inr (reply, e) ↦
        rw (e, router_calls) (go reply.0 (subst (RouterReturns (λ r' result ret. IsRouted r')) e k))
  ]

  -- Any sequence of activations, deactivations, pushes, flushes and selections of a validated router
  -- returns, whatever the stages and the sinks do, and leaves a router of which no pipeline but the
  -- named one is active.
  pub calls-keep :
      (calls : List Call) (r : Router S T)
      → IsRouted r
      → (r' : Router S T) × (router_calls calls r ≡ some r') × IsRouted r'
  unfolding router_calls
  calls-keep [] r h = (r, refl, h)
  calls-keep (call ∷ rest) r h =
      then_calls call rest r (router_call-IsRouted call r h) (λ r' k. calls-keep rest r' k)
