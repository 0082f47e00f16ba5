-- ===== src/Platform/RouterExecutor.antt =====
-- src/platform/zmk/router_executor.c: the operations of a router under its executor's mutex, with the work
-- that is to run at the router's next deadline. `M` is Zephyr's mutex and `W` its delayable work, whose
-- `pending` is the delay it was last scheduled with while it is pending; the kernel's calls on them are
-- arguments. The work's handler is a flush. An operation is `none` where the router's is (Core/Router).
use zmk_pointing_tools.Base.{
  success, true, Status, refl, some, none, false, is_error, Option, Errno, inl, inr, err,
  if◌then◌else◌, ◌≡◌, ap, ◌∙◌, ok, ℕ, ◌⊎◌, Option-cases, subst, arith, Bool, not, ◌&&◌,
}
use zmk_pointing_tools.Platform.DeadlineWork.{due, reschedule_for, reschedule_for-due}
use zmk_pointing_tools.Core.Pipeline.Types.{PipelineResult, ResetReason, clear_result}
use zmk_pointing_tools.Core.Router.{
  router_flush, router_push, RouterReply, router_activate, Router, router_select,
  router_next_deadline,
}
use zmk_pointing_tools.Core.Router.Calls.{any_select-IsRouted}
use zmk_pointing_tools.Core.Router.Keeps.{IsRouted, RouterReturns}
use zmk_pointing_tools.Core.Router.Runs.{flush-keeps, activate-keeps, push-keeps}
use zmk_pointing_tools.Core.Signal.{Signal}

-- struct zpt_zmk_router_executor
pub record Executor (M W S T : Type 0) : Type 0 where
  pub lock : M
  pub deadline_work : W
  pub router : Router S T

-- The executor, the counters where they are written, and the status.
abbrev pub ExecutorReply : (M W S T : Type 0) → Type 0
ExecutorReply M W S T = Option (Executor M W S T × Option PipelineResult × Status)

-- The status of an operation, then of the deadline, then of the unlock.
unfoldable pub combined : (operation deadline unlock : Status) → Status
combined operation deadline unlock =
    if is_error operation then operation else if is_error deadline then deadline else unlock

-- An operation of the router.
pub data ExecutorCall : Type 0 where
  activate : ResetReason → ExecutorCall
  select : ℕ → ExecutorCall
  push : Signal → ExecutorCall
  flush : ExecutorCall

combined-deadline :
    (n : ℕ) (deadline unlock : Status)
    → is_error (combined (ok n) deadline unlock) ≡ false
    → is_error deadline ≡ false
unfolding combined
combined-deadline n (ok m) unlock h = refl
combined-deadline n (err e) unlock h = h

module _ {W : Type 0} (pending : W → Option ℕ) (cancel : W → W × Status)
    (reschedule : ℕ → W → W × Status) where
  module _ {M S T : Type 0} (mutex_lock mutex_unlock : M → M × Status) where
    unfoldable pub update_deadline_locked : ℕ → Executor M W S T → Executor M W S T × Status
    unfolding reschedule_for due
    update_deadline_locked now_ms executor =
        let (work, ret) =
          reschedule_for pending cancel reschedule
            (due now_ms (router_next_deadline executor.router now_ms)) executor.deadline_work in
        (record executor { deadline_work = work }, ret)

    unfoldable pub unlock_with_result :
        Executor M W S T → (operation_result deadline_result : Status) → Executor M W S T × Status
    unfolding combined
    unlock_with_result executor operation_result deadline_result =
        let (m, ret) = mutex_unlock executor.lock in
        (record executor { lock = m }, combined operation_result deadline_result ret)

    -- What follows an operation; an activation that fails leaves the deadline.
    unfoldable pub conclude :
        (always : Bool) → ℕ → Executor M W S T → Status → Executor M W S T × Status
    unfolding update_deadline_locked unlock_with_result
    conclude always now_ms executor ret =
        let (executor', deadline_result) = update_deadline_locked now_ms executor in
        if is_error ret && not always
        then unlock_with_result executor ret success
        else unlock_with_result executor' ret deadline_result

    -- An operation, on what the lock answered.
    unfoldable pub after_lock :
        (always : Bool)
        → ℕ
        → (Router S T → RouterReply S T)
        → Executor M W S T
        → M × Status
        → ExecutorReply M W S T
    unfolding conclude
    after_lock always now_ms operation executor (m, locked) =
        if is_error locked
        then some (record executor { lock = m }, none, locked)
        else elim (operation executor.router) [
          | none ↦ none
          | some (router, result, ret) ↦
              let (executor', status) =
                conclude always now_ms (record executor { lock = m; router = router }) ret in
              some (executor', if always then some result else none, status)
        ]

    -- An operation between the lock and the unlock.
    unfoldable pub under_lock :
        (always : Bool)
        → ℕ
        → (Router S T → RouterReply S T)
        → Executor M W S T
        → ExecutorReply M W S T
    unfolding after_lock
    under_lock always now_ms operation executor =
        after_lock always now_ms operation executor (mutex_lock executor.lock)

    -- zpt_router_activate writes no counters.
    unfoldable pub activated : ResetReason → Router S T → RouterReply S T
    activated reason router =
        let (router', ret) = router_activate reason router in some (router', clear_result, ret)

    -- An operation, at the time that the caller or the kernel's clock says.
    unfoldable pub executor_call : ExecutorCall → ℕ → Executor M W S T → ExecutorReply M W S T
    unfolding under_lock activated
    executor_call (activate reason) now_ms executor =
        under_lock false now_ms (activated reason) executor
    executor_call (select index) now_ms executor =
        under_lock true now_ms (router_select index now_ms) executor
    executor_call (push signal) now_ms executor =
        under_lock true now_ms (router_push signal) executor
    executor_call flush now_ms executor = under_lock true now_ms (router_flush now_ms) executor

    -- What an operation leaves: the mutex as it was and, without an error, the work for the deadline.
    pub record IsTimed (now_ms : ℕ) (before after : Executor M W S T) (ret : Status) : Type 0 where
      pub routed : IsRouted after.router
      pub unlocked : after.lock ≡ before.lock
      pub timed :
          is_error ret ≡ false
          → pending after.deadline_work ≡ due now_ms (router_next_deadline after.router now_ms)

    module _ (cancels : (w : W) → is_error (cancel w).1 ≡ false → pending (cancel w).0 ≡ none)
        (reschedules : (delay_ms : ℕ) (w : W)
          → is_error (reschedule delay_ms w).1 ≡ false
          → pending (reschedule delay_ms w).0 ≡ some delay_ms)
        (locks : (m : M)
          → ((e : Errno) × (mutex_lock m ≡ (m, err e)))
            ⊎ ((m' : M) × (n : ℕ) × (mutex_lock m ≡ (m', ok n))
                × (mutex_unlock m' ≡ (m, success)))) where
      conclude-IsTimed :
          (always : Bool) (now_ms : ℕ) (before held : Executor M W S T) (ret : Status)
          → IsRouted held.router
          → mutex_unlock held.lock ≡ (before.lock, success)
          → let (after, status) = conclude always now_ms held ret in
            IsTimed now_ms before after status
      unfolding conclude update_deadline_locked unlock_with_result
      conclude-IsTimed always now_ms before held (ok n) r u = record {
        routed = r;
        unlocked = ap (λ p. p.0) u;
        timed = λ h.
            reschedule_for-due pending cancel reschedule cancels reschedules _ held.deadline_work
              (combined-deadline n _ _ h);
      }
      conclude-IsTimed true now_ms before held (err e) r u = record {
        routed = r;
        unlocked = ap (λ p. p.0) u;
        timed = λ h. absurd (ground arith);
      }
      conclude-IsTimed false now_ms before held (err e) r u = record {
        routed = r;
        unlocked = ap (λ p. p.0) u;
        timed = λ h. absurd (ground arith);
      }

      under_lock-IsTimed :
          (always : Bool) (now_ms : ℕ) (operation : Router S T → RouterReply S T)
          (before : Executor M W S T)
          → IsRouted before.router
          → RouterReturns (λ r result ret. IsRouted r) (operation before.router)
          → (after : Executor M W S T) × (result : Option PipelineResult) × (ret : Status)
            × (under_lock always now_ms operation before ≡ some (after, result, ret))
            × IsTimed now_ms before after ret
      unfolding under_lock after_lock
      under_lock-IsTimed always now_ms operation before routed returns = elim (locks before.lock) [
        | inl (e, q) ↦ (
          before,
          none,
          err e,
          ap (after_lock always now_ms operation before) q,
          record { routed = routed; unlocked = refl; timed = λ h. absurd (ground arith) },
        )
        | inr (m', n, q, u) ↦ elim (Option-cases (operation before.router)) [
          | inl e ↦ absurd (subst (RouterReturns _) e returns)
          | inr ((router, result, ret), e) ↦
              let held : Executor M W S T = record before { lock = m'; router = router } in
              let k : IsRouted router =
                subst (RouterReturns (λ r result ret. IsRouted r)) e returns in
              let ended = conclude always now_ms held ret in
              (
                ended.0,
                (if always then some result else none),
                ended.1,
                ap (after_lock always now_ms operation before) q ∙ rw e refl,
                conclude-IsTimed always now_ms before held ret k u,
              )
        ]
      ]

      -- Where cancelling and scheduling the work do so unless they answer an error, and locking the mutex
      -- fails and leaves it or is undone by unlocking, an operation on an executor whose router is validated
      -- returns, whatever the stages and the sinks do, with the router validated and the mutex as it was.
      -- Without an error the work is pending exactly if the router has a deadline, and is due then.
      pub executor_call-IsTimed :
          (call : ExecutorCall) (now_ms : ℕ) (before : Executor M W S T)
          → IsRouted before.router
          → (after : Executor M W S T) × (result : Option PipelineResult) × (ret : Status)
            × (executor_call call now_ms before ≡ some (after, result, ret))
            × IsTimed now_ms before after ret
      unfolding executor_call activated
      executor_call-IsTimed (activate reason) now_ms before h =
          under_lock-IsTimed false now_ms (activated reason) before h
            (activate-keeps reason before.router h).0
      executor_call-IsTimed (select index) now_ms before h =
          under_lock-IsTimed true now_ms (router_select index now_ms) before h
            (any_select-IsRouted index now_ms before.router h)
      executor_call-IsTimed (push signal) now_ms before h =
          under_lock-IsTimed true now_ms (router_push signal) before h
            (push-keeps signal before.router h)
      executor_call-IsTimed flush now_ms before h =
          under_lock-IsTimed true now_ms (router_flush now_ms) before h
            (flush-keeps now_ms before.router h)
