-- ===== src/Platform/Tests.antt =====
-- Tests and witnesses for the adapters.
use zmk_pointing_tools.Platform.RouterExecutor.{
  Executor, executor_call, executor_call-IsTimed, IsTimed, select,
}
use zmk_pointing_tools.Core.Router.Tests.{sample_router, sample_router-IsRouted}
use zmk_pointing_tools.Core.Signal.{Signal}
use zmk_pointing_tools.Core.Pipeline.Types.{PipelineResult}
use zmk_pointing_tools.Base.{Option, some, none}
use zmk_pointing_tools.Base.{
  [], true, refl, false, ◌≡◌, ◌∷◌, Bool, Status, success, err, einval, Errno, ℕ, ok, ◌⊎◌, inl, inr,
  List, ◌+◌,
}
use zmk_pointing_tools.Platform.RouterLocks.{
  RouterDevice, Tunables, apply_between_frames, apply_between_frames-restores,
}
use zmk_pointing_tools.Platform.KeypressSuppression.{
  keypress_freeze-holds, frozen_none, keypress_steps, time_stored, keypress_freeze, flag_stored,
  KeypressSuppression, keypress_is_suppressed,
}

abbrev pressed_once : KeypressSuppression
pressed_once = record {
  suppress_after_ms = 200;
  last_keypress_ms = 1000;
  have_keypress = true;
  frozen = frozen_none;
  frozen_ms = 0;
}

keypress_freeze-holds_example :
    keypress_is_suppressed
      (keypress_steps (time_stored 1150 ∷ flag_stored ∷ []) (keypress_freeze pressed_once).0)
      1100
    ≡ keypress_is_suppressed pressed_once 1100
keypress_freeze-holds_example =
    keypress_freeze-holds pressed_once (time_stored 1150 ∷ flag_stored ∷ []) 1100 refl

-- A press suppresses for its time, and no longer.
suppressed_now : keypress_is_suppressed pressed_once 1199 ≡ true
unfolding keypress_is_suppressed
suppressed_now = refl

suppressed_later : keypress_is_suppressed pressed_once 1200 ≡ false
unfolding keypress_is_suppressed
suppressed_later = refl

-- A mutex that another thread may hold.
abbrev lock_once : Bool → Bool × Status
lock_once false = (true, success)
lock_once true = (true, err einval)

abbrev unlock_once : Bool → Bool × Status
unlock_once true = (false, success)
unlock_once false = (false, err einval)

lock_once_cases :
    (m : Bool)
    → ((e : Errno) × (lock_once m ≡ (m, err e)))
      ⊎ ((m' : Bool) × (n : ℕ) × (lock_once m ≡ (m', ok n)) × (unlock_once m' ≡ (m, success)))
lock_once_cases true = inl (einval, refl)
lock_once_cases false = inr (true, 0, refl, refl)

abbrev router_of : (ready held : Bool) → RouterDevice Bool
router_of ready held = record {
  ready = ready;
  executor = record { lock = held; has_router = true };
}

abbrev tunables_of : List (RouterDevice Bool) → Tunables Bool ℕ ℕ
tunables_of routers = record { routers = routers; current = 5; capture = 0 }

-- Two routers, between them one that is not ready.
abbrev two_routers : Tunables Bool ℕ ℕ
two_routers = tunables_of (router_of true false ∷ router_of false false ∷ router_of true false ∷ [])

apply_between_frames-restores_example :
    let (after, ret) = apply_between_frames lock_once unlock_once (λ n. n + 1) 7 two_routers in
    ((e : Errno) × (ret ≡ err e) × (after ≡ two_routers))
    ⊎ ((ret ≡ success)
        × (after ≡ record two_routers { current = 7; capture = two_routers.capture + 1 }))
apply_between_frames-restores_example =
    apply_between_frames-restores lock_once unlock_once lock_once_cases (λ n. n + 1) 7 two_routers

-- The second router is held: the first one is released again.
refused_when_held :
    apply_between_frames lock_once unlock_once
      (λ n. n + 1)
      7
      (tunables_of (router_of true false ∷ router_of true true ∷ []))
    ≡ (tunables_of (router_of true false ∷ router_of true true ∷ []), err einval)
unfolding apply_between_frames
refused_when_held = refl

-- An executor whose work is not pending; the work is the delay it is pending with.
abbrev sample_executor : Executor Bool (Option ℕ) ℕ (List Signal)
sample_executor = record { lock = false; deadline_work = none; router = sample_router }

abbrev cancel_delay : Option ℕ → Option ℕ × Status
cancel_delay work = (none, success)

abbrev reschedule_delay : ℕ → Option ℕ → Option ℕ × Status
reschedule_delay delay_ms work = (some delay_ms, success)

executor_call-IsTimed_example :
    (after : Executor Bool (Option ℕ) ℕ (List Signal)) × (result : Option PipelineResult)
    × (ret : Status) × (executor_call
          (λ w. w)
          cancel_delay
          reschedule_delay
          lock_once
          unlock_once
          (select 1)
          4
          sample_executor
        ≡ some (after, result, ret))
    × IsTimed
        (λ w. w)
        cancel_delay
        reschedule_delay
        lock_once
        unlock_once
        4
        sample_executor
        after
        ret
executor_call-IsTimed_example =
    executor_call-IsTimed (λ w. w) cancel_delay reschedule_delay lock_once unlock_once (λ w h. refl)
      (λ delay_ms w h. refl) lock_once_cases (select 1) 4 sample_executor sample_router-IsRouted
