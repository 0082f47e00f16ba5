-- ===== src/Platform/RouterLocks.antt =====
-- A setting is changed only while every router is held: src/platform/zmk/router_executor.c (its lock),
-- src/platform/zmk/router.c (holding all the routers) and src/platform/zmk/stage_tuning.c (the change).
-- `M` is Zephyr's mutex, with k_mutex_lock (K_FOREVER) and k_mutex_unlock for it as arguments.
use zmk_pointing_tools.Base.{
  success, true, Status, is_success, refl, false, ◌∷◌, einval, List, Errno, ℕ, ◌⊎◌, is_error, [],
  err, not, if◌then◌else◌, ◌≡◌, ap, ◌&&◌, Bool, inl, inr, ok,
}

-- struct zpt_zmk_router_executor, as far as its lock goes
pub record RouterExecutor (M : Type 0) : Type 0 where
  pub lock : M
  pub has_router : Bool

-- A router's device, and whether it is ready.
pub record RouterDevice (M : Type 0) : Type 0 where
  pub ready : Bool
  pub executor : RouterExecutor M

-- What a change of settings writes: the routers, the stage's configuration, the capture.
pub record Tunables (M C K : Type 0) : Type 0 where
  pub routers : List (RouterDevice M)
  pub current : C
  pub capture : K

module _ {M : Type 0} (mutex_lock mutex_unlock : M → M × Status) where
  unfoldable pub router_executor_lock : RouterExecutor M → RouterExecutor M × Status
  router_executor_lock executor =
      let (m, ret) = mutex_lock executor.lock in
      if not executor.has_router
      then (executor, err einval)
      else (record executor { lock = m }, ret)

  unfoldable pub router_executor_unlock : RouterExecutor M → RouterExecutor M × Status
  router_executor_unlock executor =
      let (m, ret) = mutex_unlock executor.lock in
      if not executor.has_router
      then (executor, err einval)
      else (record executor { lock = m }, ret)

  -- A step of the loops: an operation on the executor of a device that is ready.
  unfoldable pub on_ready :
      (RouterExecutor M → RouterExecutor M × Status) → RouterDevice M → RouterDevice M × Status
  on_ready operation device =
      let (executor, ret) = operation device.executor in
      if device.ready then (record device { executor = executor }, ret) else (device, success)

  -- The loop, with the result so far.
  unfoldable pub unlock_from : Status → List (RouterDevice M) → List (RouterDevice M) × Status
  unfolding on_ready router_executor_unlock
  unlock_from result [] = ([], result)
  unlock_from result (device ∷ rest) =
      let (device', ret) = on_ready router_executor_unlock device in
      let (rest', last) =
        unlock_from (if is_error ret && is_success result then ret else result) rest in
      (device' ∷ rest', last)

  unfoldable pub router_unlock_all : List (RouterDevice M) → List (RouterDevice M) × Status
  unfolding unlock_from
  router_unlock_all routers = unlock_from success routers

  -- Where a later router is not had, this one is released after those between.
  unfoldable pub router_lock_all : List (RouterDevice M) → List (RouterDevice M) × Status
  unfolding on_ready router_executor_lock router_executor_unlock
  router_lock_all [] = ([], success)
  router_lock_all (device ∷ rest) =
      let (device', ret) = on_ready router_executor_lock device in
      let (rest', later) = router_lock_all rest in
      if is_error ret
      then (device' ∷ rest, ret)
      else if is_error later
      then ((on_ready router_executor_unlock device').0 ∷ rest', later)
      else (device' ∷ rest', success)

  -- With the capture's note of the change as an argument.
  unfoldable pub apply_between_frames :
      {C K : Type 0} → (settings_changed : K → K) → C → Tunables M C K → Tunables M C K × Status
  unfolding router_lock_all router_unlock_all
  apply_between_frames settings_changed candidate state =
      let (held, ret) = router_lock_all state.routers in
      let (released, result) = router_unlock_all held in
      if is_error ret then (record state { routers = held }, ret) else (
        record {
          routers = released;
          current = candidate;
          capture = settings_changed state.capture;
        },
        result,
      )

  -- From here, locking a mutex fails and leaves it, or is undone by unlocking.
  module _
      (locks : (m : M)
        → ((e : Errno) × (mutex_lock m ≡ (m, err e)))
          ⊎ ((m' : M) × (n : ℕ) × (mutex_lock m ≡ (m', ok n))
              × (mutex_unlock m' ≡ (m, success)))) where
    device_locks :
        (ready has_router : Bool) (m : M)
        → let device : RouterDevice M = record {
          ready = ready;
          executor = record { lock = m; has_router = has_router };
        } in
          ((e : Errno) × (on_ready router_executor_lock device ≡ (device, err e)))
          ⊎ ((device' : RouterDevice M) × (n : ℕ) × (on_ready router_executor_lock device
                ≡ (device', ok n))
              × (on_ready router_executor_unlock device' ≡ (device, success)))
    unfolding on_ready router_executor_lock router_executor_unlock
    device_locks false has_router m = inr (_, 0, refl, refl)
    device_locks true false m = inl (einval, refl)
    device_locks true true m = elim (locks m) [
      | inl (e, q) ↦ inl (e, ap (λ p. (held p.0, p.1)) q)
      | inr (m', n, q, u) ↦
          inr (held m', n, ap (λ p. (held p.0, p.1)) q, ap (λ p. (held p.0, p.1)) u)
    ]
      where
        held : M → RouterDevice M
        held m = record { ready = true; executor = record { lock = m; has_router = true } }

    lock_all_held :
        (routers : List (RouterDevice M))
        → ((e : Errno) × (router_lock_all routers ≡ (routers, err e)))
          ⊎ ((held : List (RouterDevice M)) × (router_lock_all routers ≡ (held, success))
              × (router_unlock_all held ≡ (routers, success)))
    unfolding router_lock_all router_unlock_all unlock_from
    lock_all_held [] = inr ([], refl, refl)
    lock_all_held (device ∷ rest) =
        elim (device_locks device.ready device.executor.has_router device.executor.lock) [
          | inl (e, q) ↦ inl (e, rw q refl)
          | inr (device', n, q, u) ↦ elim (lock_all_held rest) [
            | inl (e, r) ↦ inl (e, rw (q, r, u) refl)
            | inr (held, r, v) ↦ inr (device' ∷ held, rw (q, r) refl, rw (u, v) refl)
          ]
        ]

    -- Where locking a mutex fails and leaves it, or is undone by unlocking, a change of settings leaves every
    -- router as it was. Either an error is answered and nothing at all is changed, or the answer is 0, the
    -- candidate is the configuration and the capture is told.
    pub apply_between_frames-restores :
        {C K : Type 0} (settings_changed : K → K) (candidate : C) (state : Tunables M C K)
        → let (after, ret) = apply_between_frames settings_changed candidate state in
          (((e : Errno) × (ret ≡ err e) × (after ≡ state)))
          ⊎ ((ret ≡ success)
              × (after
                  ≡ record state { current = candidate; capture = settings_changed state.capture }))
    unfolding apply_between_frames
    apply_between_frames-restores settings_changed candidate state =
        elim (lock_all_held state.routers) [
          | inl (e, q) ↦ inl (e, rw q refl, rw q refl)
          | inr (held, q, u) ↦ inr (rw (q, u) refl, rw (q, u) refl)
        ]
