-- ===== src/Platform/DeadlineWork.antt =====
-- src/platform/zmk/router_executor.c: the work that is to run at a deadline. `W` is Zephyr's delayable
-- work, whose `pending` is the delay it was last scheduled with while it is pending; k_work_cancel_delayable
-- and k_work_reschedule are arguments.
use zmk_pointing_tools.Base.{
  success, Status, refl, some, none, false, is_error, Option, err, if◌then◌else◌, ◌≡◌, ok, ℕ,
  sub_u32,
}
use zmk_pointing_tools.Core.Pipeline.Flush.{time_reached}

-- The delay until a deadline, if there is one.
unfoldable pub due : ℕ → Option ℕ → Option ℕ
due now_ms none = none
due now_ms (some deadline_ms) =
    some (if time_reached now_ms deadline_ms then 0 else sub_u32 deadline_ms now_ms)

-- ret < 0 ? ret : 0
abbrev pub error_or_zero : Status → Status
error_or_zero ret = if is_error ret then ret else success

error_or_zero-error : (ret : Status) → is_error (error_or_zero ret) ≡ false → is_error ret ≡ false
error_or_zero-error (ok n) h = refl
error_or_zero-error (err e) h = h

module _ {W : Type 0} (pending : W → Option ℕ) (cancel : W → W × Status)
    (reschedule : ℕ → W → W × Status) where
  unfoldable pub cancel_if : Option ℕ → W → W × Status
  cancel_if none work = (work, success)
  cancel_if (some delay_ms) work = let (work', ret) = cancel work in (work', error_or_zero ret)

  unfoldable pub reschedule_for : Option ℕ → W → W × Status
  unfolding cancel_if
  reschedule_for none work = cancel_if (pending work) work
  reschedule_for (some delay_ms) work =
      let (work', ret) = reschedule delay_ms work in (work', error_or_zero ret)

  module _ (cancels : (w : W) → is_error (cancel w).1 ≡ false → pending (cancel w).0 ≡ none)
      (reschedules : (delay_ms : ℕ) (w : W)
        → is_error (reschedule delay_ms w).1 ≡ false
        → pending (reschedule delay_ms w).0 ≡ some delay_ms) where
    cancel_if-idle :
        (p : Option ℕ) (w : W)
        → pending w ≡ p
        → is_error (cancel_if p w).1 ≡ false
        → pending (cancel_if p w).0 ≡ none
    unfolding cancel_if
    cancel_if-idle none w q h = q
    cancel_if-idle (some d) w q h = cancels w (error_or_zero-error _ h)

    pub reschedule_for-due :
        (d : Option ℕ) (w : W)
        → is_error (reschedule_for d w).1 ≡ false
        → pending (reschedule_for d w).0 ≡ d
    unfolding reschedule_for
    reschedule_for-due none w h = cancel_if-idle (pending w) w refl h
    reschedule_for-due (some d) w h = reschedules d w (error_or_zero-error _ h)
