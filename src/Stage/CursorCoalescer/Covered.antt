-- ===== src/Stage/CursorCoalescer/Covered.antt =====
-- No motion that Stage/CursorCoalescer keeps is left without a deadline.
use zmk_pointing_tools.Base.{
  not-true, add_u32, not, err, if-elim, arith, einval, &&-true, Status, subst, sym, ◌&&◌, inr,
  Bool-cases, inl, true, false, refl, ◌≡◌, ◌⊎◌, ℕ, Bool,
}
use zmk_pointing_tools.Core.Pipeline.Types.{Script, finish}
use zmk_pointing_tools.Core.Signal.{kind, pointer_delta, kind_eq, Signal}
use zmk_pointing_tools.Stage.CursorCoalescer.{
  report_or_arm, add_frame, interval_elapsed, cursor_coalescer_interval_ms, send_report,
  CursorCoalescer, has_motion, arm, cursor_coalescer_stage_flush, cursor_coalescer_stage_process,
  CursorCoalescerConfig, reported,
}
use zmk_pointing_tools.Stage.Effect.{effect, set_to, Effect}

-- When motion is pending after a call, the deadline of its flush is set: by this call, or by an
-- earlier one if the stage was armed before it.
abbrev pub IsCovered : Bool → Effect CursorCoalescer → Type 0
IsCovered armed after =
    (has_motion after.state ≡ false)
    ⊎ ((after.state.armed ≡ true)
        × ((armed ≡ true) ⊎ ((deadline_ms : ℕ) × (after.deadline ≡ set_to deadline_ms))))

send_report-IsCovered :
    (state : CursorCoalescer) (now_ms interval_ms : ℕ)
    → state.armed ≡ false
    → IsCovered false (effect (send_report state now_ms interval_ms))
unfolding send_report arm reported
send_report-IsCovered state now_ms interval_ms h =
    elim (Bool-cases (has_motion (reported state now_ms))) [
      | inl p ↦ rw (p, h) (inr (refl, inr (_, refl)))
      | inr p ↦ rw p (inl p)
    ]

arm-IsCovered :
    (state : CursorCoalescer) (deadline_ms : ℕ)
    → IsCovered state.armed (effect (arm state deadline_ms finish))
unfolding arm
arm-IsCovered state deadline_ms = elim (Bool-cases (state.armed)) [
  | inl p ↦ rw p (inr (refl, inl refl))
  | inr p ↦ rw p (inr (refl, inr (_, refl)))
]

finish-IsCovered :
    (state : CursorCoalescer) (ret : Status)
    → (has_motion state ≡ false) ⊎ (state.armed ≡ true)
    → IsCovered state.armed (effect (finish state ret))
finish-IsCovered state ret (inl h) = inl h
finish-IsCovered state ret (inr h) = inr (h, inl h)

add_frame-armed :
    (state : CursorCoalescer) (signal : Signal) → (add_frame state signal).armed ≡ state.armed
unfolding add_frame
add_frame-armed state signal = ground arith

-- The part of process after the frame is added.
added-IsCovered :
    (state : CursorCoalescer) (now_ms interval_ms : ℕ)
    → IsCovered state.armed (effect (report_or_arm state now_ms interval_ms))
unfolding report_or_arm
added-IsCovered state now_ms interval_ms =
    if-elim (λ s. IsCovered state.armed (effect s))
      (not state.armed && interval_elapsed state now_ms interval_ms) _ _
      (λ h.
        let free_now = not-true state.armed (&&-true _ _ h).0 in
        subst (λ b. IsCovered b (effect (send_report state now_ms interval_ms))) (sym free_now)
          (send_report-IsCovered state now_ms interval_ms free_now))
      (λ h. arm-IsCovered state (add_u32 state.last_report_ms interval_ms))

process-IsCovered :
    (config : CursorCoalescerConfig) (state : CursorCoalescer) (signal : Signal) (now_ms : ℕ)
    → (has_motion state ≡ false) ⊎ (state.armed ≡ true)
    → IsCovered state.armed (effect (cursor_coalescer_stage_process config state signal now_ms))
unfolding cursor_coalescer_stage_process
process-IsCovered config state signal now_ms h =
    let added = add_frame state signal in
    let P : Script CursorCoalescer → Type 0 = λ s. IsCovered state.armed (effect s) in
    if-elim P (not (kind_eq (kind signal) pointer_delta)) _ _
      (λ e. finish-IsCovered state (err einval) h)
      (λ e.
        if-elim P (not (has_motion added)) _ _ (λ e. inl (not-true (has_motion added) e))
          (λ e.
            subst
              (λ b.
                IsCovered b
                  (effect (report_or_arm added now_ms (cursor_coalescer_interval_ms config))))
              (add_frame-armed state signal)
              (added-IsCovered added now_ms (cursor_coalescer_interval_ms config))))

flush-IsCovered :
    (config : CursorCoalescerConfig) (state : CursorCoalescer) (deadline_ms now_ms : ℕ)
    → IsCovered false (effect (cursor_coalescer_stage_flush config state deadline_ms now_ms))
unfolding cursor_coalescer_stage_flush
flush-IsCovered config state deadline_ms now_ms =
    let disarmed : CursorCoalescer = record state { armed = false } in
    if-elim (λ s. IsCovered false (effect s)) (has_motion disarmed) _ _
      (λ e. send_report-IsCovered disarmed now_ms (cursor_coalescer_interval_ms config) refl)
      (λ e. inl e)

-- While pending motion is armed before a call, each call of process and of flush whose calls into the
-- runtime succeed leaves no motion pending without a deadline; flush starts with none set.
pub process-flush-IsCovered :
    (config : CursorCoalescerConfig) (state : CursorCoalescer) (signal : Signal)
    (deadline_ms now_ms : ℕ)
    → (has_motion state ≡ false) ⊎ (state.armed ≡ true)
    → IsCovered state.armed (effect (cursor_coalescer_stage_process config state signal now_ms))
      × IsCovered false (effect (cursor_coalescer_stage_flush config state deadline_ms now_ms))
process-flush-IsCovered config state signal deadline_ms now_ms h = (
  process-IsCovered config state signal now_ms h,
  flush-IsCovered config state deadline_ms now_ms,
)
