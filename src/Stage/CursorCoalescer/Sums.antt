-- ===== src/Stage/CursorCoalescer/Sums.antt =====
-- Stage/CursorCoalescer loses no motion and makes none up.
use zmk_pointing_tools.Base.{
  not-false, add_u32, not, sym, ||-false, true, true≢false, refl, not-true, ap, ◌∙◌, ◌&&◌, ◌||◌,
  success, if-elim, inl, [], Bool-cases, inr, arith, List, ◌-◌, ◌^◌, ◌≡◌, ◌∷◌, ℕ,
}
use zmk_pointing_tools.Base.Int.{
  zero_of_eqb, eqb_ℤ, eq_of_parts, pos, ℤ, int_laws, negsuc, ◌+ℤ◌, ◌-ℤ◌, ◌≤ℤ◌,
}
use zmk_pointing_tools.Core.Signal.{kind, kind_eq, pointer_delta, payload_x, payload_y, Signal}
use zmk_pointing_tools.Stage.CursorCoalescer.{
  CursorCoalescerConfig, report_or_arm, interval_elapsed, cursor_coalescer_stage_process, add_frame,
  cursor_coalescer_interval_ms, report_signal, take_report_axis, CursorCoalescer, send_report,
  reported, report_axis, arm, has_motion,
}
use zmk_pointing_tools.Stage.Effect.{sent_x, sent_y, kept, Effect, effect}
use zmk_pointing_tools.Core.Pipeline.Types.{Script, finish}
use zmk_pointing_tools.Core.Fixed.{saturating_add}
use zmk_pointing_tools.Source.MotionSource.Sums.{sum_y, sum_x}

-- The values of a 16-bit report.
abbrev pub IsReport : Signal → Type 0
IsReport signal =
    (negsuc (2 ^ 15 - 1) ≤ℤ payload_x signal.payload)
    × (payload_x signal.payload ≤ℤ pos (2 ^ 15 - 1))
    × (negsuc (2 ^ 15 - 1) ≤ℤ payload_y signal.payload)
    × (payload_y signal.payload ≤ℤ pos (2 ^ 15 - 1))

abbrev pub AllReports : List Signal → Type 0
AllReports [] = Unit
AllReports (signal ∷ rest) = IsReport signal × AllReports rest

-- The motion of a call's end: what it sent, and what stays pending.
abbrev pub IsConserved : ℤ → ℤ → Effect CursorCoalescer → Type 0
IsConserved x y after =
    (sent_x after.emitted +ℤ after.state.pending_x ≡ x)
    × (sent_y after.emitted +ℤ after.state.pending_y ≡ y)
    × AllReports after.emitted

report_rest : (a : ℤ) → report_axis a +ℤ pos 0 +ℤ (a -ℤ report_axis a) ≡ a
report_rest a = eq_of_parts _ _ (omega int_laws)

report_low : (a : ℤ) → negsuc (2 ^ 15 - 1) ≤ℤ report_axis a
report_low a = ground arith

report_high : (a : ℤ) → report_axis a ≤ℤ pos (2 ^ 15 - 1)
report_high a = ground arith

none_sent : (a : ℤ) → pos 0 +ℤ a ≡ a
none_sent a = eq_of_parts _ _ (omega int_laws)

send_report-IsConserved :
    (state : CursorCoalescer) (now_ms interval_ms : ℕ)
    → IsConserved state.pending_x state.pending_y (effect (send_report state now_ms interval_ms))
unfolding send_report arm reported report_signal take_report_axis sent_x sent_y
send_report-IsConserved state now_ms interval_ms =
    let reports : IsConserved state.pending_x state.pending_y (record {
      state = reported state now_ms;
      emitted = report_signal state now_ms ∷ [];
      events = [];
      deadline = kept;
      status = success;
    }) =
      (
        report_rest state.pending_x,
        report_rest state.pending_y,
        (
          (
            report_low state.pending_x,
            report_high state.pending_x,
            report_low state.pending_y,
            report_high state.pending_y,
          ),
          tt,
        ),
      ) in
    elim (Bool-cases (has_motion (reported state now_ms))) [
      | inl p ↦ elim (Bool-cases state.armed) [
        | inl q ↦ rw (p, q) reports
        | inr q ↦ rw (p, q) reports
      ]
      | inr p ↦ rw p reports
    ]

arm-IsConserved :
    (state : CursorCoalescer) (deadline_ms : ℕ)
    → IsConserved state.pending_x state.pending_y (effect (arm state deadline_ms finish))
unfolding arm sent_x sent_y
arm-IsConserved state deadline_ms =
    let P : Script CursorCoalescer → Type 0 =
      λ s. IsConserved state.pending_x state.pending_y (effect s) in
    let nothing_sent : IsConserved state.pending_x state.pending_y (effect (finish state success)) =
      (none_sent state.pending_x, none_sent state.pending_y, tt) in
    if-elim P state.armed _ _ (λ e. nothing_sent) (λ e. nothing_sent)

flush_or_arm-IsConserved :
    (state : CursorCoalescer) (now_ms interval_ms : ℕ)
    → IsConserved state.pending_x state.pending_y (effect (report_or_arm state now_ms interval_ms))
unfolding report_or_arm
flush_or_arm-IsConserved state now_ms interval_ms =
    if-elim (λ s. IsConserved state.pending_x state.pending_y (effect s))
      (not state.armed && interval_elapsed state now_ms interval_ms) _ _
      (λ e. send_report-IsConserved state now_ms interval_ms)
      (λ e. arm-IsConserved state (add_u32 state.last_report_ms interval_ms))

saturating_add-zero : (a : ℤ) → saturating_add a (pos 0) ≡ a
unfolding saturating_add ◌+ℤ◌
saturating_add-zero (pos n) = ground arith
saturating_add-zero (negsuc n) = ground arith

add_frame_lem :
    (state : CursorCoalescer) (signal : Signal)
    → ((add_frame state signal).pending_x
        ≡ saturating_add state.pending_x (payload_x signal.payload))
      × ((add_frame state signal).pending_y
          ≡ saturating_add state.pending_y (payload_y signal.payload))
unfolding add_frame
add_frame_lem state signal =
    let x = payload_x signal.payload in
    let y = payload_y signal.payload in
    if-elim
      (λ (s : CursorCoalescer).
        (s.pending_x ≡ saturating_add state.pending_x x)
        × (s.pending_y ≡ saturating_add state.pending_y y))
      (not (eqb_ℤ x (pos 0)) || not (eqb_ℤ y (pos 0))) _ _ (λ e. (refl, refl))
      (λ e.
        let (no_x, no_y) = ||-false (not (eqb_ℤ x (pos 0))) (not (eqb_ℤ y (pos 0))) e in
        (
          sym (
              ap (saturating_add state.pending_x) (zero_of_eqb x (not-false _ no_x))
              ∙ saturating_add-zero state.pending_x),
          sym (
              ap (saturating_add state.pending_y) (zero_of_eqb y (not-false _ no_y))
              ∙ saturating_add-zero state.pending_y),
        ))

added-IsConserved :
    (config : CursorCoalescerConfig) (state : CursorCoalescer) (signal : Signal) (now_ms : ℕ)
    → kind_eq (kind signal) pointer_delta ≡ true
    → IsConserved
        (add_frame state signal).pending_x
        (add_frame state signal).pending_y
        (effect (cursor_coalescer_stage_process config state signal now_ms))
unfolding cursor_coalescer_stage_process sent_x sent_y
added-IsConserved config state signal now_ms h =
    let added = add_frame state signal in
    let P : Script CursorCoalescer → Type 0 =
      λ s. IsConserved added.pending_x added.pending_y (effect s) in
    if-elim P (not (kind_eq (kind signal) pointer_delta)) _ _
      (λ e. absurd (true≢false (sym h ∙ not-true _ e)))
      (λ e.
        if-elim P (not (has_motion added)) _ _
          (λ e. (none_sent added.pending_x, none_sent added.pending_y, tt))
          (λ e. flush_or_arm-IsConserved added now_ms (cursor_coalescer_interval_ms config)))

-- When the calls of process into the runtime succeed, no motion is lost or made up: what a frame of
-- pointer motion makes process send, with what then stays pending, is the sum of the old pending motion
-- and the frame's, saturated; and each report that is sent fits 16 bits.
pub process-IsConserved :
    (config : CursorCoalescerConfig) (state : CursorCoalescer) (signal : Signal) (now_ms : ℕ)
    → kind_eq (kind signal) pointer_delta ≡ true
    → IsConserved
        (saturating_add state.pending_x (payload_x signal.payload))
        (saturating_add state.pending_y (payload_y signal.payload))
        (effect (cursor_coalescer_stage_process config state signal now_ms))
process-IsConserved config state signal now_ms h =
    let (x, y) = add_frame_lem state signal in
    let (sum_x, sum_y, reports) = added-IsConserved config state signal now_ms h in
    (sum_x ∙ x, sum_y ∙ y, reports)
