-- ===== src/Stage/MotionGate/Holds.antt =====
-- Stage/MotionGate holds motion back until it is long enough, and then lets all of it pass.
use zmk_pointing_tools.Base.{
  Bool-cases, inr, sym, true≢false, not, leb→le, inl, not-true, true, success, if-elim, refl,
  is_error, &&-true, ap, some, false, ◌≤◌, ◌≡◌, ◌∙◌, ◌⊎◌, ℕ, Bool, ◌&&◌, ◌||◌, if◌then◌else◌, arith,
  subst,
}
use zmk_pointing_tools.Base.Int.{ℤ, pos}
use zmk_pointing_tools.Core.Fixed.{saturating_add}
use zmk_pointing_tools.Stage.MotionGate.{
  expire_state, settle_gate, coherent_displacement_validate, is_idle_since, is_unqualified_since,
  magnitude_squared, qualifies, GateState, GateSettings, square_saturated,
  coherent_displacement_update, gather, admit, reset_pending, GateResult, saturating_add_clipped,
  coherent_displacement_reset,
}

-- An open gate holds nothing back.
abbrev pub IsGate : GateState → Type 0
IsGate state =
    (state.active ≡ false)
    ⊎ ((state.sample_count ≡ 0) × (state.pending_x ≡ pos 0) × (state.pending_y ≡ pos 0))

reset_pending-IsGate : (state : GateState) → IsGate (reset_pending state)
unfolding reset_pending
reset_pending-IsGate state = inr (refl, refl, refl)

expire_state-IsGate :
    (state : GateState) (settings : GateSettings) (now_ms : ℕ)
    → IsGate state
    → IsGate (expire_state state settings now_ms).0
unfolding expire_state
expire_state-IsGate state settings now_ms h =
    let P : GateState × GateResult → Type 0 = λ r. IsGate r.0 in
    if-elim P (is_idle_since state settings now_ms) _ _ (λ e. inl refl)
      (λ e.
        if-elim P (is_unqualified_since state settings now_ms) _ _ (λ e. reset_pending-IsGate state)
          (λ e. h))

-- Whether the gate is still open at a frame's time, and what is pending then.
abbrev pub still_open : GateState → GateSettings → ℕ → Bool
still_open state settings now_ms = state.active && not (is_idle_since state settings now_ms)

abbrev pub carried : GateState → GateSettings → ℕ → ℤ → ℤ
carried state settings now_ms pending =
    if is_idle_since state settings now_ms || is_unqualified_since state settings now_ms
    then pos 0
    else pending

-- What is gathered of a frame with the motion that is pending, saturated.
abbrev pub gathered_x : GateState → GateSettings → ℕ → ℤ → ℤ
gathered_x state settings now_ms x =
    saturating_add (carried state settings now_ms state.pending_x) x

abbrev pub gathered_y : GateState → GateSettings → ℕ → ℤ → ℤ
gathered_y state settings now_ms y =
    saturating_add (carried state settings now_ms state.pending_y) y

abbrev pub IsResult : ℤ → ℤ → Bool → GateState × GateResult → Type 0
IsResult x y open_after (state, result) =
    (result.x ≡ x) × (result.y ≡ y) × (state.active ≡ open_after)

-- What a gate that was open or shut lets pass of a frame, where `x` and `y` are the gathered motion.
abbrev pub IsPassed :
    GateSettings → (was_open : Bool) (frame_x frame_y x y : ℤ) → GateState × GateResult → Type 0
IsPassed settings was_open frame_x frame_y x y (state, result) =
    ((was_open ≡ true) × IsResult frame_x frame_y true (state, result) × (result.qualified ≡ false))
    ⊎ ((was_open ≡ false)
        × IsResult x y true (state, result)
        × (result.qualified ≡ true)
        × (square_saturated settings.activation_distance ≤ magnitude_squared x y))
    ⊎ ((was_open ≡ false)
        × IsResult (pos 0) (pos 0) false (state, result)
        × (result.qualified ≡ false)
        × (state.pending_x ≡ x)
        × (state.pending_y ≡ y))

-- What a frame does to a gate: a suppressed one shuts it.
abbrev pub IsHeld :
    GateState
    → GateSettings
    → (x y : ℤ) (now_ms : ℕ) (suppress : Bool) → GateState × GateResult
    → Type 0
IsHeld before settings x y now_ms suppress (state, result) =
    IsGate state
    × (((suppress ≡ true)
          × IsResult (pos 0) (pos 0) false (state, result)
          × (result.qualified ≡ false)
          × (state ≡ coherent_displacement_reset))
        ⊎ ((suppress ≡ false)
            × IsPassed settings (still_open before settings now_ms) x y
                (gathered_x before settings now_ms x) (gathered_y before settings now_ms y)
                (state, result)))

clipped-eq-saturated : (a b : ℤ) → (saturating_add_clipped a b).0 ≡ saturating_add a b
unfolding saturating_add_clipped saturating_add
clipped-eq-saturated a b = ground arith

expire_state-active :
    (state : GateState) (settings : GateSettings) (now_ms : ℕ)
    → (expire_state state settings now_ms).0.active ≡ still_open state settings now_ms
unfolding expire_state reset_pending
expire_state-active state settings now_ms = ground arith

expire_state-pending :
    (state : GateState) (settings : GateSettings) (now_ms : ℕ)
    → ((expire_state state settings now_ms).0.pending_x
        ≡ carried state settings now_ms state.pending_x)
      × ((expire_state state settings now_ms).0.pending_y
          ≡ carried state settings now_ms state.pending_y)
unfolding expire_state reset_pending
expire_state-pending state settings now_ms = ground arith

module _ (settings : GateSettings) (was_open : Bool) (frame_x frame_y x y : ℤ) where
  settle_gate-IsPassed :
      (state : GateState) (expired : GateResult)
      → state.active ≡ false
      → was_open ≡ false
      → state.pending_x ≡ x
      → state.pending_y ≡ y
      → let after = settle_gate state settings expired in
        IsGate after.0 × IsPassed settings was_open frame_x frame_y x y after
  unfolding settle_gate qualifies reset_pending
  settle_gate-IsPassed state expired h o px py = elim (Bool-cases (qualifies state settings)) [
    | inl e ↦
        let long : square_saturated settings.activation_distance ≤ magnitude_squared x y =
          subst (λ a. square_saturated settings.activation_distance ≤ magnitude_squared a y) px
            (subst
              (λ b.
                square_saturated settings.activation_distance ≤ magnitude_squared state.pending_x b)
              py (leb→le _ _ (&&-true _ _ e).0)) in
        rw e (inr (refl, refl, refl), inr (inl (o, (px, py, refl), refl, long)))
    | inr e ↦ rw e (inl h, inr (inr (o, (refl, refl, h), refl, px, py)))
  ]

  admit-IsPassed :
      (state : GateState) (expired : GateResult) (now_ms : ℕ)
      → IsGate state
      → state.active ≡ was_open
      → saturating_add state.pending_x frame_x ≡ x
      → saturating_add state.pending_y frame_y ≡ y
      → let after = admit (state, expired) settings frame_x frame_y now_ms in
        IsGate after.0 × IsPassed settings was_open frame_x frame_y x y after
  unfolding admit gather
  admit-IsPassed state expired now_ms h o px py =
      let seen : GateState = record state { last_frame_ms = some now_ms } in
      if-elim (λ r. IsGate r.0 × IsPassed settings was_open frame_x frame_y x y r) seen.active _ _
        (λ e. (h, inl (sym o ∙ e, (refl, refl, e), refl)))
        (λ e.
          settle_gate-IsPassed (gather seen frame_x frame_y now_ms) expired e (sym o ∙ e)
            (clipped-eq-saturated state.pending_x frame_x ∙ px)
            (clipped-eq-saturated state.pending_y frame_y ∙ py))

-- While an open gate holds nothing back, that stays so. A frame that is suppressed resets the gate and passes
-- nothing. Of another frame, for settings that are valid, an enabled gate lets pass: the frame itself exactly
-- if it was open and not idle, and then it stays open; else it gathers the frame to what is pending and not
-- expired. Then either all that is gathered passes, and the gate opens, and it is at least as long as the
-- activation distance (squares saturated at 64 bits); or nothing passes, the gate is shut, and what is
-- gathered is pending.
pub coherent_displacement_update-IsHeld :
    (state : GateState) (settings : GateSettings) (x y : ℤ) (now_ms : ℕ) (suppress : Bool)
    → coherent_displacement_validate settings ≡ success
    → settings.enabled ≡ true
    → IsGate state
    → IsHeld state settings x y now_ms suppress
        (coherent_displacement_update state settings x y now_ms suppress)
unfolding coherent_displacement_update
coherent_displacement_update-IsHeld state settings x y now_ms suppress valid enabled h =
    let P = IsHeld state settings x y now_ms suppress in
    let (px, py) = expire_state-pending state settings now_ms in
    if-elim P (is_error (coherent_displacement_validate settings)) _ _
      (λ e. absurd (true≢false (sym e ∙ ap is_error valid)))
      (λ e.
        if-elim P (not settings.enabled) _ _ (λ e. absurd (true≢false (sym enabled ∙ not-true _ e)))
          (λ e.
            if-elim P suppress _ _ (λ e. (inl refl, inl (e, (refl, refl, refl), refl, refl)))
              (λ e.
                let (gate, passed) =
                  admit-IsPassed settings (still_open state settings now_ms) x y
                    (gathered_x state settings now_ms x) (gathered_y state settings now_ms y)
                    (expire_state state settings now_ms).0 (expire_state state settings now_ms).1
                    now_ms (expire_state-IsGate state settings now_ms h)
                    (expire_state-active state settings now_ms) (ap (λ a. saturating_add a x) px)
                    (ap (λ a. saturating_add a y) py) in
                (gate, inr (e, passed)))))
