-- ===== src/Stage/MotionGate.antt =====
-- src/stage/motion_gate/coherent_displacement.c: motion passes only once its displacement is long and
-- coherent enough.
pub mod Holds
use zmk_pointing_tools.Base.{
  Status, Bool, some, leb, ltb, sub_u32, success, true, einval, not, is_error, Option, none, false,
  ℕ, err, ◌==◌, if◌then◌else◌, ◌+◌, ◌-◌, ◌*◌, ◌/◌, ◌%◌, ◌^◌, ◌&&◌, ◌||◌,
}
use zmk_pointing_tools.Base.Int.{ltb_ℤ, int64_max, ℤ, pos, int64_min, ◌+ℤ◌, ◌-ℤ◌}
use zmk_pointing_tools.Core.Fixed.{saturating_add_u64, uint64_max, magnitude}
use zmk_pointing_tools.Stage.Effect.{is_none, since}

-- enum zpt_motion_gate_phase
pub data MotionGatePhase : Type 0 where
  gate_idle gate_pending gate_active gate_bypass : MotionGatePhase

-- struct zpt_coherent_displacement_settings
pub record GateSettings : Type 0 where
  pub enabled : Bool
  pub activation_distance : ℤ
  pub coherence_percent : ℕ  -- uint16_t
  pub qualification_timeout_ms : ℕ  -- uint16_t
  pub idle_timeout_ms : ℕ  -- uint16_t

-- struct zpt_coherent_displacement_state; `last_frame_ms` joins have_last_frame.
pub record GateState : Type 0 where
  pub pending_x : ℤ
  pub pending_y : ℤ
  pub squared_energy : ℕ  -- uint64_t
  pub sample_count : ℕ  -- uint32_t
  pub pending_started_ms : ℕ  -- uint32_t
  pub last_frame_ms : Option ℕ
  pub active : Bool
  pub pending_clipped : Bool

-- struct zpt_coherent_displacement_result
pub record GateResult : Type 0 where
  pub x : ℤ
  pub y : ℤ
  pub phase : MotionGatePhase
  pub reset_for_idle : Bool
  pub reset_for_timeout : Bool
  pub suppressed : Bool
  pub qualified : Bool
  pub discarded : Bool
  pub clipped : Bool

abbrev pub no_result : GateResult
no_result = record {
  x = pos 0;
  y = pos 0;
  phase = gate_idle;
  reset_for_idle = false;
  reset_for_timeout = false;
  suppressed = false;
  qualified = false;
  discarded = false;
  clipped = false;
}

-- The sum, with whether it is clipped.
unfoldable pub saturating_add_clipped : ℤ → ℤ → ℤ × Bool
saturating_add_clipped lhs rhs =
    if ltb_ℤ (pos 0) rhs && ltb_ℤ (int64_max -ℤ rhs) lhs
    then (int64_max, true)
    else if ltb_ℤ rhs (pos 0) && ltb_ℤ lhs (int64_min -ℤ rhs)
    then (int64_min, true)
    else (lhs +ℤ rhs, false)

unfoldable pub saturating_multiply_u64 : ℕ → ℕ → ℕ
saturating_multiply_u64 lhs rhs =
    if not (lhs == 0) && ltb (uint64_max / lhs) rhs then uint64_max else lhs * rhs

unfoldable pub square_saturated : ℤ → ℕ
square_saturated value =
    if ltb (2 ^ 32 - 1) (magnitude value) then uint64_max else magnitude value * magnitude value

unfoldable pub magnitude_squared : ℤ → ℤ → ℕ
unfolding square_saturated
magnitude_squared x y = saturating_add_u64 (square_saturated x) (square_saturated y)

-- The least net square for a coherence, by parts of the denominator.
unfoldable pub required_square : ℕ → ℕ → ℕ
required_square denominator percent =
    saturating_add_u64 (denominator / 10000 * (percent * percent) % 2 ^ 64)
      ((denominator % 10000 * (percent * percent) + 9999) / 10000)

unfoldable pub coherence_meets : (net_squared squared_energy sample_count percent : ℕ) → Bool
unfolding saturating_multiply_u64 required_square
coherence_meets net_squared squared_energy sample_count percent =
    if percent == 0 || leb sample_count 1
    then true
    else (let denominator = saturating_multiply_u64 sample_count squared_energy in
        if denominator == 0 then false else leb (required_square denominator percent) net_squared)

abbrev pub has_pending : GateState → Bool
has_pending state = not (state.sample_count == 0)

unfoldable pub reset_pending : GateState → GateState
reset_pending state = record state {
  pending_x = pos 0;
  pending_y = pos 0;
  squared_energy = 0;
  sample_count = 0;
  pending_started_ms = 0;
  pending_clipped = false;
}

unfoldable pub coherent_displacement_validate : GateSettings → Status
coherent_displacement_validate settings =
    if not (ltb_ℤ (pos 0) settings.activation_distance)
      || ltb 100 settings.coherence_percent
      || settings.qualification_timeout_ms == 0
      || settings.idle_timeout_ms == 0
    then err einval
    else success

abbrev pub coherent_displacement_reset : GateState
coherent_displacement_reset = record {
  pending_x = pos 0;
  pending_y = pos 0;
  squared_energy = 0;
  sample_count = 0;
  pending_started_ms = 0;
  last_frame_ms = none;
  active = false;
  pending_clipped = false;
}

abbrev pub phase_of : GateState → MotionGatePhase
phase_of state =
    if state.active then gate_active else if has_pending state then gate_pending else gate_idle

abbrev pub is_idle_since : GateState → GateSettings → ℕ → Bool
is_idle_since state settings now_ms =
    not (is_none state.last_frame_ms)
    && leb settings.idle_timeout_ms (since state.last_frame_ms now_ms)

abbrev pub is_unqualified_since : GateState → GateSettings → ℕ → Bool
is_unqualified_since state settings now_ms =
    not state.active
    && has_pending state
    && leb settings.qualification_timeout_ms (sub_u32 now_ms state.pending_started_ms)

unfoldable pub expire_state : GateState → GateSettings → ℕ → GateState × GateResult
unfolding reset_pending
expire_state state settings now_ms =
    if is_idle_since state settings now_ms
    then (
      coherent_displacement_reset,
      record no_result { discarded = has_pending state; reset_for_idle = true },
    )
    else if is_unqualified_since state settings now_ms
    then (reset_pending state, record no_result { discarded = true; reset_for_timeout = true })
    else (state, record no_result { phase = phase_of state })

unfoldable pub coherent_displacement_expire : GateState → GateSettings → ℕ → GateState × GateResult
unfolding coherent_displacement_validate expire_state
coherent_displacement_expire state settings now_ms =
    if is_error (coherent_displacement_validate settings) || not settings.enabled
    then (state, record no_result { phase = gate_bypass })
    else expire_state state settings now_ms

-- A frame is added to what is pending.
unfoldable pub gather : GateState → ℤ → ℤ → ℕ → GateState
unfolding saturating_add_clipped magnitude_squared
gather state x y now_ms =
    let (pending_x, clipped_x) = saturating_add_clipped state.pending_x x in
    let (pending_y, clipped_y) = saturating_add_clipped state.pending_y y in
    record state {
      pending_x = pending_x;
      pending_y = pending_y;
      pending_clipped = state.pending_clipped || clipped_x || clipped_y;
      pending_started_ms = if has_pending state then state.pending_started_ms else now_ms;
      squared_energy = saturating_add_u64 state.squared_energy (magnitude_squared x y);
      sample_count =
          if state.sample_count == 2 ^ 32 - 1 then state.sample_count else state.sample_count + 1;
    }

unfoldable pub qualifies : GateState → GateSettings → Bool
unfolding magnitude_squared coherence_meets square_saturated
qualifies state settings =
    let net_squared = magnitude_squared state.pending_x state.pending_y in
    leb (square_saturated settings.activation_distance) net_squared
    && coherence_meets net_squared state.squared_energy state.sample_count
        settings.coherence_percent

-- The end of zpt_coherent_displacement_update, on what has been gathered and what expired.
unfoldable pub settle_gate : GateState → GateSettings → GateResult → GateState × GateResult
unfolding reset_pending qualifies
settle_gate state settings expired =
    if qualifies state settings
    then (
      record (reset_pending state) { active = true },
      record no_result {
        x = state.pending_x;
        y = state.pending_y;
        phase = gate_active;
        reset_for_idle = expired.reset_for_idle;
        reset_for_timeout = expired.reset_for_timeout;
        qualified = true;
        discarded = expired.discarded;
        clipped = state.pending_clipped;
      },
    )
    else (
      state,
      record no_result {
        phase = gate_pending;
        reset_for_idle = expired.reset_for_idle;
        reset_for_timeout = expired.reset_for_timeout;
        discarded = expired.discarded;
        clipped = state.pending_clipped;
      },
    )

-- The frame reaches a gate that has been brought up to its time.
unfoldable pub admit : GateState × GateResult → GateSettings → ℤ → ℤ → ℕ → GateState × GateResult
unfolding gather settle_gate
admit (state, expired) settings x y now_ms =
    let seen = record state { last_frame_ms = some now_ms } in
    if seen.active
    then (seen, record no_result { x = x; y = y; phase = gate_active })
    else settle_gate (gather seen x y now_ms) settings expired

unfoldable pub coherent_displacement_update :
    GateState → GateSettings → ℤ → ℤ → ℕ → Bool → GateState × GateResult
unfolding coherent_displacement_validate expire_state admit
coherent_displacement_update state settings x y now_ms suppress =
    if is_error (coherent_displacement_validate settings)
    then (state, no_result)
    else if not settings.enabled
    then (coherent_displacement_reset, record no_result { x = x; y = y; phase = gate_bypass })
    else if suppress
    then (
      coherent_displacement_reset,
      record no_result { discarded = has_pending state || state.active; suppressed = true },
    )
    else admit (expire_state state settings now_ms) settings x y now_ms
