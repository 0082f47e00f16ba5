-- ===== src/Platform/KeypressSuppression.antt =====
-- src/platform/zmk/keypress_suppression.c: motion is suppressed for a time after a key press, and a
-- capture can freeze what it decides with. The atomics are sequentially consistent, so that the stores
-- of the listener's thread are steps on the state; freezing, which only the thread that reads it does,
-- is one step. What Zephyr says of a device is an argument.
use zmk_pointing_tools.Base.{
  sym, ap, ltb, sub_u32, inl, Errno, true, inr, eprototype, false, enosys, refl, some, Option, none,
  enodev, List, [], not, if◌then◌else◌, ◌≡◌, ◌∙◌, ◌⊎◌, ◌&&◌, ◌∷◌, ℕ, Bool,
}

-- FROZEN_NONE, FROZEN_NO_KEYPRESS and FROZEN_KEYPRESS
pub data Frozen : Type 0 where
  frozen_none frozen_no_keypress frozen_keypress : Frozen

-- struct zpt_keypress_suppression_data, but for the policy, whose functions are below
pub record KeypressSuppression : Type 0 where
  pub suppress_after_ms : ℕ  -- uint32_t
  pub last_keypress_ms : ℕ  -- uint32_t
  pub have_keypress : Bool
  pub frozen : Frozen
  pub frozen_ms : ℕ  -- uint32_t

-- The decision, on what is read.
unfoldable pub decision : Frozen → (have : Bool) → (last frozen_ms after now_ms : ℕ) → Bool
decision frozen_none have last frozen_ms after now_ms = have && ltb (sub_u32 now_ms last) after
decision frozen_no_keypress have last frozen_ms after now_ms = false
decision frozen_keypress have last frozen_ms after now_ms = ltb (sub_u32 now_ms frozen_ms) after

unfoldable pub keypress_is_suppressed : KeypressSuppression → ℕ → Bool
unfolding decision
keypress_is_suppressed state now_ms =
    decision state.frozen state.have_keypress state.last_keypress_ms state.frozen_ms
      state.suppress_after_ms now_ms

-- The state, whether there is a key press, and its time.
unfoldable pub keypress_freeze : KeypressSuppression → KeypressSuppression × (Bool × ℕ)
keypress_freeze state = (
  record state {
    frozen_ms = state.last_keypress_ms;
    frozen = if state.have_keypress then frozen_keypress else frozen_no_keypress;
  },
  (state.have_keypress, state.last_keypress_ms),
)

unfoldable pub keypress_thaw : KeypressSuppression → KeypressSuppression
keypress_thaw state = record state { frozen = frozen_none }

unfoldable pub keypress_suppression_init : ℕ → KeypressSuppression
keypress_suppression_init suppress_after_ms = record {
  suppress_after_ms = suppress_after_ms;
  last_keypress_ms = 0;
  have_keypress = false;
  frozen = frozen_none;
  frozen_ms = 0;
}

-- What Zephyr says of a device: device_is_ready, DEVICE_API_IS, and what get_policy answers, if it is there.
pub record DeviceView (P : Type 0) : Type 0 where
  pub ready : Bool
  pub has_api : Bool
  pub get_policy : Option (Option P)

unfoldable pub zmk_keypress_suppression_get : {P : Type 0} → DeviceView P → Errno ⊎ P
zmk_keypress_suppression_get dev =
    if not dev.ready
    then inl enodev
    else if not dev.has_api
    then inl eprototype
    else elim dev.get_policy [
      | none ↦ inl enosys
      | some none ↦ inl enodev
      | some (some policy) ↦ inr policy
    ]

-- ZPT_KEYPRESS_SUPPRESSION_RECORD: the two stores, the time first.
abbrev pub store_time : ℕ → KeypressSuppression → KeypressSuppression
store_time timestamp state = record state { last_keypress_ms = timestamp }

abbrev pub store_flag : KeypressSuppression → KeypressSuppression
store_flag state = record state { have_keypress = true }

-- A position event: whether the key is down, and its time.
abbrev pub PositionEvent : Type 0
PositionEvent = Bool × ℕ

-- The listener, on the instances that are ready; none is an event of another kind.
unfoldable pub position_state_changed_listener :
    Option PositionEvent → List (Bool × KeypressSuppression) → List (Bool × KeypressSuppression)
position_state_changed_listener none instances = instances
position_state_changed_listener (some (pressed, timestamp)) [] = []
position_state_changed_listener (some (pressed, timestamp)) ((ready, state) ∷ rest) =
    let later = position_state_changed_listener (some (pressed, timestamp)) rest in
    let recorded = if pressed && ready then store_flag (store_time timestamp state) else state in
    (ready, recorded) ∷ later

-- The stores of the listener's thread.
pub data KeypressStep : Type 0 where
  time_stored : ℕ → KeypressStep
  flag_stored : KeypressStep

abbrev pub keypress_step : KeypressStep → KeypressSuppression → KeypressSuppression
keypress_step (time_stored timestamp) state = store_time timestamp state
keypress_step flag_stored state = store_flag state

unfoldable pub keypress_steps : List KeypressStep → KeypressSuppression → KeypressSuppression
keypress_steps [] state = state
keypress_steps (step ∷ rest) state = keypress_steps rest (keypress_step step state)

steps_frozen :
    (steps : List KeypressStep) (state : KeypressSuppression)
    → let later = keypress_steps steps state in
      (later.frozen ≡ state.frozen)
      × (later.frozen_ms ≡ state.frozen_ms)
      × (later.suppress_after_ms ≡ state.suppress_after_ms)
unfolding keypress_steps
steps_frozen [] state = (refl, refl, refl)
steps_frozen (time_stored t ∷ rest) state = steps_frozen rest (store_time t state)
steps_frozen (flag_stored ∷ rest) state = steps_frozen rest (store_flag state)

frozen_decision :
    (have have' : Bool) (last last' frozen_ms after now_ms : ℕ)
    → decision (if have then frozen_keypress else frozen_no_keypress) have' last' last after now_ms
      ≡ decision frozen_none have last frozen_ms after now_ms
unfolding decision
frozen_decision true have' last last' frozen_ms after now_ms = refl
frozen_decision false have' last last' frozen_ms after now_ms = refl

-- From a freeze on, and until a thaw, the policy decides as it did before the freeze, whatever the thread of
-- the listener stores in between.
pub keypress_freeze-holds :
    (state : KeypressSuppression) (steps : List KeypressStep) (now_ms : ℕ)
    → state.frozen ≡ frozen_none
    → keypress_is_suppressed (keypress_steps steps (keypress_freeze state).0) now_ms
      ≡ keypress_is_suppressed state now_ms
unfolding keypress_freeze keypress_is_suppressed
keypress_freeze-holds state steps now_ms h =
    let (same, ms, after) = steps_frozen steps (keypress_freeze state).0 in
    let later = keypress_steps steps (keypress_freeze state).0 in
    ap
      (λ f.
        decision f later.have_keypress later.last_keypress_ms later.frozen_ms
          later.suppress_after_ms now_ms)
      same
    ∙ ap
        (λ m.
          decision (keypress_freeze state).0.frozen later.have_keypress later.last_keypress_ms m
            later.suppress_after_ms now_ms)
        ms
    ∙ ap
        (λ a.
          decision (keypress_freeze state).0.frozen later.have_keypress later.last_keypress_ms
            state.last_keypress_ms a now_ms)
        after
    ∙ frozen_decision state.have_keypress later.have_keypress state.last_keypress_ms
        later.last_keypress_ms state.frozen_ms state.suppress_after_ms now_ms
    ∙ ap
        (λ f.
          decision f state.have_keypress state.last_keypress_ms state.frozen_ms
            state.suppress_after_ms now_ms)
        (sym h)
