-- ===== src/Stage/TextNav.antt =====
-- src/stage/text_nav/text_nav.c: motion along a decided axis becomes navigation actions.
use zmk_pointing_tools.Base.{
  Bool, List, einval, err, true, not, some, success, Status, ℕ, Option, ltb, sub_u32, leb, none,
  false, ◌==◌, if◌then◌else◌, ◌||◌,
}
use zmk_pointing_tools.Base.Int.{ltb_ℤ, pos, to_uint64, ℤ, ◌+ℤ◌, ◌-ℤ◌}
use zmk_pointing_tools.Core.Fixed.{saturating_add, magnitude}
use zmk_pointing_tools.Core.Pipeline.Types.{
  StageEvent, ResetReason, notify, StageApi, emit, Script, finish,
}
use zmk_pointing_tools.Core.Signal.{
  horizontal, only, payload_y, Signal, Kind, action_id, undecided, free, vertical, AxisIntent,
  zero_metadata, payload_x, kind, normalized_motion, kind_eq,
}
use zmk_pointing_tools.Stage.Effect.{no_signal}

-- enum zpt_text_nav_direction, but for ZPT_TEXT_NAV_NONE
pub data TextNavDirection : Type 0 where
  left right up down : TextNavDirection

abbrev pub direction_id : TextNavDirection → ℕ
direction_id left = 0
direction_id right = 1
direction_id up = 2
direction_id down = 3

-- struct zpt_text_nav_config
pub record TextNavConfig : Type 0 where
  pub horizontal_threshold : ℤ
  pub vertical_threshold : ℤ
  pub idle_timeout_ms : ℕ  -- uint16_t

-- struct zpt_text_nav_state. `last_direction` is none for ZPT_TEXT_NAV_NONE, and `last_frame_ms` joins
-- have_last_frame.
pub record TextNav : Type 0 where
  pub accumulated_x : ℤ
  pub accumulated_y : ℤ
  pub last_direction : Option TextNavDirection
  pub last_frame_ms : Option ℕ

unfoldable pub text_nav_stage_activate : TextNavConfig → TextNav → ResetReason → TextNav × Status
text_nav_stage_activate config state reason = (
  state,
  if not (ltb_ℤ (pos 0) config.horizontal_threshold)
        || not (ltb_ℤ (pos 0) config.vertical_threshold)
        || config.idle_timeout_ms == 0
      then err einval
      else success,
)

unfoldable pub text_nav_stage_reset : TextNav → ResetReason → TextNav
text_nav_stage_reset state reason = record {
  accumulated_x = pos 0;
  accumulated_y = pos 0;
  last_direction = none;
  last_frame_ms = none;
}

unfoldable pub store_axis_accumulation : TextNav → Bool → ℤ → TextNav
store_axis_accumulation state true accumulated = record state { accumulated_x = accumulated }
store_axis_accumulation state false accumulated = record state { accumulated_y = accumulated }

-- An axis with what it has accumulated, its threshold and its directions.
pub record TextNavAxis : Type 0 where
  pub is_horizontal : Bool
  pub accumulated : ℤ
  pub threshold : ℤ
  pub negative_direction : TextNavDirection
  pub positive_direction : TextNavDirection

unfoldable pub resolve_text_nav_axis :
    TextNav → TextNavConfig → AxisIntent → ℤ → ℤ → Option TextNavAxis
resolve_text_nav_axis state config undecided x y = none
resolve_text_nav_axis state config free x y = none
resolve_text_nav_axis state config horizontal x y = some record {
  is_horizontal = true;
  accumulated = saturating_add state.accumulated_x x;
  threshold = config.horizontal_threshold;
  negative_direction = left;
  positive_direction = right;
}
resolve_text_nav_axis state config vertical x y = some record {
  is_horizontal = false;
  accumulated = saturating_add state.accumulated_y y;
  threshold = config.vertical_threshold;
  negative_direction = up;
  positive_direction = down;
}

-- A gesture begins after a gap, and without an earlier frame.
unfoldable pub begin_frame : TextNav → TextNavConfig → ℕ → TextNav
begin_frame state config now =
    let fresh : TextNav = record state {
      accumulated_x = pos 0;
      accumulated_y = pos 0;
      last_frame_ms = some now;
    } in
    elim state.last_frame_ms [
      | none ↦ fresh
      | some last ↦
          if leb config.idle_timeout_ms (sub_u32 now last)
          then fresh
          else record state { last_frame_ms = some now }
    ]

-- The direction, and what stays accumulated.
unfoldable pub take_threshold : TextNavAxis → TextNavDirection × ℤ
take_threshold axis =
    if ltb_ℤ axis.accumulated (pos 0)
    then (axis.negative_direction, axis.accumulated +ℤ axis.threshold)
    else (axis.positive_direction, axis.accumulated -ℤ axis.threshold)

-- The end of text_nav_stage_process, once the axis is known.
unfoldable pub navigate : TextNav → TextNavAxis → ℕ → Script TextNav
unfolding take_threshold store_axis_accumulation
navigate state axis now =
    if ltb (magnitude axis.accumulated) (to_uint64 axis.threshold)
    then finish
        (record (store_axis_accumulation state axis.is_horizontal axis.accumulated) {
          last_direction = none;
        })
        success
    else (let (direction, accumulated) = take_threshold axis in
        let stored = record (store_axis_accumulation state axis.is_horizontal accumulated) {
          last_direction = some direction;
        } in
        notify StageEvent.action (pos (direction_id direction)) (
          emit
            (record no_signal {
              metadata = record zero_metadata { observed_at_ms = now };
              payload = action_id (direction_id direction);
            })
            (λ ret. finish stored ret)))

unfoldable pub text_nav_stage_process : TextNavConfig → TextNav → Signal → ℕ → Script TextNav
unfolding begin_frame resolve_text_nav_axis navigate
text_nav_stage_process config state signal now =
    if not (kind_eq (kind signal) normalized_motion)
    then finish state (err einval)
    else (let begun = begin_frame state config now in
        elim (resolve_text_nav_axis begun config signal.annotations.axis_intent
          (payload_x signal.payload) (payload_y signal.payload)) [
            | none ↦ finish (record begun { last_direction = none }) success
            | some axis ↦ navigate begun axis now
          ])

unfoldable pub text_nav_stage_api : List ℕ → TextNavConfig → StageApi TextNav
text_nav_stage_api strategy_id config = record {
  strategy_id = strategy_id;
  accepted_kinds = only normalized_motion;
  output_kind = Kind.action;
  stateful = true;
  process = text_nav_stage_process config;
  flush = none;
  activate = some (text_nav_stage_activate config);
  deactivate = none;
  reset = some text_nav_stage_reset;
}
