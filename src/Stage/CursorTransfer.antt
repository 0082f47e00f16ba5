-- ===== src/Stage/CursorTransfer.antt =====
-- src/stage/cursor_transfer/cursor_transfer.c: a gain on motion.
use zmk_pointing_tools.Base.{
  true, Bool, err, some, ℕ, success, List, einval, none, Status, false, not, ◌==◌, if◌then◌else◌,
  ◌||◌,
}
use zmk_pointing_tools.Base.Int.{int64_min, pos, int64_max, ltb_ℤ, ℤ, tdiv, ◌*ℤ◌}
use zmk_pointing_tools.Core.Pipeline.Types.{Script, StageApi, finish, ResetReason, emit}
use zmk_pointing_tools.Core.Signal.{
  only, payload_x, payload_y, kind_eq, fixed_vector, Signal, normalized_motion, kind,
}
use zmk_pointing_tools.Stage.Effect.{with_vector}

-- struct zpt_cursor_transfer_config
pub record CursorTransferConfig : Type 0 where
  pub scale_multiplier : ℕ  -- uint16_t
  pub scale_divisor : ℕ  -- uint16_t

-- The scaled value, with whether it is clipped.
unfoldable pub saturating_scale : ℤ → ℕ → ℕ → ℤ × Bool
saturating_scale value multiplier divisor =
    if multiplier == 0
    then (pos 0, false)
    else if ltb_ℤ (tdiv int64_max multiplier) value
    then (int64_max, true)
    else if ltb_ℤ value (tdiv int64_min multiplier)
    then (int64_min, true)
    else (tdiv (value *ℤ pos multiplier) divisor, false)

unfoldable pub cursor_transfer_stage_activate {ℓ} :
    {S : Type ℓ} → CursorTransferConfig → S → ResetReason → S × Status
cursor_transfer_stage_activate config state reason =
    (state, if config.scale_divisor == 0 then err einval else success)

unfoldable pub cursor_transfer_stage_process :
    {S : Type 0} → CursorTransferConfig → S → Signal → ℕ → Script S
unfolding saturating_scale
cursor_transfer_stage_process config state signal now_ms =
    if not (kind_eq (kind signal) normalized_motion)
    then finish state (err einval)
    else (let (x, clipped_x) =
          saturating_scale (payload_x signal.payload) config.scale_multiplier
            config.scale_divisor in
        let (y, clipped_y) =
          saturating_scale (payload_y signal.payload) config.scale_multiplier
            config.scale_divisor in
        emit
          (if clipped_x || clipped_y
            then record signal {
              payload = fixed_vector x y;
              metadata = record (signal.metadata) {
                flags = record (signal.metadata.flags) { clipped = true };
              };
            }
            else with_vector signal x y)
          (λ ret. finish state ret))

unfoldable pub cursor_transfer_stage_api : {S : Type 0} → List ℕ → CursorTransferConfig → StageApi S
cursor_transfer_stage_api strategy_id config = record {
  strategy_id = strategy_id;
  accepted_kinds = only normalized_motion;
  output_kind = normalized_motion;
  stateful = false;
  process = cursor_transfer_stage_process config;
  flush = none;
  activate = some (cursor_transfer_stage_activate config);
  deactivate = none;
  reset = none;
}
