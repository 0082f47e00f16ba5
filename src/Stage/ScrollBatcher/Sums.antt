-- ===== src/Stage/ScrollBatcher/Sums.antt =====
-- A flush of Stage/ScrollBatcher loses no motion and makes none up.
use zmk_pointing_tools.Base.{◌≡◌}
use zmk_pointing_tools.Base.Int.{ℤ, pos, ◌+ℤ◌, ◌*ℤ◌}
use zmk_pointing_tools.Core.Fixed.{multiply, fixed_one}
use zmk_pointing_tools.Stage.CursorQuantizer.{IsFraction}
use zmk_pointing_tools.Stage.Effect.{Effect, sent_x, sent_y}
use zmk_pointing_tools.Stage.ScrollBatcher.{ScrollBatcherConfig, ScrollBatcher}

-- What a flush makes of one axis.
abbrev pub IsTaken : (sent last pending per_millimeter remainder : ℤ) → Type 0
IsTaken sent last pending per_millimeter remainder =
    (sent *ℤ pos fixed_one +ℤ last ≡ multiply pending per_millimeter +ℤ remainder) × IsFraction last

-- What a flush makes of a state.
abbrev pub IsFlushed : ScrollBatcherConfig → ScrollBatcher → Effect ScrollBatcher → Type 0
IsFlushed config state after =
    IsTaken (sent_x after.emitted) after.state.remainder_x state.pending_x
      config.steps_per_millimeter state.remainder_x
    × IsTaken (sent_y after.emitted) after.state.remainder_y state.pending_y
        config.steps_per_millimeter state.remainder_y
    × (after.state.pending_x ≡ pos 0)
    × (after.state.pending_y ≡ pos 0)
