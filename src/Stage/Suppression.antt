-- ===== src/Stage/Suppression.antt =====
-- include/zmk/pointing_tools/policy/suppression.h: a policy that a stage may be given. It is code of
-- the platform, here a function of the signal and the time, or none for NULL.
use zmk_pointing_tools.Base.{Bool, Option, ℕ, false, some, none}
use zmk_pointing_tools.Core.Signal.{Signal}

abbrev pub SuppressionPolicy : Type 0
SuppressionPolicy = Option (Signal → ℕ → Bool)

-- The suppression_active of each stage.
unfoldable pub suppression_active : SuppressionPolicy → Signal → ℕ → Bool
suppression_active none signal now = false
suppression_active (some is_suppressed) signal now = is_suppressed signal now
