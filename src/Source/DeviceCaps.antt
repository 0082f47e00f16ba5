-- ===== src/Source/DeviceCaps.antt =====
-- src/source/device_caps.c and include/zmk/pointing_tools/source/device_caps.h: the resolution that a
-- sensor takes for a requested one. A list of values that is NULL is an empty one.
pub mod Range
pub mod Nearest
use zmk_pointing_tools.Base.{
  Errno, inl, Bool, leb, einval, inr, ℕ, not, ltb, enosys, [], List, ◌==◌, if◌then◌else◌, ◌+◌, ◌-◌,
  ◌%◌, ◌^◌, ◌⊎◌, ◌&&◌, ◌||◌, ◌∷◌,
}

-- struct zpt_cpi_capabilities
pub record CpiCapabilities : Type 0 where
  pub settable : Bool
  pub discrete : Bool
  pub range_min : ℕ  -- uint16_t
  pub range_max : ℕ  -- uint16_t
  pub range_step : ℕ  -- uint16_t
  pub list_values : List ℕ  -- uint16_t

abbrev pub distance : ℕ → ℕ → ℕ
distance value requested = if ltb requested value then value - requested else requested - value

-- The loop of validate_discrete: the best value and its distance so far.
unfoldable pub search_nearest : ℕ → ℕ → ℕ → List ℕ → ℕ × ℕ
search_nearest requested best best_distance [] = (best, 1)
search_nearest requested best best_distance (value ∷ rest) =
    let next = search_nearest requested value (distance value requested) rest in
    let same = search_nearest requested best best_distance rest in
    if value == requested
    then (requested, 0)
    else if ltb (distance value requested) best_distance
    then next
    else same

-- The effective value, and 0 or 1 as it is the requested one or not.
unfoldable pub validate_discrete : CpiCapabilities → ℕ → Errno ⊎ (ℕ × ℕ)
unfolding search_nearest
validate_discrete caps requested = elim caps.list_values [
  | [] ↦ inl einval
  | first ∷ rest ↦ inr (search_nearest requested first (2 ^ 16 - 1) (first ∷ rest))
]

abbrev pub with_status : ℕ → ℕ → ℕ × ℕ
with_status effective requested = (effective, if effective == requested then 0 else 1)

unfoldable pub snap_range_point : CpiCapabilities → ℕ → ℕ × ℕ
snap_range_point caps requested =
    let offset = requested - caps.range_min in
    let below = offset - offset % caps.range_step in
    let above = below + caps.range_step in
    let chosen =
      if leb above (caps.range_max - caps.range_min) && ltb (above - offset) (offset - below)
      then above
      else below in
    with_status ((caps.range_min + chosen) % 2 ^ 16) requested

unfoldable pub validate_range : CpiCapabilities → ℕ → Errno ⊎ (ℕ × ℕ)
unfolding snap_range_point
validate_range caps requested =
    if caps.range_step == 0 || ltb caps.range_max caps.range_min
    then inl einval
    else if leb requested caps.range_min
    then inr (with_status caps.range_min requested)
    else if leb caps.range_max requested
    then inr (with_status caps.range_max requested)
    else inr (snap_range_point caps requested)

unfoldable pub cpi_validate : CpiCapabilities → ℕ → Errno ⊎ (ℕ × ℕ)
unfolding validate_discrete validate_range
cpi_validate caps requested =
    if not caps.settable
    then inl enosys
    else if caps.discrete
    then validate_discrete caps requested
    else validate_range caps requested
