-- ===== src/Core/RouteOverride.antt =====
-- src/core/route_override.c and include/zmk/pointing_tools/core/route_override.h: the overrides of the
-- route that held keys ask for. The capacity is the length of the array, and an array that is NULL
-- is `none`; the order counter is a uint64_t.
pub mod Slots
pub mod Newest
pub mod Presses
pub mod Stack
pub mod Refines
mod Tests
use zmk_pointing_tools.Base.{
  none, false, err, enospc, Bool, ltb, success, set, Option, ℕ, einval, [], List, some, replicate,
  suc, Status, true, ◌==◌, if◌then◌else◌, ◌+◌, ◌%◌, ◌^◌, ◌&&◌, ◌∷◌,
}

-- struct zpt_route_override
pub record RouteOverride : Type 0 where
  pub position : ℕ
  pub pipeline_index : ℕ
  pub order : ℕ
  pub active : Bool

-- struct zpt_route_override_table
pub record RouteOverrideTable : Type 0 where
  pub overrides : Option (List RouteOverride)
  pub next_order : ℕ

abbrev pub no_override : RouteOverride
no_override = record { position = 0; pipeline_index = 0; order = 0; active = false }

unfoldable pub route_override_table_init : Option ℕ → RouteOverrideTable
route_override_table_init none = record { overrides = none; next_order = 0 }
route_override_table_init (some capacity) = record {
  overrides = some (replicate capacity no_override);
  next_order = 0;
}

-- candidate->active && candidate->position == position
abbrev pub is_held_at : ℕ → RouteOverride → Bool
is_held_at position candidate = candidate.active && candidate.position == position

abbrev pub first_available : Bool → Option ℕ → ℕ → Option ℕ
first_available true none index = none
first_available false none index = some index
first_available active (some available) index = some available

-- The loop of zpt_route_override_press: the index of the override that it writes.
unfoldable pub find_available : ℕ → ℕ → Option ℕ → List RouteOverride → Option ℕ
find_available position index available [] = available
find_available position index available (candidate ∷ rest) =
    let next =
      find_available position (suc index) (first_available candidate.active available index) rest in
    if is_held_at position candidate then some index else next

unfoldable pub route_override_press : RouteOverrideTable → ℕ → ℕ → RouteOverrideTable × Status
unfolding find_available
route_override_press table position pipeline_index = elim table.overrides [
  | none ↦ (table, err einval)
  | some overrides ↦ elim (find_available position 0 none overrides) [
    | none ↦ (table, err enospc)
    | some index ↦
        let next_order = (table.next_order + 1) % 2 ^ 64 in
        (
          record {
            overrides = some (
                set overrides index record {
                  position = position;
                  pipeline_index = pipeline_index;
                  order = next_order;
                  active = true;
                });
            next_order = next_order;
          },
          success,
        )
  ]
]

-- The loop of zpt_route_override_release.
unfoldable pub release_first : ℕ → List RouteOverride → List RouteOverride
release_first position [] = []
release_first position (candidate ∷ rest) =
    let next = release_first position rest in
    if is_held_at position candidate
    then record candidate { active = false } ∷ rest
    else candidate ∷ next

unfoldable pub route_override_release : RouteOverrideTable → ℕ → RouteOverrideTable × Status
unfolding release_first
route_override_release table position = elim table.overrides [
  | none ↦ (table, err einval)
  | some overrides ↦ (record table { overrides = some (release_first position overrides) }, success)
]

-- candidate->active && (selected == NULL || candidate->order > selected->order)
abbrev pub is_newer : RouteOverride → Option RouteOverride → Bool
is_newer candidate none = candidate.active
is_newer candidate (some selected) = candidate.active && ltb selected.order candidate.order

-- The loop of zpt_route_override_selected.
unfoldable pub newest : Option RouteOverride → List RouteOverride → Option RouteOverride
newest selected [] = selected
newest selected (candidate ∷ rest) =
    newest (if is_newer candidate selected then some candidate else selected) rest

unfoldable pub route_override_selected : RouteOverrideTable → Option ℕ
unfolding newest
route_override_selected table = elim table.overrides [
  | none ↦ none
  | some overrides ↦ elim (newest none overrides) [
    | none ↦ none
    | some selected ↦ some selected.pipeline_index
  ]
]
