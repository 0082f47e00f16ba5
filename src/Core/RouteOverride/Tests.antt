-- ===== src/Core/RouteOverride/Tests.antt =====
-- Tests and witnesses for the overrides of the route.
use zmk_pointing_tools.Base.{
  List, none, arith, [], ℕ, true, some, refl, success, ◌==◌, if◌then◌else◌, ◌≡◌, ◌∷◌,
}
use zmk_pointing_tools.Core.RouteOverride.{
  route_override_table_init, find_available, newest, no_override, route_override_press,
  route_override_release, route_override_selected, RouteOverrideTable, RouteOverride,
}
use zmk_pointing_tools.Core.RouteOverride.Newest.{IsTable}
use zmk_pointing_tools.Core.RouteOverride.Presses.{held_at, release-frees, press-selects, IsPressed}
use zmk_pointing_tools.Core.RouteOverride.Slots.{held}
use zmk_pointing_tools.Core.RouteOverride.Refines.{
  press, release, run_both-selected, KeyEvent, step_both, run_both,
}
use zmk_pointing_tools.Core.RouteOverride.Stack.{without_key, top_route}

abbrev two_places : RouteOverrideTable
two_places = record { overrides = some (no_override ∷ no_override ∷ []); next_order = 0 }

abbrev sample_override : RouteOverride
sample_override = record { position = 7; pipeline_index = 2; order = 1; active = true }

abbrev one_held : RouteOverrideTable
one_held = record { overrides = some (sample_override ∷ no_override ∷ []); next_order = 1 }

two_places-IsTable : IsTable two_places
two_places-IsTable = (((λ e. cc), ((λ e. cc), tt)), ((λ e. cc), ((λ e. cc), tt)))

one_held-IsTable : IsTable one_held
unfolding held
one_held-IsTable = (((λ e. refl), ((λ e. cc), tt)), ((λ e. omega arith), ((λ e. cc), tt)))

one_selected : route_override_selected one_held ≡ some 2
unfolding route_override_selected newest
one_selected = refl

press-selects_example : IsPressed two_places 7 2 (route_override_press two_places 7 2)
press-selects_example = press-selects two_places 7 2 two_places-IsTable (omega arith)

release-frees_example :
    let (table', ret) = route_override_release one_held 7 in
    (ret ≡ success)
    × IsTable table'
    × ((q : ℕ) → held_at q table' ≡ (if q == 7 then none else held_at q one_held))
release-frees_example = release-frees one_held 7 one_held-IsTable

abbrev two_keys : List KeyEvent
two_keys = press 3 1 ∷ press 5 2 ∷ release 5 ∷ []

run_both-selected_example :
    let (table, keys) = run_both two_keys (route_override_table_init (some 2), []) in
    route_override_selected table ≡ top_route keys
run_both-selected_example = run_both-selected 2 two_keys (omega arith)

-- The first key is the selected one again once the second is released.
first_again : top_route (run_both two_keys (route_override_table_init (some 2), [])).1 ≡ some 1
unfolding run_both route_override_table_init step_both route_override_press without_key
    find_available
first_again = refl
