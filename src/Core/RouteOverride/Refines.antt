-- ===== src/Core/RouteOverride/Refines.antt =====
-- The table of overrides refines the stack of Core/RouteOverride/Stack, over any presses and releases.
use native.Mathlib.Nat.{mod-eq_of_lt}
use zmk_pointing_tools.Base.{
  zero, replicate, length, ◌≤◌, Option, ap, inr, some, none, false, true≢false, Status, ==→≢,
  Option-cases, ==_iff, List, [], err, is_error, subst, if_true, true, refl, ok, Bool-cases, suc,
  sym, inl, if_false, arith, ◌==◌, if◌then◌else◌, ◌+◌, ◌^◌, ◌<◌, ◌≡◌, ◌∙◌, ◌⊎◌, ◌∷◌, ℕ,
}
use zmk_pointing_tools.Core.RouteOverride.{
  no_override, route_override_table_init, route_override_selected, route_override_release,
  RouteOverrideTable, find_available, route_override_press, RouteOverride,
}
use zmk_pointing_tools.Core.RouteOverride.Presses.{press-selects, IsPressed, held_at, release-frees}
use zmk_pointing_tools.Core.RouteOverride.Slots.{IsUnique, held}
use zmk_pointing_tools.Core.RouteOverride.Stack.{
  IsRefined-selected, top_route, IsFalling, without_key, remove-IsFalling, widen_IsFalling, find,
  HeldKeys, push_key, map-remove, find-remove, IsRefined, remove,
}
use zmk_pointing_tools.Core.RouteOverride.Newest.{AllWithin}

-- The calls that a router makes.
pub data KeyEvent : Type 0 where
  press : (position pipeline_index : ℕ) → KeyEvent
  release : (position : ℕ) → KeyEvent

-- Both views after a call: a press that is refused changes no stack.
unfoldable pub step_both : KeyEvent → RouteOverrideTable × HeldKeys → RouteOverrideTable × HeldKeys
step_both (press position pipeline_index) (table, keys) =
    let (table', ret) = route_override_press table position pipeline_index in
    (table', if is_error ret then keys else push_key position pipeline_index keys)
step_both (release position) (table, keys) =
    ((route_override_release table position).0, without_key position keys)

unfoldable pub run_both :
    List KeyEvent → RouteOverrideTable × HeldKeys → RouteOverrideTable × HeldKeys
run_both [] both = both
run_both (event ∷ rest) both = run_both rest (step_both event both)

-- The order after a press.
press_next_order :
    (table : RouteOverrideTable) (position pipeline_index : ℕ)
    → table.next_order + 1 < 2 ^ 64
    → let (table', ret) = route_override_press table position pipeline_index in
      ((is_error ret ≡ true) × (table'.next_order ≡ table.next_order))
      ⊎ ((is_error ret ≡ false) × (table'.next_order ≡ table.next_order + 1))
unfolding route_override_press
press_next_order table position pipeline_index l = of table.overrides
  where
    of :
        (o : Option (List RouteOverride))
        → let (table', ret) =
            route_override_press (record table { overrides = o }) position pipeline_index in
          ((is_error ret ≡ true) × (table'.next_order ≡ table.next_order))
          ⊎ ((is_error ret ≡ false) × (table'.next_order ≡ table.next_order + 1))
    of none = inl (refl, refl)
    of (some overrides) = elim (Option-cases (find_available position 0 none overrides)) [
      | inl e ↦ rw (e, route_override_press) (inl (refl, refl))
      | inr (index, e) ↦ rw (e, route_override_press) (inr (refl, mod-eq_of_lt l))
    ]

flipped : (a b : ℕ) → (a == b) ≡ false → (b == a) ≡ false
flipped a b h = ground arith

pressed_IsRefined :
    (table : RouteOverrideTable) (keys : HeldKeys) (position pipeline_index : ℕ)
    → table.next_order + 1 < 2 ^ 64
    → IsRefined table keys
    → (result : RouteOverrideTable × Status) → IsPressed table position pipeline_index result
    → ((is_error result.1 ≡ true) × (result.0.next_order ≡ table.next_order))
      ⊎ ((is_error result.1 ≡ false) × (result.0.next_order ≡ table.next_order + 1))
    → IsRefined result.0 (if is_error result.1 then keys else push_key position pipeline_index keys)
unfolding find
pressed_IsRefined table keys position pipeline_index l r (table', err e) (code, same, full) o =
    subst (λ t. IsRefined t keys) (sym same) r
pressed_IsRefined table keys position pipeline_index l r (table', ok n)
      (good, selected, held, others) (inl o) =
    absurd (true≢false (sym o.0))
pressed_IsRefined table keys position pipeline_index l (os, same, good_before, falling, all)
      (table', ok n) (good, selected, held, others) (inr o) =
    let new : RouteOverride = record {
      position = position;
      pipeline_index = pipeline_index;
      order = table.next_order + 1;
      active = true;
    } in
    (
      new ∷ remove position os,
      ap (λ ks. (position, pipeline_index) ∷ ks)
          (map-remove os position ∙ ap (without_key position) same),
      good,
      (
        omega (arith, o.1),
        widen_IsFalling (remove position os) (suc table.next_order) (table.next_order + 1)
            (omega arith) (remove-IsFalling os position (suc table.next_order) falling),
      ),
      λ q. elim (Bool-cases (position == q)) [
        | inl e ↦
            subst (λ j. held_at j table' ≡ some new) ((==_iff position q).0 e) held
            ∙ sym (if_true _ _ e)
        | inr e ↦
            others q (==→≢ position q e)
            ∙ all q
            ∙ sym (if_false _ _ e ∙ find-remove os position q ∙ if_false _ _ (flipped position q e))
      ],
    )

release_next_order :
    (o : Option (List RouteOverride)) (next_order position : ℕ)
    → (route_override_release
        (record { overrides = o; next_order = next_order })
        position).0.next_order
      ≡ next_order
unfolding route_override_release
release_next_order none next_order position = refl
release_next_order (some os) next_order position = refl

release_IsRefined :
    (table : RouteOverrideTable) (keys : HeldKeys) (position : ℕ)
    → IsRefined table keys
    → IsRefined (route_override_release table position).0 (without_key position keys)
release_IsRefined table keys position (os, same, good, falling, all) =
    let (code, good', held') = release-frees table position good in
    (
      remove position os,
      map-remove os position ∙ ap (without_key position) same,
      good',
      subst (λ n. IsFalling (suc n) (remove position os))
          (sym (release_next_order table.overrides table.next_order position))
          (remove-IsFalling os position (suc table.next_order) falling),
      λ q.
          held' q
          ∙ ap (λ o. if q == position then none else o) (all q)
          ∙ sym (find-remove os position q),
    )

-- Each call counts the order up by one at most.
step_IsRefined :
    (event : KeyEvent) (table : RouteOverrideTable) (keys : HeldKeys)
    → table.next_order + 1 < 2 ^ 64
    → IsRefined table keys
    → let (table', keys') = step_both event (table, keys) in
      IsRefined table' keys' × (table'.next_order ≤ table.next_order + 1)
unfolding step_both
step_IsRefined (press position pipeline_index) table keys l r =
    let pressed = route_override_press table position pipeline_index in
    let counted = press_next_order table position pipeline_index l in
    (
      pressed_IsRefined table keys position pipeline_index l r pressed
          (press-selects table position pipeline_index r.2 l) counted,
      elim counted [ inl (e, same) ↦ omega arith | inr (e, next) ↦ omega arith ],
    )
step_IsRefined (release position) table keys l r = (
  release_IsRefined table keys position r,
  omega (arith, release_next_order table.overrides table.next_order position),
)

run_IsRefined :
    (events : List KeyEvent) (table : RouteOverrideTable) (keys : HeldKeys)
    → table.next_order + length events < 2 ^ 64
    → IsRefined table keys
    → let (table', keys') = run_both events (table, keys) in IsRefined table' keys'
unfolding run_both
run_IsRefined [] table keys l r = r
run_IsRefined (event ∷ rest) table keys l r =
    let (r', counted) = step_IsRefined event table keys (omega arith) r in
    run_IsRefined rest (step_both event (table, keys)).0 (step_both event (table, keys)).1
      (omega arith) r'

replicated :
    (capacity : ℕ)
    → IsUnique (replicate capacity no_override)
      × AllWithin 0 (replicate capacity no_override)
      × ((q : ℕ) → held q (replicate capacity no_override) ≡ none)
unfolding held
replicated zero = (tt, tt, λ q. refl)
replicated (suc capacity) =
    let (unique, within, none_held) = replicated capacity in
    (((λ e. absurd (true≢false (sym e))), unique), ((λ e. omega arith), within), none_held)

init_IsRefined : (capacity : ℕ) → IsRefined (route_override_table_init (some capacity)) []
unfolding route_override_table_init held_at find
init_IsRefined capacity =
    let (unique, within, none_held) = replicated capacity in
    ([], refl, (unique, within), tt, λ q. none_held q)

-- A table of any capacity refines a stack of held keys: after any sequence of fewer than 2 ^ 64 presses and
-- releases from the initialized table, the selected route is that of the key that was pressed last among those
-- still held, or none when no key is held; a press that is refused counts for nothing.
pub run_both-selected :
    (capacity : ℕ) (events : List KeyEvent)
    → length events < 2 ^ 64
    → let (table, keys) = run_both events (route_override_table_init (some capacity), []) in
      route_override_selected table ≡ top_route keys
unfolding route_override_table_init
run_both-selected capacity events l =
    let both = run_both events (route_override_table_init (some capacity), []) in
    IsRefined-selected both.0 both.1 (
      run_IsRefined events (route_override_table_init (some capacity)) [] (omega (arith, l))
        (init_IsRefined capacity))
