-- ===== src/Core/RouteOverride/Presses.antt =====
-- What a press and a release do to the table of overrides as a whole.
-- What is held at a position of a table.
use zmk_pointing_tools.Base.{
  ◌≤◌, ◌==◌, if◌then◌else◌, success, set, subst, false, sym, if_false, Bool, suc, ◌%◌, ◌∙◌, refl,
  enospc, Option, ok, Option-cases, List, if_true, some, inl, Bool-cases, arith, err, Status, none,
  ℕ, true, [], inr, ◌+◌, ◌^◌, ◌<◌, ◌≡◌, ◌≢◌, ◌∷◌,
}
use zmk_pointing_tools.Core.RouteOverride.{
  newest, route_override_release, release_first, first_available, is_held_at, RouteOverrideTable,
  route_override_selected, route_override_press, RouteOverride, find_available,
}
use zmk_pointing_tools.Core.RouteOverride.Newest.{
  newest-top, AllWithin, set-AllWithin, newest-set, IsTableOf, IsTable,
}
use zmk_pointing_tools.Core.RouteOverride.Slots.{
  release_first-IsUnique, held-release_first, set_slot-IsUnique, IsSlot, find_available-IsSlot,
  held-set_slot, held,
}

unfoldable pub held_at : ℕ → RouteOverrideTable → Option RouteOverride
unfolding held
held_at position table = elim table.overrides [
  | none ↦ none
  | some overrides ↦ held position overrides
]

-- Every override is held, at another position.
abbrev pub IsFull : ℕ → List RouteOverride → Type 0
IsFull position [] = Unit
IsFull position (candidate ∷ rest) =
    (candidate.active ≡ true) × (candidate.position ≢ position) × IsFull position rest

abbrev pub IsFullTable : ℕ → RouteOverrideTable → Type 0
IsFullTable position table = elim table.overrides [
  | none ↦ ⊥
  | some overrides ↦ IsFull position overrides
]

first_available-none :
    (active : Bool) (available : Option ℕ) (start : ℕ)
    → first_available active available start ≡ none
    → (active ≡ true) × (available ≡ none)
first_available-none true none start e = (refl, refl)
first_available-none false none start e = cc
first_available-none active (some a) start e = cc

apart :
    (position : ℕ) (candidate : RouteOverride)
    → candidate.active ≡ true
    → is_held_at position candidate ≡ false
    → candidate.position ≢ position
apart position candidate a differs e = ground arith

some_is_not_none {ℓ} : {A : Type ℓ} {a : A} → some a ≡ none → ⊥
some_is_not_none e = cc

find_available-none :
    (position start : ℕ) (available : Option ℕ) (os : List RouteOverride)
    → find_available position start available os ≡ none
    → IsFull position os × (available ≡ none)
unfolding find_available
find_available-none position start available [] e = (tt, e)
find_available-none position start available (candidate ∷ rest) e =
    elim (Bool-cases (is_held_at position candidate)) [
      | inl match ↦ absurd (some_is_not_none (sym (if_true _ _ match) ∙ e))
      | inr differs ↦
          let (full, a) =
            find_available-none position (suc start) _ rest (sym (if_false _ _ differs) ∙ e) in
          let (held_now, none_yet) = first_available-none candidate.active available start a in
          ((held_now, apart position candidate held_now differs, full), none_yet)
    ]

abbrev new_override : ℕ → ℕ → ℕ → RouteOverride
new_override position pipeline_index order = record {
  position = position;
  pipeline_index = pipeline_index;
  order = order;
  active = true;
}

-- What is left by a press: the table of a map that holds the new override at its position and the
-- others as before, the new one selected; or the same table, if all its places are held at other
-- positions.
abbrev pub IsPressed : RouteOverrideTable → ℕ → ℕ → RouteOverrideTable × Status → Type 0
IsPressed table position pipeline_index (table', ok n) =
    IsTable table'
    × (route_override_selected table' ≡ some pipeline_index)
    × (held_at position table' ≡ some (new_override position pipeline_index (table.next_order + 1)))
    × ((q : ℕ) → position ≢ q → held_at q table' ≡ held_at q table)
IsPressed table position pipeline_index (table', err e) =
    (e ≡ enospc) × (table' ≡ table) × IsFullTable position table

abbrev table_of : Option (List RouteOverride) → ℕ → RouteOverrideTable
table_of overrides next_order = record { overrides = overrides; next_order = next_order }

press_at :
    (os : List RouteOverride) (next_order position pipeline_index index : ℕ)
    → IsSlot position os index
    → IsTableOf (some os) next_order
    → IsPressed (table_of (some os) next_order) position pipeline_index (
      table_of
          (some (set os index (new_override position pipeline_index (next_order + 1))))
          (next_order + 1),
      success,
    )
unfolding route_override_selected held_at
press_at os next_order position pipeline_index index s h =
    let new = new_override position pipeline_index (next_order + 1) in
    (
      (
        set_slot-IsUnique os index new s refl h.0,
        set-AllWithin os index next_order new h.1 (omega arith),
      ),
      rw
          (
            route_override_selected,
            newest-set os index next_order new none s refl h.1 (omega arith) tt,
          )
          refl,
      held-set_slot os index new position s refl
          ∙ if_true
              {b = (new_override position pipeline_index (next_order + 1)).position == position} _ _
              (ground arith),
      λ q differs.
          held-set_slot os index new q s refl
          ∙ if_false {b = (new_override position pipeline_index (next_order + 1)).position == q} _ _
              (ground arith),
    )

press_of :
    (o : Option (List RouteOverride)) (next_order position pipeline_index : ℕ)
    → IsTableOf o next_order
    → next_order + 1 < 2 ^ 64
    → IsPressed
        (table_of o next_order)
        position
        pipeline_index
        (route_override_press (table_of o next_order) position pipeline_index)
unfolding route_override_press route_override_selected held_at
press_of none next_order position pipeline_index h l = absurd h
press_of (some os) next_order position pipeline_index h l =
    elim (Option-cases (find_available position 0 none os)) [
      | inl e ↦
          rw (e, route_override_press) (refl, refl, (find_available-none position 0 none os e).0)
      | inr (index, e) ↦ elim (find_available-IsSlot position 0 none os e) [
        | inl (e', unheld) ↦ absurd (some_is_not_none (sym e'))
        | inr (j, e', slot) ↦
            let counted : (next_order + 1) % 2 ^ 64 ≡ next_order + 1 = omega arith in
            let same : j ≡ index = omega arith in
            rw (e, route_override_press, counted)
              (press_at os next_order position pipeline_index index
                (subst (IsSlot position os) same slot) h)
      ]
    ]

-- A press of a well-formed table whose counter is not exhausted either succeeds, and then the table is
-- well formed, the pressed route is selected and held at its position, and every other position is as
-- before; or it fails with ENOSPC, and then the table is the same and all its places are held at other
-- positions.
pub press-selects :
    (table : RouteOverrideTable) (position pipeline_index : ℕ)
    → IsTable table
    → table.next_order + 1 < 2 ^ 64
    → IsPressed table position pipeline_index (route_override_press table position pipeline_index)
press-selects table position pipeline_index h l =
    press_of table.overrides table.next_order position pipeline_index h l

release_first-AllWithin :
    (os : List RouteOverride) (position order : ℕ)
    → AllWithin order os
    → AllWithin order (release_first position os)
unfolding release_first
release_first-AllWithin [] position order h = h
release_first-AllWithin (candidate ∷ rest) position order h =
    ground (arith, h.0, h.1, release_first-AllWithin rest position order h.1)

release_of :
    (o : Option (List RouteOverride)) (next_order position : ℕ)
    → IsTableOf o next_order
    → let (table', ret) = route_override_release (table_of o next_order) position in
      (ret ≡ success)
      × IsTable table'
      × ((q : ℕ)
          → held_at q table' ≡ (if q == position then none else held_at q (table_of o next_order)))
unfolding route_override_release held_at
release_of none next_order position h = absurd h
release_of (some os) next_order position h = (
  refl,
  (release_first-IsUnique os position h.0, release_first-AllWithin os position next_order h.1),
  λ q. held-release_first os position q h.0,
)

-- A release of a well-formed table succeeds, keeps it well formed, and takes away what is held at the
-- position and nothing else.
pub release-frees :
    (table : RouteOverrideTable) (position : ℕ)
    → IsTable table
    → let (table', ret) = route_override_release table position in
      (ret ≡ success)
      × IsTable table'
      × ((q : ℕ) → held_at q table' ≡ (if q == position then none else held_at q table))
release-frees table position h = release_of table.overrides table.next_order position h

selected_of :
    (o : Option (List RouteOverride)) (next_order : ℕ) {pipeline_index : ℕ}
    → IsTableOf o next_order
    → route_override_selected (table_of o next_order) ≡ some pipeline_index
    → (top : RouteOverride) × (top.pipeline_index ≡ pipeline_index)
      × (held_at top.position (table_of o next_order) ≡ some top)
      × ((q : ℕ) (older : RouteOverride)
          → held_at q (table_of o next_order) ≡ some older
          → older.order ≤ top.order)
unfolding route_override_selected held_at
selected_of none next_order h e = absurd h
selected_of (some os) next_order h e = elim (Option-cases (newest none os)) [
  | inl k ↦ absurd (ground arith)
  | inr (top, k) ↦
      let (found, at_least, all) = newest-top os none h.0 k in
      (top, ground arith, elim found [ inl e ↦ cc | inr e ↦ e ], all)
]

-- In a well-formed table, the route that is selected is that of a held override, and no held override is newer.
pub selected-IsNewest :
    (table : RouteOverrideTable) {pipeline_index : ℕ}
    → IsTable table
    → route_override_selected table ≡ some pipeline_index
    → (top : RouteOverride) × (top.pipeline_index ≡ pipeline_index)
      × (held_at top.position table ≡ some top)
      × ((q : ℕ) (older : RouteOverride) → held_at q table ≡ some older → older.order ≤ top.order)
selected-IsNewest table h e = selected_of table.overrides table.next_order h e
