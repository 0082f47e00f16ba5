-- ===== src/Core/RouteOverride/Stack.antt =====
-- The table of overrides refines a stack of held keys: what is selected is the route of the key that was
-- pressed last and is still held.
use zmk_pointing_tools.Base.{
  Option-cases, ==_iff, if_true, some_inj, subst, if_false, false, sym, map, inr, none, some, refl,
  arith, if-elim, ap, Option, inl, List, suc, [], Bool-cases, ◌==◌, if◌then◌else◌, ◌≤◌, ◌<◌, ◌≡◌,
  ◌∙◌, ◌⊎◌, ◌∷◌, ℕ,
}
use zmk_pointing_tools.Core.RouteOverride.{
  route_override_selected, is_held_at, is_newer, RouteOverride, newest, RouteOverrideTable,
}
use zmk_pointing_tools.Core.RouteOverride.Newest.{IsTable}
use zmk_pointing_tools.Core.RouteOverride.Presses.{selected-IsNewest, held_at}
use zmk_pointing_tools.Core.RouteOverride.Slots.{held}

-- The abstract view: the held positions with their routes, the newest first.
abbrev pub HeldKeys : Type 0
HeldKeys = List (ℕ × ℕ)

unfoldable pub without_key : ℕ → HeldKeys → HeldKeys
without_key position [] = []
without_key position ((p, pipeline_index) ∷ rest) =
    let later = without_key position rest in
    if p == position then later else (p, pipeline_index) ∷ later

abbrev pub push_key : ℕ → ℕ → HeldKeys → HeldKeys
push_key position pipeline_index keys = (position, pipeline_index) ∷ without_key position keys

abbrev pub top_route : HeldKeys → Option ℕ
top_route [] = none
top_route ((position, pipeline_index) ∷ rest) = some pipeline_index

-- The same with the orders, for the relation with a table.
unfoldable pub find : ℕ → List RouteOverride → Option RouteOverride
find position [] = none
find position (o ∷ rest) =
    let later = find position rest in if o.position == position then some o else later

unfoldable pub remove : ℕ → List RouteOverride → List RouteOverride
remove position [] = []
remove position (o ∷ rest) =
    let later = remove position rest in if o.position == position then later else o ∷ later

abbrev pub forget : RouteOverride → ℕ × ℕ
forget o = (o.position, o.pipeline_index)

-- Orders fall from below a bound.
abbrev pub IsFalling : ℕ → List RouteOverride → Type 0
IsFalling bound [] = Unit
IsFalling bound (o ∷ rest) = (o.order < bound) × IsFalling o.order rest

abbrev pub IsRefined : RouteOverrideTable → HeldKeys → Type 0
IsRefined table keys =
    (os : List RouteOverride) × (map forget os ≡ keys)
    × IsTable table
    × IsFalling (suc table.next_order) os
    × ((q : ℕ) → held_at q table ≡ find q os)

pub widen_IsFalling : (os : List RouteOverride) (a b : ℕ) → a ≤ b → IsFalling a os → IsFalling b os
widen_IsFalling [] a b h f = tt
widen_IsFalling (o ∷ rest) a b h (l, f) = (omega arith, f)

pub remove-IsFalling :
    (os : List RouteOverride) (position bound : ℕ)
    → IsFalling bound os
    → IsFalling bound (remove position os)
unfolding remove
remove-IsFalling [] position bound f = tt
remove-IsFalling (o ∷ rest) position bound (l, f) =
    if-elim (IsFalling bound) (o.position == position) _ _
      (λ e.
        widen_IsFalling (remove position rest) o.order bound (omega arith)
          (remove-IsFalling rest position o.order f))
      (λ e. (l, remove-IsFalling rest position o.order f))

pub map-remove :
    (os : List RouteOverride) (position : ℕ)
    → map forget (remove position os) ≡ without_key position (map forget os)
unfolding remove without_key
map-remove [] position = refl
map-remove (o ∷ rest) position = elim (Bool-cases (o.position == position)) [
  | inl e ↦ rw e (map-remove rest position)
  | inr e ↦ rw e (ap (λ keys. forget o ∷ keys) (map-remove rest position))
]

pub find-remove :
    (os : List RouteOverride) (position q : ℕ)
    → find q (remove position os) ≡ (if q == position then none else find q os)
unfolding find remove
find-remove [] position q =
    if-elim (λ o. none ≡ o) (q == position) none none (λ e. refl) (λ e. refl)
find-remove (o ∷ rest) position q = elim (Bool-cases (o.position == position)) [
  | inl e ↦ rw e (find-remove rest position q ∙ ground arith)
  | inr e ↦ rw e (ground (arith, find-remove rest position q))
]

some_not_none {ℓ} : {A : Type ℓ} {a : A} → some a ≡ none → ⊥
some_not_none e = ground (arith, e)

find_below :
    (os : List RouteOverride) (bound q : ℕ) (t : RouteOverride)
    → IsFalling bound os
    → find q os ≡ some t
    → t.order < bound
unfolding find
find_below [] bound q t f h = absurd (some_not_none (sym h))
find_below (o ∷ rest) bound q t (l, f) h = elim (Bool-cases (o.position == q)) [
  | inl e ↦ subst (λ (x : RouteOverride). x.order < bound) (some_inj (sym (if_true _ _ e) ∙ h)) l
  | inr e ↦ omega (arith, find_below rest o.order q t f (sym (if_false _ _ e) ∙ h))
]

-- What is found is the first, or older than it.
find_order :
    (o : RouteOverride) (rest : List RouteOverride) (q : ℕ) (t : RouteOverride)
    → IsFalling o.order rest
    → find q (o ∷ rest) ≡ some t
    → (o ≡ t) ⊎ (t.order < o.order)
unfolding find
find_order o rest q t f h = elim (Bool-cases (o.position == q)) [
  | inl e ↦ inl (some_inj (sym (if_true _ _ e) ∙ h))
  | inr e ↦ inr (find_below rest o.order q t f (sym (if_false _ _ e) ∙ h))
]

find_self : (o : RouteOverride) (rest : List RouteOverride) → find o.position (o ∷ rest) ≡ some o
unfolding find
find_self o rest = if_true _ _ ((==_iff o.position o.position).1 refl)

idle_not_held :
    (candidate : RouteOverride) (q : ℕ) → candidate.active ≡ false → is_held_at q candidate ≡ false
idle_not_held candidate q h = ground arith

-- With nothing newest, nothing is held.
newest-none :
    (os : List RouteOverride) (selected : Option RouteOverride)
    → newest selected os ≡ none
    → (selected ≡ none) × ((q : ℕ) → held q os ≡ none)
unfolding newest held
newest-none [] selected h = (h, λ q. refl)
newest-none (candidate ∷ rest) selected h =
    let (e, all) =
      newest-none rest (if is_newer candidate selected then some candidate else selected) h in
    elim (Bool-cases (is_newer candidate selected)) [
      | inl newer ↦ absurd (some_not_none (sym (if_true _ _ newer) ∙ e))
      | inr differs ↦
          let same = sym (if_false _ _ differs) ∙ e in
          let idle : candidate.active ≡ false = sym (ap (is_newer candidate) same) ∙ differs in
          (same, λ q. if_false _ _ (idle_not_held candidate q idle) ∙ all q)
    ]

none_selected :
    (o : Option (List RouteOverride)) (next_order q : ℕ)
    → let table : RouteOverrideTable = record { overrides = o; next_order = next_order } in
      route_override_selected table ≡ none → held_at q table ≡ none
unfolding route_override_selected held_at
none_selected none next_order q h = refl
none_selected (some os) next_order q h = elim (Option-cases (newest none os)) [
  | inl k ↦ (newest-none os none k).1 q
  | inr (t, k) ↦ absurd (
      some_not_none (
        sym (
          ap (λ (x : Option RouteOverride). elim x [ none ↦ none | some s ↦ some s.pipeline_index ])
            k)
        ∙ h))
]

-- In a refined table the selected route is the top of the stack.
pub IsRefined-selected :
    (table : RouteOverrideTable) (keys : HeldKeys)
    → IsRefined table keys
    → route_override_selected table ≡ top_route keys
unfolding find
IsRefined-selected table keys (os, same, ok_table, falling, all) =
    elim (Option-cases (route_override_selected table)) [
      | inl none_now ↦
          none_now
          ∙ empty_of os
              (λ q. sym (all q) ∙ none_selected table.overrides table.next_order q none_now)
          ∙ ap top_route same
      | inr (i, now) ↦
          let (t, route, at, newest_of_all) = selected-IsNewest table ok_table now in
          now
          ∙ ap some (sym route)
          ∙ first_of (suc table.next_order) os t falling (sym (all t.position) ∙ at)
              (λ q o k. newest_of_all q o (all q ∙ k))
          ∙ ap top_route same
    ]
  where
    empty_of :
        (os : List RouteOverride) → ((q : ℕ) → find q os ≡ none) → none ≡ top_route (map forget os)
    empty_of [] h = refl
    empty_of (o ∷ rest) h = absurd (some_not_none (sym (find_self o rest) ∙ h o.position))

    first_of :
        (bound : ℕ) (os : List RouteOverride) (t : RouteOverride)
        → IsFalling bound os
        → find t.position os ≡ some t
        → ((q : ℕ) (o : RouteOverride) → find q os ≡ some o → o.order ≤ t.order)
        → some t.pipeline_index ≡ top_route (map forget os)
    first_of bound [] t f h k = absurd (some_not_none (sym h))
    first_of bound (o ∷ rest) t f h k = elim (find_order o rest t.position t f.1 h) [
      | inl e ↦ ap (λ (x : RouteOverride). some x.pipeline_index) (sym e)
      | inr l ↦ absurd (omega (arith, k o.position o (find_self o rest)))
    ]
