-- ===== src/Core/RouteOverride/Newest.antt =====
-- The newest of the held overrides is the selected one.
use zmk_pointing_tools.Base.{
  ap, some_inj, ◌∙◌, inl, sym, subst, if_false, Bool-cases, if_true, inr, if◌then◌else◌, ◌⊎◌, ℕ,
  Option, some, none, suc, set, zero, [], false, List, refl, arith, true, ◌≤◌, ◌<◌, ◌≡◌, ◌∷◌,
}
use zmk_pointing_tools.Core.RouteOverride.{
  is_held_at, is_newer, RouteOverride, RouteOverrideTable, newest,
}
use zmk_pointing_tools.Core.RouteOverride.Slots.{held, IsUnique, IsSlot}

-- Every held override is no newer than the order.
abbrev pub AllWithin : ℕ → List RouteOverride → Type 0
AllWithin order [] = Unit
AllWithin order (candidate ∷ rest) =
    (candidate.active ≡ true → candidate.order ≤ order) × AllWithin order rest

abbrev pub IsOlder : ℕ → Option RouteOverride → Type 0
IsOlder order none = Unit
IsOlder order (some selected) = selected.order ≤ order

abbrev pub IsTableOf : Option (List RouteOverride) → ℕ → Type 0
IsTableOf none next_order = ⊥
IsTableOf (some overrides) next_order = IsUnique overrides × AllWithin next_order overrides

-- A table between two calls: there are overrides, no position is held twice, and every held one has
-- been counted.
abbrev pub IsTable : RouteOverrideTable → Type 0
IsTable table = IsTableOf table.overrides table.next_order

newest_stays :
    (os : List RouteOverride) (order : ℕ) (top : RouteOverride)
    → AllWithin order os
    → order < top.order
    → newest (some top) os ≡ some top
unfolding newest
newest_stays [] order top h l = refl
newest_stays (candidate ∷ rest) order top h l =
    ground (arith, newest_stays rest order top h.1 l, h.0)

pub newest-set :
    (os : List RouteOverride) (index order : ℕ) (top : RouteOverride)
    (selected : Option RouteOverride)
    → IsSlot top.position os index
    → top.active ≡ true
    → AllWithin order os
    → order < top.order
    → IsOlder order selected
    → newest selected (set os index top) ≡ some top
unfolding newest
newest-set [] index order top selected s a h l o = absurd s
newest-set (candidate ∷ rest) zero order top selected s a h l o =
    subst (λ first. newest first rest ≡ some top) (sym (if_true _ _ (newer selected o)))
      (newest_stays rest order top h.1 l)
  where
    newer :
        (selected : Option RouteOverride) → IsOlder order selected → is_newer top selected ≡ true
    newer none o = a
    newer (some old) o = ground arith
newest-set (candidate ∷ rest) (suc index) order top selected s a h l o =
    newest-set rest index order top _ s.1 a h.1 l (older selected (Bool-cases candidate.active) o)
  where
    older :
        (selected : Option RouteOverride)
        → (candidate.active ≡ true) ⊎ (candidate.active ≡ false)
        → IsOlder order selected
        → IsOlder order (if is_newer candidate selected then some candidate else selected)
    older none (inl e) o = subst (IsOlder order) (sym (if_true _ _ e)) (h.0 e)
    older none (inr e) o = subst (IsOlder order) (sym (if_false _ _ e)) tt
    older (some old) c o = ground (arith, h.0)

widen_AllWithin :
    (os : List RouteOverride) {order order' : ℕ}
    → AllWithin order os
    → order ≤ order'
    → AllWithin order' os
widen_AllWithin [] h l = tt
widen_AllWithin (candidate ∷ rest) h l = (λ e. omega (arith, h.0 e), widen_AllWithin rest h.1 l)

pub set-AllWithin :
    (os : List RouteOverride) (index order : ℕ) (top : RouteOverride)
    → AllWithin order os
    → order ≤ top.order
    → AllWithin top.order (set os index top)
set-AllWithin [] index order top h l = tt
set-AllWithin (candidate ∷ rest) zero order top h l = (λ e. omega arith, widen_AllWithin rest h.1 l)
set-AllWithin (candidate ∷ rest) (suc index) order top h l =
    (λ e. omega (arith, h.0 e), set-AllWithin rest index order top h.1 l)

-- The override is at least as new as the selected one.
abbrev pub IsAtLeast : Option RouteOverride → RouteOverride → Type 0
IsAtLeast none top = Unit
IsAtLeast (some selected) top = selected.order ≤ top.order

held_self :
    (candidate : RouteOverride) (rest : List RouteOverride) {top : RouteOverride}
    → candidate ≡ top
    → candidate.active ≡ true
    → held top.position (candidate ∷ rest) ≡ some top
unfolding held
held_self candidate rest same a =
    subst (λ top. held top.position (candidate ∷ rest) ≡ some top) same
      (if_true {b = is_held_at candidate.position candidate} _ _ (ground arith))

held-tail :
    (candidate : RouteOverride) (rest : List RouteOverride) {top : RouteOverride}
    → (candidate.active ≡ true → held candidate.position rest ≡ none)
    → held top.position rest ≡ some top
    → held top.position (candidate ∷ rest) ≡ some top
unfolding held
held-tail candidate rest {top} u e = ground (arith, u)

held-cases :
    (candidate : RouteOverride) (rest : List RouteOverride) (q : ℕ) {o : RouteOverride}
    → held q (candidate ∷ rest) ≡ some o
    → ((candidate ≡ o) × (candidate.active ≡ true)) ⊎ (held q rest ≡ some o)
unfolding held
held-cases candidate rest q e = elim (Bool-cases (is_held_at q candidate)) [
  | inl match ↦ inl (some_inj (sym (if_true _ _ match) ∙ e), ground arith)
  | inr differs ↦ inr (sym (if_false _ _ differs) ∙ e)
]

newer_active :
    (candidate : RouteOverride) (selected : Option RouteOverride)
    → is_newer candidate selected ≡ true
    → candidate.active ≡ true
newer_active candidate none e = e
newer_active candidate (some old) e = ground arith

newer_IsAtLeast :
    (candidate : RouteOverride) (selected : Option RouteOverride) (top : RouteOverride)
    → is_newer candidate selected ≡ true
    → candidate.order ≤ top.order
    → IsAtLeast selected top
newer_IsAtLeast candidate none top e l = tt
newer_IsAtLeast candidate (some old) top e l = ground arith

not_newer-le :
    (candidate : RouteOverride) (selected : Option RouteOverride) (top : RouteOverride)
    → candidate.active ≡ true
    → is_newer candidate selected ≡ false
    → IsAtLeast selected top
    → candidate.order ≤ top.order
not_newer-le candidate none top a e l = cc
not_newer-le candidate (some old) top a e l = ground arith

-- What the search for the newest finds is held, or was found before it, and nothing held is newer.
pub newest-top :
    (os : List RouteOverride) (selected : Option RouteOverride) {top : RouteOverride}
    → IsUnique os
    → newest selected os ≡ some top
    → ((selected ≡ some top) ⊎ (held top.position os ≡ some top))
      × IsAtLeast selected top
      × ((q : ℕ) (o : RouteOverride) → held q os ≡ some o → o.order ≤ top.order)
unfolding newest held
newest-top [] selected {top} u e =
    (inl e, subst (λ s. IsAtLeast s top) (sym e) (omega arith), λ q o k. cc)
newest-top (candidate ∷ rest) selected {top} u e = elim (Bool-cases (is_newer candidate selected)) [
  | inl newer ↦
      let (found, at_least, all) =
        newest-top rest (some candidate) u.1
          (sym (ap (λ s. newest s rest) (if_true _ _ newer)) ∙ e) in
      (
        inr (elim found [
          | inl same ↦
              held_self candidate rest (some_inj same) (newer_active candidate selected newer)
          | inr later ↦ held-tail candidate rest u.0 later
        ]),
        newer_IsAtLeast candidate selected top newer at_least,
        λ q o k. elim (held-cases candidate rest q k) [
          | inl (same, a) ↦ subst (λ c. c.order ≤ top.order) same at_least
          | inr later ↦ all q o later
        ],
      )
  | inr differs ↦
      let (found, at_least, all) =
        newest-top rest selected u.1 (sym (ap (λ s. newest s rest) (if_false _ _ differs)) ∙ e) in
      (
        elim found [ inl same ↦ inl same | inr later ↦ inr (held-tail candidate rest u.0 later) ],
        at_least,
        λ q o k. elim (held-cases candidate rest q k) [
          | inl (same, a) ↦
              subst (λ c. c.order ≤ top.order) same
                (not_newer-le candidate selected top a differs at_least)
          | inr later ↦ all q o later
        ],
      )
]
