-- ===== src/Core/RouteOverride/Slots.antt =====
-- The table of overrides as a map from held positions: what a press and a release change.
use zmk_pointing_tools.Base.{
  subst, some_inj, inr, Bool, if_true, if_false, Bool-cases, sym, ◌∙◌, List, refl, ℕ, suc, Option,
  none, zero, inl, [], arith, set, false, true, some, ◌==◌, if◌then◌else◌, ◌+◌, ◌≡◌, ◌⊎◌, ◌∷◌,
}
use zmk_pointing_tools.Core.RouteOverride.{
  release_first, first_available, is_held_at, find_available, RouteOverride,
}

-- The override that is held at a position.
unfoldable pub held : ℕ → List RouteOverride → Option RouteOverride
held position [] = none
held position (candidate ∷ rest) =
    let next = held position rest in if is_held_at position candidate then some candidate else next

-- No position is held twice.
abbrev pub IsUnique : List RouteOverride → Type 0
IsUnique [] = Unit
IsUnique (candidate ∷ rest) =
    (candidate.active ≡ true → held candidate.position rest ≡ none) × IsUnique rest

-- The place that a press at a position takes: its own, or the first unheld one.
abbrev pub IsSlot : ℕ → List RouteOverride → ℕ → Type 0
IsSlot position [] index = ⊥
IsSlot position (candidate ∷ rest) zero =
    (is_held_at position candidate ≡ true)
    ⊎ ((candidate.active ≡ false) × (held position rest ≡ none))
IsSlot position (candidate ∷ rest) (suc index) =
    (is_held_at position candidate ≡ false) × IsSlot position rest index

first_available-cases :
    (active : Bool) (available : Option ℕ) (start : ℕ) {index : ℕ}
    → first_available active available start ≡ some index
    → (available ≡ some index) ⊎ ((active ≡ false) × (index ≡ start))
first_available-cases true none start e = cc
first_available-cases false none start e = inr (refl, sym (some_inj e))
first_available-cases active (some a) start e = inl e

first_place :
    (position start : ℕ) (candidate : RouteOverride) (rest : List RouteOverride) {index : ℕ}
    → index ≡ start
    → IsSlot position (candidate ∷ rest) 0
    → ((j : ℕ) × (index ≡ start + j) × IsSlot position (candidate ∷ rest) j)
first_place position start candidate rest e s = (0, omega arith, s)

shift :
    (position start : ℕ) (candidate : RouteOverride) (rest : List RouteOverride) {index : ℕ}
    → is_held_at position candidate ≡ false
    → (j : ℕ) × (index ≡ suc start + j) × IsSlot position rest j
    → (j : ℕ) × (index ≡ start + j) × IsSlot position (candidate ∷ rest) j
shift position start candidate rest h (j, e, s) = (suc j, omega arith, (h, s))

pub find_available-IsSlot :
    (position start : ℕ) (available : Option ℕ) (os : List RouteOverride) {index : ℕ}
    → find_available position start available os ≡ some index
    → ((available ≡ some index) × (held position os ≡ none))
      ⊎ ((j : ℕ) × (index ≡ start + j) × IsSlot position os j)
unfolding find_available held
find_available-IsSlot position start available [] e = inl (e, refl)
find_available-IsSlot position start available (candidate ∷ rest) {index} e =
    elim (Bool-cases (is_held_at position candidate)) [
      | inl match ↦ inr (
          first_place position start candidate rest (some_inj (sym e ∙ if_true _ _ match))
            (inl match))
      | inr differs ↦
          let e' : find_available position (suc start)
                (first_available candidate.active available start) rest
              ≡ some index =
            sym (if_false _ _ differs) ∙ e in
          elim (find_available-IsSlot position (suc start) _ rest e') [
            | inr found ↦ inr (shift position start candidate rest differs found)
            | inl (a, unheld) ↦ elim (first_available-cases candidate.active available start a) [
              | inl same ↦ inl (same, if_false _ _ differs ∙ unheld)
              | inr (idle_now, e'') ↦
                  inr (first_place position start candidate rest e'' (inr (idle_now, unheld)))
            ]
          ]
    ]

pub held-set_slot :
    (os : List RouteOverride) (index : ℕ) (new : RouteOverride) (position : ℕ)
    → IsSlot new.position os index
    → new.active ≡ true
    → held position (set os index new)
      ≡ (if new.position == position then some new else held position os)
unfolding held
held-set_slot [] index new position s a = absurd s
held-set_slot (candidate ∷ rest) zero new position s a = elim s [
  | inl match ↦ ground arith
  | inr (idle_now, unheld) ↦ ground arith
]
held-set_slot (candidate ∷ rest) (suc index) new position s a =
    ground (arith, held-set_slot rest index new position s.1 a)

held_position :
    (candidate : RouteOverride) (position : ℕ)
    → is_held_at position candidate ≡ true
    → (candidate.active ≡ true) × (candidate.position ≡ position)
held_position candidate position match = ground arith

-- A press keeps every position held at most once.
pub set_slot-IsUnique :
    (os : List RouteOverride) (index : ℕ) (new : RouteOverride)
    → IsSlot new.position os index
    → new.active ≡ true
    → IsUnique os
    → IsUnique (set os index new)
set_slot-IsUnique [] index new s a u = u
set_slot-IsUnique (candidate ∷ rest) zero new s a u = elim s [
  | inl match ↦ (
    λ e.
        subst (λ q. held q rest ≡ none) (held_position candidate new.position match).1
          (u.0 (held_position candidate new.position match).0),
    u.1,
  )
  | inr (idle_now, unheld) ↦ (λ e. unheld, u.1)
]
set_slot-IsUnique (candidate ∷ rest) (suc index) new s a u = (
  λ e. ground (arith, held-set_slot rest index new candidate.position s.1 a, u.0 e),
  set_slot-IsUnique rest index new s.1 a u.1,
)

pub held-release_first :
    (os : List RouteOverride) (position other_position : ℕ)
    → IsUnique os
    → held other_position (release_first position os)
      ≡ (if other_position == position then none else held other_position os)
unfolding held release_first
held-release_first [] position other_position u = ground arith
held-release_first (candidate ∷ rest) position other_position u =
    ground (arith, held-release_first rest position other_position u.1)

pub release_first-IsUnique :
    (os : List RouteOverride) (position : ℕ) → IsUnique os → IsUnique (release_first position os)
unfolding release_first
release_first-IsUnique [] position u = u
release_first-IsUnique (candidate ∷ rest) position u =
    elim (Bool-cases (is_held_at position candidate)) [
      | inl match ↦ subst IsUnique (sym (if_true _ _ match)) ((λ e. cc), u.1)
      | inr differs ↦ subst IsUnique (sym (if_false _ _ differs)) (
        λ e. ground (arith, held-release_first rest position candidate.position u.1, u.0 e),
        release_first-IsUnique rest position u.1,
      )
    ]
