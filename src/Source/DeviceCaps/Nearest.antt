-- ===== src/Source/DeviceCaps/Nearest.antt =====
-- The resolution that a sensor with a list of values takes.
use zmk_pointing_tools.Base.{
  ◌-◌, ltb→lt, Errno, false, true, ◌^◌, ◌<◌, if_true, Bool-cases, inr, if_false, subst, ltb, sym,
  ◌==◌, refl, [], List, inl, arith, ℕ, ◌≤◌, ◌≡◌, ◌⊎◌, ◌∷◌,
}
use zmk_pointing_tools.Source.DeviceCaps.{
  validate_discrete, CpiCapabilities, cpi_validate, search_nearest, distance,
}

abbrev pub IsAmong : ℕ → List ℕ → Type 0
IsAmong x [] = ⊥
IsAmong x (value ∷ rest) = (x ≡ value) ⊎ IsAmong x rest

abbrev pub NoneNearer : ℕ → ℕ → List ℕ → Type 0
NoneNearer requested effective [] = Unit
NoneNearer requested effective (value ∷ rest) =
    (distance effective requested ≤ distance value requested) × NoneNearer requested effective rest

-- A search's answer for the values, from a best one so far.
abbrev pub IsNearest : ℕ → ℕ → List ℕ → ℕ × ℕ → Type 0
IsNearest requested best values (effective, status) =
    ((effective ≡ best) ⊎ IsAmong effective values)
    × (distance effective requested ≤ distance best requested)
    × NoneNearer requested effective values

NoneNearer-self : (requested : ℕ) (values : List ℕ) → NoneNearer requested requested values
NoneNearer-self requested [] = tt
NoneNearer-self requested (value ∷ rest) = (ground arith, NoneNearer-self requested rest)

not_ltb-le : (a b : ℕ) → ltb a b ≡ false → b ≤ a
not_ltb-le a b h = ground arith

search-IsNearest :
    (requested best best_distance : ℕ) (values : List ℕ)
    → distance best requested ≡ best_distance
    → IsNearest requested best values (search_nearest requested best best_distance values)
unfolding search_nearest
search-IsNearest requested best best_distance [] l = (inl refl, omega arith, tt)
search-IsNearest requested best best_distance (value ∷ rest) l =
    elim (Bool-cases (value == requested)) [
      | inl same ↦
          subst (IsNearest requested best (value ∷ rest)) (sym (if_true _ _ same))
            (inr (inl (ground arith)), ground arith, (ground arith, NoneNearer-self requested rest))
      | inr differs ↦
          subst (IsNearest requested best (value ∷ rest)) (sym (if_false _ _ differs))
            (elim (Bool-cases (ltb (distance value requested) best_distance)) [
              | inl nearer ↦
                  let (among, le, all) =
                    search-IsNearest requested value (distance value requested) rest refl in
                  subst (IsNearest requested best (value ∷ rest)) (sym (if_true _ _ nearer)) (
                    inr among,
                    omega (arith, ltb→lt (distance value requested) best_distance nearer),
                    (le, all),
                  )
              | inr farther ↦
                  let (among, le, all) = search-IsNearest requested best best_distance rest l in
                  subst (IsNearest requested best (value ∷ rest)) (sym (if_false _ _ farther)) (
                    elim among [ inl e ↦ inl e | inr later ↦ inr (inr later) ],
                    le,
                    (
                      omega (arith, not_ltb-le (distance value requested) best_distance farther),
                      all,
                    ),
                  )
            ])
    ]

-- The answer is a value of the list, and none of the list is nearer to the request.
abbrev pub IsNearestOf : List ℕ → ℕ → Errno ⊎ (ℕ × ℕ) → Type 0
IsNearestOf values requested (inl e) = ⊥
IsNearestOf values requested (inr (effective, status)) =
    IsAmong effective values × NoneNearer requested effective values

of_rest :
    (requested first : ℕ) (rest : List ℕ) (x : ℕ × ℕ)
    → IsNearest requested first rest x
    → IsNearestOf (first ∷ rest) requested (inr x)
of_rest requested first rest (effective, status) (among, le, all) = (among, (le, all))

first_step :
    (requested first : ℕ) (rest : List ℕ)
    → first < 2 ^ 16
    → requested < 2 ^ 16
    → IsNearestOf
        (first ∷ rest)
        requested
        (inr (search_nearest requested first (2 ^ 16 - 1) (first ∷ rest)))
unfolding search_nearest
first_step requested first rest bound bound' = elim (Bool-cases (first == requested)) [
  | inl same ↦
      subst (λ x. IsNearestOf (first ∷ rest) requested (inr x)) (sym (if_true _ _ same))
        (inl (ground arith), (ground arith, NoneNearer-self requested rest))
  | inr differs ↦
      subst (λ x. IsNearestOf (first ∷ rest) requested (inr x)) (sym (if_false _ _ differs))
        (elim (Bool-cases (ltb (distance first requested) (2 ^ 16 - 1))) [
          | inl nearer ↦
              subst (λ x. IsNearestOf (first ∷ rest) requested (inr x)) (sym (if_true _ _ nearer))
                (of_rest requested first rest
                  (search_nearest requested first (distance first requested) rest)
                  (search-IsNearest requested first (distance first requested) rest refl))
          | inr farthest ↦
              subst (λ x. IsNearestOf (first ∷ rest) requested (inr x))
                (sym (if_false _ _ farthest))
                (of_rest requested first rest (search_nearest requested first (2 ^ 16 - 1) rest)
                  (search-IsNearest requested first (2 ^ 16 - 1) rest (ground arith)))
        ])
]

-- A sensor with a list of values takes one of them, and none is nearer to the request.
pub list-IsNearest :
    (caps : CpiCapabilities) (requested first : ℕ) (rest : List ℕ)
    → caps.settable ≡ true
    → caps.discrete ≡ true
    → caps.list_values ≡ first ∷ rest
    → first < 2 ^ 16
    → requested < 2 ^ 16
    → IsNearestOf caps.list_values requested (cpi_validate caps requested)
unfolding cpi_validate search_nearest
list-IsNearest caps requested first rest settable discrete values bound bound' =
    rw (settable, discrete, values, cpi_validate, validate_discrete)
      (first_step requested first rest bound bound')
