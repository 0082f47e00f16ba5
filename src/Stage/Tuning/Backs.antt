-- ===== src/Stage/Tuning/Backs.antt =====
-- What the fields of Stage/Tuning/Fields store within the limits of their parameters reads back.
use native.Mathlib.Nat.{mod-eq_of_lt}
use zmk_pointing_tools.Base.{
  if_true, none, Option, ==_iff, inl, inr, if_false, Bool-cases, ◌==◌, refl, zero, get_elem?, true,
  suc, false, ltb→ge, ||-false, sym, ap, List, not, &&-true, arith, subst, not-true, [], some,
  if◌then◌else◌, ◌+◌, ◌^◌, ◌≤◌, ◌<◌, ◌≡◌, ◌∙◌, ◌&&◌, ◌||◌, ◌∷◌, ℕ, Bool,
}
use zmk_pointing_tools.Base.Int.{negsuc, eqb_ℤ, pos, ltb_ℤ, ℤ}
use zmk_pointing_tools.Service.Tuning.{TuningParameter, tuning_parameter_get, value_in_range}
use zmk_pointing_tools.Stage.Tuning.Fields.{
  per_meter_field, Field, boolean_field, uint16_field, distance_field,
}
use zmk_pointing_tools.Stage.Tuning.Units.{
  per_meter_to_fixed_per_millimeter, per_meter_back, micrometers_back, to_uint16,
  fixed_per_millimeter_to_per_meter, fixed_millimeters_to_micrometers,
  micrometers_to_fixed_millimeters,
}

number_in_range :
    (p : TuningParameter) (value : ℤ) (lo hi : ℕ)
    → p.minimum ≡ pos lo
    → p.maximum ≡ pos hi
    → value_in_range p value ≡ true
    → (n : ℕ) × (value ≡ pos n) × (n ≤ hi)
unfolding value_in_range
number_in_range p value lo hi e e' h =
    let (low, high) = limits p.minimum p.maximum value _ _ h in
    number value (subst (λ m. ltb_ℤ value m ≡ false) e low)
      (subst (λ m. ltb_ℤ m value ≡ false) e' high)
  where
    limits :
        (a b value : ℤ) (off wrong : Bool)
        → (not (ltb_ℤ value a || ltb_ℤ b value || off) && wrong) ≡ true
        → (ltb_ℤ value a ≡ false) × (ltb_ℤ b value ≡ false)
    limits a b value off wrong h =
        ||-false (ltb_ℤ value a) (ltb_ℤ b value)
          (||-false (ltb_ℤ value a || ltb_ℤ b value) off (not-true _ (&&-true _ wrong h).0)).0

    number :
        (value : ℤ)
        → ltb_ℤ value (pos lo) ≡ false
        → ltb_ℤ (pos hi) value ≡ false
        → (n : ℕ) × (value ≡ pos n) × (n ≤ hi)
    number (pos n) low high = (n, refl, omega (arith, ltb→ge _ _ high))
    number (negsuc n) low high = absurd (omega (arith, ltb→ge _ _ low))

bit_of_range :
    (p : TuningParameter) (value : ℤ)
    → p.minimum ≡ pos 0
    → p.maximum ≡ pos 1
    → value_in_range p value ≡ true
    → (if not (eqb_ℤ value (pos 0)) then pos 1 else pos 0) ≡ value
bit_of_range p value e e' h =
    let (n, same, small) = number_in_range p value 0 1 e e' h in
    subst (λ v. (if not (eqb_ℤ v (pos 0)) then pos 1 else pos 0) ≡ v) (sym same) (bit n small)
  where
    bit : (n : ℕ) → n ≤ 1 → (if not (eqb_ℤ (pos n) (pos 0)) then pos 1 else pos 0) ≡ pos n
    bit zero h = refl
    bit (suc zero) h = refl
    bit (suc (suc n)) h = absurd (omega arith)

not_first : (i k : ℕ) (q : TuningParameter) → q.id ≡ i → (q.id == i + suc k) ≡ false
not_first i k q e = elim (Bool-cases (q.id == i + suc k)) [
  | inl h ↦ absurd (omega (arith, (==_iff q.id (i + suc k)).0 h))
  | inr h ↦ h
]

module _ {C : Type 0} where
  abbrev pub IsBack : TuningParameter → Field C → Type 0
  IsBack p f =
      (config : C) (value : ℤ)
      → value_in_range p value ≡ true
      → f.read (f.write config value) ≡ value

  pub uint16_field-IsBack :
      (get : C → ℕ) (set : C → ℕ → C) (p : TuningParameter) (lo hi : ℕ)
      → ((config : C) (x : ℕ) → get (set config x) ≡ x)
      → p.minimum ≡ pos lo
      → p.maximum ≡ pos hi
      → hi < 2 ^ 16
      → IsBack p (uint16_field get set)
  uint16_field-IsBack get set p lo hi law e e' small config value h =
      let (n, same, bound) = number_in_range p value lo hi e e' h in
      ap pos (law config (to_uint16 value))
      ∙ subst (λ v. pos (to_uint16 v) ≡ v) (sym same) (ap pos (mod-eq_of_lt (omega arith)))

  pub boolean_field-IsBack :
      (get : C → Bool) (set : C → Bool → C) (p : TuningParameter)
      → ((config : C) (x : Bool) → get (set config x) ≡ x)
      → p.minimum ≡ pos 0
      → p.maximum ≡ pos 1
      → IsBack p (boolean_field get set)
  boolean_field-IsBack get set p law e e' config value h =
      ap (λ b. if b then pos 1 else pos 0) (law config (not (eqb_ℤ value (pos 0))))
      ∙ bit_of_range p value e e' h

  pub distance_field-IsBack :
      (get : C → ℤ) (set : C → ℤ → C) (p : TuningParameter) (lo hi : ℕ)
      → ((config : C) (x : ℤ) → get (set config x) ≡ x)
      → p.minimum ≡ pos lo
      → p.maximum ≡ pos hi
      → hi < 2 ^ 31
      → IsBack p (distance_field get set)
  distance_field-IsBack get set p lo hi law e e' small config value h =
      let (n, same, bound) = number_in_range p value lo hi e e' h in
      ap fixed_millimeters_to_micrometers (law config (micrometers_to_fixed_millimeters value))
      ∙ subst (λ v. fixed_millimeters_to_micrometers (micrometers_to_fixed_millimeters v) ≡ v)
          (sym same) (micrometers_back n (omega arith))

  pub per_meter_field-IsBack :
      (get : C → ℤ) (set : C → ℤ → C) (p : TuningParameter) (lo hi : ℕ)
      → ((config : C) (x : ℤ) → get (set config x) ≡ x)
      → p.minimum ≡ pos lo
      → p.maximum ≡ pos hi
      → hi < 2 ^ 31
      → IsBack p (per_meter_field get set)
  per_meter_field-IsBack get set p lo hi law e e' small config value h =
      let (n, same, bound) = number_in_range p value lo hi e e' h in
      ap fixed_per_millimeter_to_per_meter (law config (per_meter_to_fixed_per_millimeter value))
      ∙ subst (λ v. fixed_per_millimeter_to_per_meter (per_meter_to_fixed_per_millimeter v) ≡ v)
          (sym same) (per_meter_back n (omega arith))

  -- A table from id `i` on, with a field for each of its rows.
  abbrev pub IsSwitch : ℕ → List TuningParameter → List (Field C) → Type 0
  IsSwitch i [] fields = Unit
  IsSwitch i (p ∷ rest) [] = ⊥
  IsSwitch i (p ∷ rest) (f ∷ fields) = (p.id ≡ i) × IsBack p f × IsSwitch (suc i) rest fields

  pub IsSwitch-field :
      (i k : ℕ) (parameters : List TuningParameter) (fields : List (Field C)) (p : TuningParameter)
      → IsSwitch i parameters fields
      → tuning_parameter_get parameters (i + k) ≡ some p
      → (f : Field C) × (get_elem? fields k ≡ some f) × IsBack p f
  unfolding tuning_parameter_get
  IsSwitch-field i k [] fields p t h = ground arith
  IsSwitch-field i k (q ∷ rest) [] p t h = absurd t
  IsSwitch-field i zero (q ∷ rest) (f ∷ fields) p (e, back, t) h = (
    f,
    refl,
    subst (λ (o : Option TuningParameter). elim o [ none ↦ Unit | some x ↦ IsBack x f ])
        (sym (
            if_true (some q) (tuning_parameter_get rest (i + 0))
              ((==_iff q.id (i + 0)).1 (e ∙ omega arith)))
          ∙ h)
        back,
  )
  IsSwitch-field i (suc k) (q ∷ rest) (f ∷ fields) p (e, back, t) h =
      IsSwitch-field (suc i) k rest fields p t (
        subst (λ j. tuning_parameter_get rest j ≡ some p) (omega arith)
          (sym (if_false (some q) (tuning_parameter_get rest (i + suc k)) (not_first i k q e)) ∙ h))
