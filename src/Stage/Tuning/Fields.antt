-- ===== src/Stage/Tuning/Fields.antt =====
-- The rows and the switches of src/stage/stage_tuning.c. The cases of a switch are numbered from 0 in
-- order: they are a list of fields, each with what its case of `get` reads and its case of `put` writes.
use Prim.Native.String.{String}
use zmk_pointing_tools.Base.{
  enoent, not, Errno, some, set, none, inl, inr, get_elem?, List, if◌then◌else◌, ◌⊎◌, ℕ, Bool,
}
use zmk_pointing_tools.Base.Int.{pos, eqb_ℤ, ℤ}
use zmk_pointing_tools.Service.Tuning.{boolean, TuningParameter, integer}
use zmk_pointing_tools.Stage.Tuning.Units.{
  fixed_per_millimeter_to_per_meter, micrometers_to_fixed_millimeters,
  per_meter_to_fixed_per_millimeter, to_uint16, fixed_millimeters_to_micrometers,
}

-- A row of a table, with step 1.
abbrev pub integer_parameter :
    ℕ
    → (key property : String) → (minimum maximum : ℕ) → (label unit description : String)
    → TuningParameter
integer_parameter id key property minimum maximum label unit description = record {
  id = id;
  value_type = integer;
  key = key;
  devicetree_property = property;
  minimum = pos minimum;
  maximum = pos maximum;
  step = 1;
  label = label;
  unit = unit;
  description = description;
}

abbrev pub boolean_parameter : ℕ → (key property label unit description : String) → TuningParameter
boolean_parameter id key property label unit description =
    record (integer_parameter id key property 0 1 label unit description) { value_type = boolean }

pub record Field (C : Type 0) : Type 0 where
  pub read : C → ℤ
  pub write : C → ℤ → C

module _ {C : Type 0} where
  abbrev pub uint16_field : (C → ℕ) → (C → ℕ → C) → Field C
  uint16_field get set = record {
    read = λ config. pos (get config);
    write = λ config value. set config (to_uint16 value);
  }

  abbrev pub boolean_field : (C → Bool) → (C → Bool → C) → Field C
  boolean_field get set = record {
    read = λ config. if get config then pos 1 else pos 0;
    write = λ config value. set config (not (eqb_ℤ value (pos 0)));
  }

  abbrev pub distance_field : (C → ℤ) → (C → ℤ → C) → Field C
  distance_field get set = record {
    read = λ config. fixed_millimeters_to_micrometers (get config);
    write = λ config value. set config (micrometers_to_fixed_millimeters value);
  }

  abbrev pub per_meter_field : (C → ℤ) → (C → ℤ → C) → Field C
  per_meter_field get set = record {
    read = λ config. fixed_per_millimeter_to_per_meter (get config);
    write = λ config value. set config (per_meter_to_fixed_per_millimeter value);
  }

  unfoldable pub field_get : List (Field C) → C → ℕ → Errno ⊎ ℤ
  field_get fields config parameter_id = elim (get_elem? fields parameter_id) [
    | none ↦ inl enoent
    | some f ↦ inr (f.read config)
  ]

  unfoldable pub field_put : List (Field C) → C → ℕ → ℤ → Errno ⊎ C
  field_put fields config parameter_id value = elim (get_elem? fields parameter_id) [
    | none ↦ inl enoent
    | some f ↦ inr (f.write config value)
  ]
