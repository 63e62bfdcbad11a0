-- ===== src/Examples/Index.antt =====
-- The theorems on fields and indexes, at a space with a number and a vector.
use vearch.Prelude.{String}
use vearch.Prelude.{List, [], ◌∷◌, ◌↔◌, none, some, ok, done, eq_iff, All, arith, ◌≡◌, ◌≢◌, refl}
use vearch.Prelude.{Nodup}
use vearch.Space.Model.{FieldType}
use vearch.Index.{
  Index, SpaceProperties, no_option, scalar_option, Props, validate_indexes, merge_field_indexes,
  is_vector, is_scalar_index_type, composite_index_type, field_index,
}
use mathlib.Core.List.{Permᴰ}
use vearch.Index.Checked.{IsIndex, validate_indexes_iff}
use vearch.Index.Fields.{
  Field, unmarshal_property_json, property_loop, property_of, properties_of, check_vector,
  check_store_type, check_format, option_of, scalar_option_of, check_field_name, is_index_seen,
  add_index_name, field_type_of,
}
use vearch.Index.Fields.Declared.{Stands, IsFieldName, index_names_of, unmarshal_property_json-done}
use vearch.Index.Merged.{indexes_of, unmarshal_property_json-merge_field_indexes}

abbrev pub age_index : Index
age_index = record {
  name = "by_age";
  type = "SCALAR";
  field_name = "age";
  field_names = [];
  params = "";
}

abbrev pub age : Field
age = record {
  name = "age";
  type = "integer";
  dimension = 0;
  store_type = none;
  format = none;
  index = some age_index;
}

abbrev pub face : Field
face = record {
  name = "face";
  type = "vector";
  dimension = 8;
  store_type = some "RocksDB";
  format = some "no";
  index = none;
}

abbrev pub two_fields : List Field
two_fields = age ∷ face ∷ []

abbrev age_entry : String × SpaceProperties
age_entry = (
  "age",
  record {
    field_type = FieldType.int;
    type = "integer";
    index = some age_index;
    format = none;
    dimension = 0;
    store_type = none;
    option = scalar_option;
  },
)

abbrev face_entry : String × SpaceProperties
face_entry = (
  "face",
  record {
    field_type = FieldType.vector;
    type = "vector";
    index = none;
    format = some "no";
    dimension = 8;
    store_type = some "RocksDB";
    option = no_option;
  },
)

abbrev pub two_properties : Props
two_properties = age_entry ∷ face_entry ∷ []

-- Another order in which Go may go over the map
abbrev other_order : Props
other_order = face_entry ∷ age_entry ∷ []

two_fields_declared : unmarshal_property_json two_fields ≡ done two_properties
unfolding unmarshal_property_json property_loop property_of properties_of check_vector
    check_store_type check_format option_of scalar_option_of check_field_name is_index_seen
    add_index_name field_type_of is_vector is_scalar_index_type
two_fields_declared = refl

validate_indexes_iff_example :
    (validate_indexes (age_index ∷ []) two_properties ≡ ok tt)
    ↔ (All (IsIndex two_properties) (age_index ∷ []) × Nodup ("by_age" ∷ []))
validate_indexes_iff_example = validate_indexes_iff (age_index ∷ []) two_properties

unmarshal_property_json-done_example :
    Stands two_fields two_properties
    × All (λ f. IsFieldName f.name) two_fields
    × Nodup ("age" ∷ "face" ∷ [])
    × Nodup (index_names_of two_fields)
unmarshal_property_json-done_example =
    unmarshal_property_json-done two_fields {props = two_properties} two_fields_declared

not_composite : age_index.type ≢ composite_index_type
not_composite h = absurd (ground (arith, eq_iff "SCALAR" "COMPOSITE"))

unmarshal_property_json-merge_field_indexes_example :
    (merge_field_indexes other_order two_properties [] ≡ ok (indexes_of other_order))
    × Permᴰ (indexes_of two_properties) (indexes_of other_order)
    × (validate_indexes (indexes_of other_order) two_properties ≡ ok tt)
unfolding field_index
unmarshal_property_json-merge_field_indexes_example =
    unmarshal_property_json-merge_field_indexes two_fields two_properties two_fields_declared
      (not_composite, (tt, tt)) (refl, tt) other_order (Permᴰ.swap refl refl)
