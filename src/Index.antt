-- ===== src/Index.antt =====
-- The indexes of a space and the properties of its fields: internal/entity/space.go.
pub mod Fields
pub mod Checked
pub mod Merged
pub mod Change
use vearch.Prelude.{
  ℕ, zero, suc, ◌+◌, ◌-◌, ◌*◌, ◌/◌, ◌%◌, ◌^◌, ◌≤◌, ◌<◌, String, List, [], ◌∷◌, ◌++◌, map, Bool,
  true, false, ◌&&◌, ◌||◌, not, Bool-cases, inl, inr, ◌⊎◌, ◌↔◌, Option, none, some, Option-cases,
  Result, ok, err, ErrorEnum, ◌>>=◌, ◌>>◌, fail_if, bind-ok, fail_if_iff, >>-iff, Result-cases,
  Outcome, done, failed, panic, out_of_fuel, and_then, if◌then◌else◌, has_str, has_num, filter_by,
  str_eq, eq_iff, eq_refl, ltb, leb, ◌==◌, ==_iff, get_elem?, get_elem?-lt, length, length-append,
  take, drop, All, key64, lt64, le64, mul64, sub64, add64, arith, ◌≡◌, ◌≢◌, refl, sym, ap, ◌∙◌,
}
use vearch.Prelude.Assoc.{lookup, insert, erase, lookup-insert, lookup-erase}
use mathlib.Core.Path.{subst}
use mathlib.Core.List.{append_assoc, append-nil}
use Prim.Native.String.{◌++◌ as text_append}
use vearch.Space.Model.{FieldType}

-- `params` is the JSON text of the parameters.
pub record Index : Type 0 where
  pub name : String
  pub type : String
  pub field_name : String
  pub field_names : List String
  pub params : String

-- vearchpb.FieldOption
pub data FieldOption : Type 0 where
  no_option index_option scalar_option inverted_option inverted_list_option bitmap_option
        composite_option :
      FieldOption

pub record SpaceProperties : Type 0 where
  pub field_type : FieldType
  pub type : String
  pub index : Option Index
  pub format : Option String
  pub dimension : ℕ
  pub store_type : Option String
  pub option : FieldOption

-- The properties of the fields, by name.
abbrev pub Props : Type 0
Props = List (String × SpaceProperties)

abbrev pub composite_index_type : String
composite_index_type = "COMPOSITE"

abbrev pub scalar_index_types : List String
scalar_index_types = "SCALAR" ∷ "INVERTED" ∷ "BITMAP" ∷ composite_index_type ∷ []

unfoldable pub is_scalar_index_type : String → Bool
is_scalar_index_type index_type = has_str index_type scalar_index_types

unfoldable pub is_vector : FieldType → Bool
is_vector FieldType.vector = true
is_vector FieldType.int = false
is_vector FieldType.long = false
is_vector FieldType.float = false
is_vector FieldType.double = false
is_vector FieldType.string = false
is_vector FieldType.bool = false
is_vector FieldType.date = false
is_vector FieldType.string_array = false

unfoldable pub make_auto_index_name : String → String → String
make_auto_index_name field_name index_type =
    text_append (text_append (text_append "__idx__" field_name) "_") index_type

-- The checks of one field of a composite index, with its entry in the map of properties.
unfoldable pub check_composite_field : Option SpaceProperties → Bool → Result (Unit {0})
check_composite_field none seen = err ErrorEnum.param_error
check_composite_field (some p) seen =
    fail_if (is_vector p.field_type) ErrorEnum.param_error >> fail_if seen ErrorEnum.param_error

-- The loop over idx.FieldNames, with the names seen.
unfoldable pub check_composite_fields : Props → List String → List String → Result (Unit {0})
check_composite_fields props seen [] = ok tt
check_composite_fields props seen (name ∷ names) =
    check_composite_field (lookup name props) (has_str name seen)
    >> check_composite_fields props (name ∷ seen) names

-- The match of the type of the field and the type of the index.
unfoldable pub check_single_field : Option SpaceProperties → String → Result (Unit {0})
check_single_field none type = err ErrorEnum.param_error
check_single_field (some p) type =
    if is_scalar_index_type type
    then fail_if (is_vector p.field_type) ErrorEnum.param_error
    else fail_if (not (is_vector p.field_type)) ErrorEnum.param_error

unfoldable pub is_composite : Index → Bool
is_composite idx = str_eq idx.type composite_index_type

unfoldable pub check_fields : Props → Index → Result (Unit {0})
check_fields props idx =
    if is_composite idx
    then fail_if (ltb (length idx.field_names) 2) ErrorEnum.param_error
      >> check_composite_fields props [] idx.field_names
    else fail_if (str_eq idx.field_name "") ErrorEnum.param_error
      >> check_single_field (lookup idx.field_name props) idx.type

-- The body of the loop of ValidateIndexes, with the names seen. An entry that is nil, which AddIndexes
-- refuses, is left out.
unfoldable pub check_index : Props → List String → Index → Result (Unit {0})
check_index props names idx =
    fail_if (str_eq idx.name "") ErrorEnum.param_error
    >> fail_if (has_str idx.name names) ErrorEnum.param_error
    >> fail_if (not (str_eq idx.field_name "") && ltb 0 (length idx.field_names))
        ErrorEnum.param_error
    >> check_fields props idx

unfoldable pub check_indexes : Props → List String → List Index → Result (Unit {0})
check_indexes props names [] = ok tt
check_indexes props names (idx ∷ indexes) =
    check_index props names idx >> check_indexes props (idx.name ∷ names) indexes

unfoldable pub validate_indexes : List Index → Props → Result (Unit {0})
validate_indexes indexes props = check_indexes props [] indexes

-- A field that some single-field index of the list has already
unfoldable pub is_indexed : String → List Index → Bool
is_indexed field_name [] = false
is_indexed field_name (idx ∷ indexes) =
    (str_eq field_name idx.field_name && not (is_composite idx)) || is_indexed field_name indexes

-- The index that MergeFieldIndexes makes of the one that a field carries.
unfoldable pub field_index : String → Index → Index
field_index field_name idx = record {
  name = if str_eq idx.name "" then make_auto_index_name field_name idx.type else idx.name;
  type = idx.type;
  field_name = field_name;
  field_names = [];
  params = idx.params;
}

unfoldable pub merge_field : String → Option Index → List Index → Result (List Index)
merge_field field_name none indexes = ok indexes
merge_field field_name (some idx) indexes =
    fail_if (is_composite idx) ErrorEnum.param_error
    >> fail_if (is_indexed field_name indexes) ErrorEnum.param_error
    >> ok (indexes ++ field_index field_name idx ∷ [])

-- The loop of MergeFieldIndexes over the map of properties.
unfoldable pub merge_fields_loop : Props → List Index → Result (List Index)
merge_fields_loop [] indexes = ok indexes
merge_fields_loop ((field_name, p) ∷ props) indexes =
    merge_field field_name p.index indexes >>= merge_fields_loop props

-- `visited` is the map in the order in which Go goes over it, which differs from run to run.
unfoldable pub merge_field_indexes : Props → Props → List Index → Result (List Index)
merge_field_indexes visited props indexes =
    merge_fields_loop visited indexes >>= λ merged. validate_indexes merged props >> ok merged
