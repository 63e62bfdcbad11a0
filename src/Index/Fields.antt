-- ===== src/Index/Fields.antt =====
-- The fields of a space as they are declared: UnmarshalPropertyJSON of internal/entity/space.go, after
-- the JSON text was decoded.
pub mod Declared
use vearch.Prelude.{
  ℕ, zero, suc, ◌+◌, ◌-◌, ◌*◌, ◌/◌, ◌%◌, ◌^◌, ◌≤◌, ◌<◌, String, List, [], ◌∷◌, ◌++◌, map, Bool,
  true, false, ◌&&◌, ◌||◌, not, Bool-cases, inl, inr, ◌⊎◌, ◌↔◌, Option, none, some, Option-cases,
  Result, ok, err, ErrorEnum, ◌>>=◌, ◌>>◌, fail_if, bind-ok, fail_if_iff, >>-iff, Result-cases,
  Outcome, done, failed, panic, out_of_fuel, and_then, if◌then◌else◌, has_str, has_num, filter_by,
  str_eq, eq_iff, eq_refl, ltb, leb, ◌==◌, ==_iff, get_elem?, get_elem?-lt, length, length-append,
  take, drop, All, key64, lt64, le64, mul64, sub64, add64, arith, ◌≡◌, ◌≢◌, refl, sym, ap, ◌∙◌,
}
use vearch.Prelude.Assoc.{lookup, insert, erase, lookup-insert, lookup-erase}
use mathlib.Core.Path.{subst}
use mathlib.Core.List.{append_assoc, append-nil}
use vearch.Space.Model.{FieldType}
use vearch.Index.{
  Index, FieldOption, no_option, index_option, scalar_option, inverted_option, inverted_list_option,
  bitmap_option, composite_option, SpaceProperties, Props, is_scalar_index_type, is_vector,
}

pub record Field : Type 0 where
  pub name : String
  pub type : String
  pub dimension : ℕ  -- int
  pub store_type : Option String
  pub format : Option String
  pub index : Option Index

-- the `switch sp.Type`
unfoldable pub field_type_of : String → Option FieldType
field_type_of type =
    if has_str type ("text" ∷ "keyword" ∷ "string" ∷ [])
    then some FieldType.string
    else if str_eq type "date"
    then some FieldType.date
    else if has_str type ("integer" ∷ "short" ∷ "byte" ∷ [])
    then some FieldType.int
    else if str_eq type "long"
    then some FieldType.long
    else if str_eq type "float"
    then some FieldType.float
    else if str_eq type "double"
    then some FieldType.double
    else if has_str type ("boolean" ∷ "bool" ∷ [])
    then some FieldType.bool
    else if has_str type ("stringArray" ∷ "StringArray" ∷ "string_array" ∷ [])
    then some FieldType.string_array
    else if str_eq type "vector"
    then some FieldType.vector
    else none

-- `if test { return err }` in code that may also panic
abbrev pub stop_if : Bool → Outcome (Unit {0})
stop_if false = done tt
stop_if true = failed ErrorEnum.param_error

-- A store type that is not known: the message of the error reads *sp.StoreType, which is nil.
unfoldable pub check_store_type : Option String → Outcome (Unit {0})
check_store_type none = done tt
check_store_type (some s) =
    if not (str_eq s "") && not (str_eq s "RocksDB") && not (str_eq s "MemoryOnly")
    then panic
    else done tt

unfoldable pub check_format : Option String → Outcome (Unit {0})
check_format none = done tt
check_format (some s) = stop_if (not (has_str s ("normalization" ∷ "normal" ∷ "no" ∷ [])))

unfoldable pub scalar_option_of : String → FieldOption
scalar_option_of type =
    if str_eq type "INVERTED"
    then inverted_option
    else if str_eq type "INVERTED_LIST"
    then inverted_list_option
    else if str_eq type "BITMAP"
    then bitmap_option
    else if str_eq type "COMPOSITE"
    then composite_option
    else scalar_option

-- sp.Option, for a field that is a vector or is not
unfoldable pub option_of : Bool → Option Index → Outcome FieldOption
option_of vector none = done no_option
option_of true (some idx) =
    if is_scalar_index_type idx.type then failed ErrorEnum.param_error else done index_option
option_of false (some idx) =
    if is_scalar_index_type idx.type
    then done (scalar_option_of idx.type)
    else failed ErrorEnum.param_error

-- Format, dimension and store type are kept for a vector alone.
unfoldable pub properties_of : Field → FieldType → FieldOption → SpaceProperties
properties_of field field_type option =
    let vector = is_vector field_type in
    record {
      field_type = field_type;
      type = field.type;
      index = field.index;
      format = if vector then field.format else none;
      dimension = if vector then field.dimension else 0;
      store_type = if vector then field.store_type else none;
      option = option;
    }

unfoldable pub check_vector : Field → Outcome (Unit {0})
check_vector field =
    and_then (stop_if (field.dimension == 0))
      λ _. and_then (check_store_type field.store_type) λ _. check_format field.format

-- The body of the loop after the checks of the names, with the type that was found.
unfoldable pub property_of : Field → Option FieldType → Outcome SpaceProperties
property_of field none = failed ErrorEnum.param_error
property_of field (some field_type) =
    and_then (if is_vector field_type then check_vector field else done tt) λ _.
      and_then (option_of (is_vector field_type) field.index)
        λ option. done (properties_of field field_type option)

-- The name of the index that the field carries, if any, is not seen yet.
unfoldable pub is_index_seen : Option Index → List String → Bool
is_index_seen none index_names = false
is_index_seen (some idx) index_names = has_str idx.name index_names

unfoldable pub add_index_name : Option Index → List String → List String
add_index_name none index_names = index_names
add_index_name (some idx) index_names = idx.name ∷ index_names

unfoldable pub check_field_name : Field → List String → List String → Bool
check_field_name field names index_names =
    str_eq field.name ""
    || str_eq field.name "_id"
    || str_eq field.name "_score"
    || has_str field.name names
    || is_index_seen field.index index_names

-- The loop of UnmarshalPropertyJSON: the names of fields and indexes seen, and tmpPro.
unfoldable pub property_loop : List Field → List String → List String → Props → Outcome Props
property_loop [] names index_names props = done props
property_loop (field ∷ fields) names index_names props =
    and_then (stop_if (check_field_name field names index_names)) λ _.
      and_then (property_of field (field_type_of field.type)) λ p.
        property_loop fields (field.name ∷ names) (add_index_name field.index index_names)
          (insert field.name p props)

unfoldable pub unmarshal_property_json : List Field → Outcome Props
unmarshal_property_json fields = property_loop fields [] [] []
