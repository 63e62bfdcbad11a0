-- ===== src/Update/Fields.antt =====
-- The merge of two schemas: MergeSchemaArray of internal/ps/engine/mapping/parse.go, between the decoder and the
-- encoder.
use vearch.Prelude.{
  ℕ, ◌==◌, Outcome, done, failed, panic, and_then, if◌then◌else◌, String, List, [], ◌∷◌, Bool, true,
  false, Option, none, some, ErrorEnum, str_eq,
}
use vearch.Prelude.Assoc.{lookup, insert}

-- A value of a field of the schema as encoding/json decodes it into an interface: a number by its float64 value, an
-- object or an array by the text it is written in.
pub data Json : Type 0 where
  null : Json
  flag : Bool → Json
  number : ℕ → Json
  text object array : String → Json

-- map[string]any
abbrev pub RawField : Type 0
RawField = List (String × Json)

-- field[key], which is nil for a key that is missing
unfoldable pub value_at : String → RawField → Json
value_at key field = elim (lookup key field) [ none ↦ null | some value ↦ value ]

-- The comparison of two interfaces, which panics at two objects or two arrays.
unfoldable pub json_eq : Json → Json → Outcome Bool
json_eq null null = done true
json_eq (flag true) (flag true) = done true
json_eq (flag false) (flag false) = done true
json_eq (number a) (number b) = done (a == b)
json_eq (text a) (text b) = done (str_eq a b)
json_eq (object a) (object b) = panic
json_eq (array a) (array b) = panic
json_eq a b = done false

abbrev basic_fields : List String
basic_fields = "name" ∷ "type" ∷ "dimension" ∷ "store_type" ∷ "format" ∷ []

-- The first difference ends the loop.
unfoldable pub all_equal : List String → RawField → RawField → Outcome Bool
unfolding json_eq value_at
all_equal [] field1 field2 = done true
all_equal (key ∷ keys) field1 field2 =
    and_then (json_eq (value_at key field1) (value_at key field2))
      λ same. if same then all_equal keys field1 field2 else done false

unfoldable pub are_fields_equal : RawField → RawField → Outcome Bool
are_fields_equal field1 field2 = all_equal basic_fields field1 field2

abbrev pub FieldMap : Type 0
FieldMap = List (String × RawField)

-- `if name, ok := field["name"].(string); ok`
unfoldable pub put_field : Option Json → RawField → FieldMap → FieldMap
put_field none field fields = fields
put_field (some (text name)) field fields = insert name field fields
put_field (some value) field fields = fields

-- The loops that make a map of an array
unfoldable pub field_map : List RawField → FieldMap → FieldMap
field_map [] fields = fields
field_map (field ∷ schema) fields = field_map schema (put_field (lookup "name" field) field fields)

unfoldable pub merge_old : String → RawField → Option RawField → FieldMap → Outcome FieldMap
merge_old name old none merged = done (insert name old merged)
merge_old name old (some new) merged =
    and_then (are_fields_equal old new)
      λ same. if same then done merged else failed ErrorEnum.param_error

-- The loop of MergeSchemaArray over the old fields
unfoldable pub merge_schemas : FieldMap → FieldMap → Outcome FieldMap
merge_schemas [] merged = done merged
merge_schemas ((name, old) ∷ olds) merged =
    and_then (merge_old name old (lookup name merged) merged) (merge_schemas olds)
