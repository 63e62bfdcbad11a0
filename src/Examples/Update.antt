-- ===== src/Examples/Update.antt =====
-- The theorems on the update of a configuration, at a space with a composite index that gets a field.
use vearch.Prelude.{
  ◌<◌, String, List, [], ◌∷◌, ◌++◌, true, false, ◌&&◌, none, some, ok, done, if◌then◌else◌, str_eq,
  eq_iff, leb, All, arith, ◌≡◌, ◌≢◌, refl,
}
use vearch.Prelude.Assoc.{lookup}
use vearch.Space.Model.{FieldType}
use vearch.Index.{
  Index, no_option, SpaceProperties, Props, merge_field_indexes, merge_fields_loop, merge_field,
  validate_indexes, check_indexes, is_vector, is_composite,
}
use vearch.Index.Fields.{
  Field, unmarshal_property_json, property_loop, property_of, properties_of, option_of,
  check_field_name, is_index_seen, add_index_name, field_type_of,
}
use vearch.Index.Change.{SpaceMeta, properties_of_json, to_store}
use vearch.Update.{
  UpdateEnv, merge_schema_array, validate_space, type_number, option_number, has_index, same_text,
  are_properties_equal, is_only_index_option_change, differs, index_change_of, changed_indexes,
  new_index_of, new_indexed, detect_index_changes, check_compatible, check_all_compatible,
  count_new, extend_fields, update_space_fields, notify_partitions_config_update, UpdateRequest,
  is_changed, or_keep, renamed, update_fields, tell_and_store, handle_configuration_update,
}
use vearch.Update.Fields.{
  text, RawField, FieldMap, json_eq, value_at, all_equal, are_fields_equal, put_field, field_map,
  merge_old, merge_schemas,
}
use vearch.Auth.Names.{first_rune, has_forbidden, is_forbidden}
use vearch.Update.Config.{handle_configuration_update-composites}
use vearch.Update.Schema.{first_of, BothAgree, merge_schemas_lem}

abbrev number_field : String → Field
number_field name = record {
  name = name;
  type = "integer";
  dimension = 0;
  store_type = none;
  format = none;
  index = none;
}

abbrev both_fields : Index
both_fields = record {
  name = "both";
  type = "COMPOSITE";
  field_name = "";
  field_names = "age" ∷ "size" ∷ [];
  params = "";
}

abbrev people : SpaceMeta
people = record {
  name = "people";
  version = 4;
  db_id = 1;
  enabled = some true;
  partitions = [];
  partition_num = 0;
  replica_num = 1;
  fields = "two";
  indexes = both_fields ∷ [];
  partition_rule = none;
  space_properties = none;
  partition_name = none;
  operator_type = none;
}

abbrev request : UpdateRequest
request = record {
  name = "";
  db_id = 0;
  enabled = none;
  partitions = none;
  partition_num = 0;
  replica_num = 0;
  fields = "three";
  partition_rule = none;
  partition_name = none;
  operator_type = none;
}

abbrev fields_of : String → List Field
fields_of word =
    number_field "age"
    ∷ number_field "size"
    ∷ (if str_eq word "two" then [] else number_field "rank" ∷ [])

abbrev raw : String → RawField
raw name = ("name", text name) ∷ ("type", text "integer") ∷ []

abbrev calm_env : UpdateEnv
calm_env = record {
  base = record {
    lock = ok tt;
    db_id = λ _. ok 1;
    get = ok tt;
    put = λ _. ok tt;
    decode = λ t. ok (fields_of t);
    encode = λ _. ok "";
    encode_indexes = λ _. ok "";
    query_partition = λ _ _. ok 3;
    query_server = λ _ _. ok "host";
    is_live = λ _ _. true;
    is_late = λ _ _. false;
    index_change = λ _ _ _ _. (true, ok tt);
  };
  is_number = λ r. leb 48 r && leb r 57;
  visit_schema = λ merged. merged;
  visit_properties = λ props. props;
  decode_schema =
      λ t. ok (raw "age" ∷ raw "size" ∷ (if str_eq t "two" then [] else raw "rank" ∷ []));
  encode_schema = λ _. ok "three";
  update_partition = λ _ _ _. ok tt;
}

abbrev number_property : SpaceProperties
number_property = record {
  field_type = FieldType.int;
  type = "integer";
  index = none;
  format = none;
  dimension = 0;
  store_type = none;
  option = no_option;
}

abbrev old_props : Props
old_props = ("age", number_property) ∷ ("size", number_property) ∷ []

abbrev new_props : Props
new_props = ("age", number_property) ∷ ("size", number_property) ∷ ("rank", number_property) ∷ []

old_declared : properties_of_json calm_env.base people.fields ≡ done old_props
unfolding properties_of_json unmarshal_property_json property_loop property_of properties_of
    option_of check_field_name is_index_seen add_index_name field_type_of is_vector
old_declared = refl

new_declared : properties_of_json calm_env.base request.fields ≡ done new_props
unfolding properties_of_json unmarshal_property_json property_loop property_of properties_of
    option_of check_field_name is_index_seen add_index_name field_type_of is_vector
new_declared = refl

abbrev updated : SpaceMeta
updated = record people {
  version = 5;
  fields = "three";
  indexes = [];
  space_properties = some new_props;
}

updated_done : handle_configuration_update calm_env people request ≡ done updated
unfolding handle_configuration_update is_changed renamed validate_space first_rune has_forbidden
    is_forbidden or_keep properties_of_json unmarshal_property_json property_loop property_of
    properties_of option_of check_field_name is_index_seen add_index_name field_type_of is_vector
    update_fields detect_index_changes changed_indexes index_change_of new_indexed new_index_of
    differs has_index option_number update_space_fields check_all_compatible check_compatible
    is_only_index_option_change are_properties_equal type_number same_text count_new extend_fields
    merge_schema_array field_map put_field merge_schemas merge_old are_fields_equal all_equal
    json_eq value_at merge_field_indexes merge_fields_loop merge_field validate_indexes
    check_indexes tell_and_store notify_partitions_config_update to_store
updated_done = refl

given : request.fields ≢ ""
given h = absurd (ground (arith, eq_iff "three" ""))

one_new : 0 < count_new new_props old_props
unfolding count_new
one_new = omega arith

handle_configuration_update-composites_example : All (λ i. is_composite i ≡ false) updated.indexes
handle_configuration_update-composites_example =
    handle_configuration_update-composites calm_env people request updated old_props new_props given
      old_declared new_declared one_new updated_done

abbrev old_map : FieldMap
old_map = ("age", raw "age") ∷ []

abbrev new_map : FieldMap
new_map = ("size", raw "size") ∷ []

merged_done : merge_schemas old_map new_map ≡ done (new_map ++ old_map)
unfolding merge_schemas merge_old
merged_done = refl

merge_schemas_lem_example :
    (lookup "age" (new_map ++ old_map) ≡ first_of (lookup "age" new_map) (lookup "age" old_map))
    × BothAgree (lookup "age" old_map) (lookup "age" new_map)
merge_schemas_lem_example = merge_schemas_lem old_map new_map (new_map ++ old_map) "age" merged_done
