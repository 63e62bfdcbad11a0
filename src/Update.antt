-- ===== src/Update.antt =====
-- The update of a space's configuration: handleConfigurationUpdate and updateSpaceFields of
-- internal/master/services/space_service.go, and MergeSchemaArray of internal/ps/engine/mapping/parse.go.
pub mod Schema
pub mod Config
pub mod Compatible
pub mod Fields
use vearch.Prelude.{
  ℕ, zero, suc, ◌+◌, ◌-◌, ◌*◌, ◌/◌, ◌%◌, ◌^◌, ◌≤◌, ◌<◌, String, List, [], ◌∷◌, ◌++◌, map, Bool,
  true, false, ◌&&◌, ◌||◌, not, Bool-cases, inl, inr, ◌⊎◌, ◌↔◌, Option, none, some, Option-cases,
  Result, ok, err, ErrorEnum, ◌>>=◌, ◌>>◌, fail_if, bind-ok, fail_if_iff, >>-iff, Result-cases,
  Outcome, done, failed, panic, out_of_fuel, and_then, lift, lift-done, and_then-done,
  if◌then◌else◌, has_str, has_num, filter_by, str_eq, eq_iff, eq_refl, ltb, leb, ◌==◌, ==_iff,
  get_elem?, get_elem?-lt, length, length-append, take, drop, All, All-append, key64, lt64, le64,
  mul64, sub64, add64, arith, ◌≡◌, ◌≢◌, refl, sym, ap, ◌∙◌,
}
use vearch.Prelude.Assoc.{lookup, insert, erase, lookup-insert, lookup-erase}
use mathlib.Core.Path.{subst}
use mathlib.Core.List.{append_assoc, append-nil}
use vearch.Space.Model.{FieldType, Partition, PartitionRule}
use vearch.Auth.Names.{runes, first_rune, has_forbidden}
use vearch.Index.{
  Index, FieldOption, no_option, index_option, scalar_option, inverted_option, inverted_list_option,
  bitmap_option, composite_option, SpaceProperties, Props, merge_field_indexes,
}
use vearch.Index.Fields.{Field}
use vearch.Index.Change.{SpaceMeta, Env, properties_of_json, to_store}
use vearch.Update.Fields.{RawField, FieldMap, field_map, merge_schemas}

-- What is not of this service: the calls of Index.Change, unicode.IsNumber, the codec of schemas, and what a
-- partition answers to the new configuration.
pub record UpdateEnv : Type 0 where
  pub base : Env
  pub is_number : ℕ → Bool
  pub decode_schema : String → Result (List RawField)
  pub visit_schema : FieldMap → FieldMap  -- the order in which Go goes over the merged map
  pub visit_properties : Props → Props  -- the same for the properties
  pub encode_schema : List RawField → Result String
  pub update_partition : String → SpaceMeta → ℕ → Result (Unit {0})  -- the call of the leader

unfoldable pub merge_schema_array : UpdateEnv → String → String → Outcome String
merge_schema_array env old new = and_then (lift (env.decode_schema new)) λ new_schema.
    and_then (lift (env.decode_schema old)) λ old_schema.
      and_then (merge_schemas (field_map old_schema []) (field_map new_schema []))
        λ merged. lift (env.encode_schema (map (λ e. e.1) (env.visit_schema merged)))

-- (space *Space) Validate
unfoldable pub validate_space : (ℕ → Bool) → SpaceMeta → Result (Unit {0})
validate_space is_number space =
    first_rune is_number (runes space.name)
    >> fail_if (has_forbidden (runes space.name)) ErrorEnum.param_error

-- The numbers of the enumerations of internal/proto/data_model.proto
unfoldable pub type_number : FieldType → ℕ
type_number FieldType.int = 0
type_number FieldType.long = 1
type_number FieldType.float = 2
type_number FieldType.double = 3
type_number FieldType.string = 4
type_number FieldType.vector = 5
type_number FieldType.bool = 6
type_number FieldType.date = 7
type_number FieldType.string_array = 8

unfoldable pub option_number : FieldOption → ℕ
option_number no_option = 0
option_number index_option = 1
option_number scalar_option = 2
option_number inverted_option = 3
option_number inverted_list_option = 4
option_number bitmap_option = 5
option_number composite_option = 6

-- Option != FieldOption_Null
unfoldable pub has_index : SpaceProperties → Bool
has_index p = not (option_number p.option == 0)

-- Two optional texts are both nil or equal.
unfoldable pub same_text : Option String → Option String → Bool
same_text none none = true
same_text none (some b) = false
same_text (some a) none = false
same_text (some a) (some b) = str_eq a b

unfoldable pub are_properties_equal : SpaceProperties → SpaceProperties → Bool
are_properties_equal old new =
    (type_number old.field_type == type_number new.field_type)
    && str_eq old.type new.type
    && (old.dimension == new.dimension)
    && same_text old.format new.format
    && same_text old.store_type new.store_type

unfoldable pub differs : Bool → Bool → Bool
differs true b = not b
differs false b = b

unfoldable pub is_only_index_option_change : SpaceProperties → SpaceProperties → Bool
is_only_index_option_change old new =
    are_properties_equal old new && differs (has_index old) (has_index new)

-- The first loop of detectIndexChangesWithProperties, by the names of the fields
unfoldable pub index_change_of : String → SpaceProperties → Option SpaceProperties → List String
index_change_of name old none = []
index_change_of name old (some new) =
    if differs (has_index old) (has_index new) then name ∷ [] else []

unfoldable pub changed_indexes : Props → Props → List String
changed_indexes [] new_props = []
changed_indexes ((name, old) ∷ olds) new_props =
    index_change_of name old (lookup name new_props) ++ changed_indexes olds new_props

unfoldable pub new_index_of : String → SpaceProperties → Option SpaceProperties → List String
new_index_of name new (some old) = []
new_index_of name new none = if has_index new then name ∷ [] else []

-- The second loop
unfoldable pub new_indexed : Props → Props → List String
new_indexed [] old_props = []
new_indexed ((name, new) ∷ news) old_props =
    new_index_of name new (lookup name old_props) ++ new_indexed news old_props

unfoldable pub detect_index_changes : UpdateEnv → SpaceMeta → Props → Outcome (List String)
detect_index_changes env space new_props =
    and_then (properties_of_json env.base space.fields)
      λ old_props. done (changed_indexes old_props new_props ++ new_indexed new_props old_props)

unfoldable pub check_compatible : SpaceProperties → Option SpaceProperties → Result (Unit {0})
check_compatible old none = ok tt
check_compatible old (some new) =
    fail_if (not (is_only_index_option_change old new) && not (are_properties_equal old new))
      ErrorEnum.param_error

-- The loop of updateSpaceFields over the old fields
unfoldable pub check_all_compatible : Props → Props → Result (Unit {0})
check_all_compatible [] new_props = ok tt
check_all_compatible ((name, old) ∷ olds) new_props =
    check_compatible old (lookup name new_props) >> check_all_compatible olds new_props

-- newFieldCount
unfoldable pub count_new : Props → Props → ℕ
count_new [] old_props = 0
count_new ((name, new) ∷ news) old_props = elim (lookup name old_props) [
  | none ↦ suc (count_new news old_props)
  | some old ↦ count_new news old_props
]

-- The new schema replaces the old one, and the indexes are made anew of those on its fields.
unfoldable pub extend_fields : UpdateEnv → SpaceMeta → String → Outcome SpaceMeta
extend_fields env space new_fields =
    and_then (merge_schema_array env space.fields new_fields) λ schema.
      and_then (properties_of_json env.base schema) λ props.
        and_then (lift (merge_field_indexes (env.visit_properties props) props [])) λ indexes.
          done (record space { fields = schema; indexes = indexes; space_properties = some props })

unfoldable pub update_space_fields : UpdateEnv → SpaceMeta → String → Outcome SpaceMeta
update_space_fields env space new_fields =
    and_then (properties_of_json env.base space.fields) λ old_props.
      and_then (properties_of_json env.base new_fields) λ new_props.
        and_then (lift (check_all_compatible old_props new_props)) λ _.
          if ltb 0 (count_new new_props old_props)
          then extend_fields env space new_fields
          else done space

-- updateSinglePartition
unfoldable pub update_single_partition : UpdateEnv → SpaceMeta → Partition → Result (Unit {0})
update_single_partition env space partition = env.base.query_partition 0 partition.id >>= λ leader.
    env.base.query_server 0 leader >>= λ addr.
    fail_if (not (env.base.is_live 0 addr)) ErrorEnum.partition_is_closed
    >> env.update_partition addr space partition.id

-- notifyPartitionsConfigUpdate, which answers an error if one of the calls does.
unfoldable pub notify_partitions_config_update :
    UpdateEnv → SpaceMeta → List Partition → Result (Unit {0})
notify_partitions_config_update env space [] = ok tt
notify_partitions_config_update env space (partition ∷ partitions) =
    update_single_partition env space partition
    >> notify_partitions_config_update env space partitions

-- The entity.Space of a request, where no partitions at all are told from an empty list
pub record UpdateRequest : Type 0 where
  pub name : String
  pub db_id : ℕ
  pub enabled : Option Bool
  pub partitions : Option (List Partition)
  pub partition_num : ℕ
  pub replica_num : ℕ
  pub fields : String
  pub partition_rule : Option PartitionRule
  pub partition_name : Option String
  pub operator_type : Option String

-- A number of the request that is neither zero nor the space's
unfoldable pub is_changed : ℕ → ℕ → Bool
is_changed new old = not (new == 0) && not (new == old)

unfoldable pub or_keep {ℓ} : {A : Type ℓ} → Option A → A → A
or_keep none a = a
or_keep (some b) a = b

unfoldable pub renamed : SpaceMeta → UpdateRequest → SpaceMeta
renamed space temp = record space {
  name = if str_eq temp.name "" then space.name else temp.name;
  enabled = elim temp.enabled [ none ↦ space.enabled | some b ↦ some b ];
}

-- Fields are added, and no index is changed.
unfoldable pub update_fields : UpdateEnv → SpaceMeta → String → Props → Outcome SpaceMeta
update_fields env space fields new_props =
    and_then (detect_index_changes env space new_props) λ changes.
      if ltb 0 (length changes)
      then failed ErrorEnum.param_error
      else update_space_fields env space fields

-- The version is one up while the partitions are told, and UpdateSpaceData counts it up for good.
unfoldable pub tell_and_store : UpdateEnv → SpaceMeta → Outcome SpaceMeta
tell_and_store env space =
    and_then
      (lift (
        notify_partitions_config_update env
          (record space { version = (space.version + 1) % 2 ^ 64 }) space.partitions))
      λ _. and_then (lift (env.base.put (to_store space))) λ _. done (to_store space)

unfoldable pub handle_configuration_update :
    UpdateEnv → SpaceMeta → UpdateRequest → Outcome SpaceMeta
handle_configuration_update env space temp =
    and_then
      (lift (
        fail_if
          (is_changed temp.db_id space.db_id
            || is_changed temp.partition_num space.partition_num
            || is_changed temp.replica_num space.replica_num)
          ErrorEnum.param_error))
      λ _.
        let named = renamed space temp in
        and_then (lift (validate_space env.is_number named)) λ _.
          let placed : SpaceMeta = record named {
            partitions = or_keep temp.partitions named.partitions;
          } in
          and_then (properties_of_json env.base temp.fields) λ new_props.
            and_then
              (if str_eq temp.fields ""
                then done placed
                else update_fields env placed temp.fields new_props)
              λ updated. tell_and_store env updated
