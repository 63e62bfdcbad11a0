-- ===== src/Examples/Change.antt =====
-- The theorems on adding and removing an index, at a space with one partition.
use vearch.Prelude.{
  ℕ, ◌+◌, ◌%◌, ◌^◌, ◌≤◌, String, List, [], ◌∷◌, ◌++◌, true, false, ◌&&◌, not, none, some, Result,
  ok, err, ErrorEnum, fail_if, done, failed, if◌then◌else◌, filter_by, str_eq, eq_iff, ◌==◌, All,
  arith, ◌≡◌, ◌≢◌, refl, sym, ap,
}
use vearch.Space.Model.{Partition, pa_readwrite}
use vearch.Index.{
  Index, validate_indexes, check_indexes, check_index, check_fields, check_single_field, is_vector,
  is_scalar_index_type, is_composite,
}
use vearch.Index.Fields.{
  Field, unmarshal_property_json, property_loop, property_of, properties_of, check_vector,
  option_of, check_field_name, is_index_seen, add_index_name, field_type_of,
}
use vearch.Index.Change.{
  SpaceMeta, IndexChange, add_index, remove_index, Env, Cluster, see_all, see_fields,
  check_new_index, check_new_indexes, load_locked_space, prepare_add, properties_of_json, add_to,
  add_loaded, add_indexes, to_store, settle, put_engine, notify_leader, notify_partition,
  notify_partitions_index_change, call_partitions, without_late, land_late, as_read_error,
  compensate_add,
}
use vearch.Index.Change.Fanout.{ids, Applied}
use vearch.Index.Change.Add.{add_indexes-done, add_indexes-failed}
use vearch.Index.Change.Prepared.{IsPrepared}
use vearch.Index.Change.Remove.{
  take_out, remove_index_of, remove_loaded, remove_from, without_index, clear_inline, is_inline_of,
  inline_index_matches, clear_field_inline_index, clear_properties, or_else,
}
use vearch.Index.Change.Remove.Gone.{remove_index_of-done, remove_index_of-fields}
use vearch.Index.Change.Remove.Taken.{IsTakenOut}
use vearch.Index.Change.Remove.Back.{add_indexes-remove_index_of}

abbrev by_age : Index
by_age = record {
  name = "by_age";
  type = "SCALAR";
  field_name = "age";
  field_names = [];
  params = "";
}

abbrev plain_age : Field
plain_age = record {
  name = "age";
  type = "integer";
  dimension = 0;
  store_type = none;
  format = none;
  index = none;
}

abbrev inline_age : Field
inline_age = record plain_age { index = some by_age }

abbrev inline_fields : String → Result (List Field)
inline_fields text = if str_eq text "plain" then ok (plain_age ∷ []) else ok (inline_age ∷ [])

abbrev only_partition : Partition
only_partition = record {
  id = 7;
  name = "";
  space_id = 1;
  db_id = 1;
  slot = 0;
  leader_id = 3;
  replicas = 3 ∷ [];
  status = pa_readwrite;
}

abbrev pub space : SpaceMeta
space = record {
  name = "people";
  version = 4;
  db_id = 1;
  enabled = some true;
  partitions = only_partition ∷ [];
  partition_num = 1;
  replica_num = 1;
  fields = "age";
  indexes = [];
  partition_rule = none;
  space_properties = none;
  partition_name = none;
  operator_type = none;
}

-- An engine is the list of the names of its indexes; the text of an addition is the name.
abbrev apply_change : IndexChange → List String → List String
apply_change (add_index name) names = name ∷ names
apply_change (remove_index name) names = filter_by (λ n. not (str_eq n name)) names

abbrev first_name : List Index → Result String
first_name [] = err ErrorEnum.plain
first_name (idx ∷ indexes) = ok idx.name

-- Everything answers, but the call of the partition in round `bad`, which still applies the change.
abbrev env_but : ℕ → Env
env_but bad = record {
  lock = ok tt;
  db_id = λ _. ok 1;
  get = ok tt;
  put = λ _. ok tt;
  decode = λ text. ok (plain_age ∷ []);
  encode = λ _. ok "age";
  encode_indexes = first_name;
  query_partition = λ _ _. ok 3;
  query_server = λ _ _. ok "host";
  is_live = λ _ _. true;
  is_late = λ _ _. false;
  index_change = λ round _ _ _. (true, fail_if (round == bad) ErrorEnum.plain);
}

abbrev before : Cluster (List String)
before = record { stored = some space; engines = λ _. [] }

abbrev added_space : SpaceMeta
added_space = record space { version = 5; indexes = by_age ∷ [] }

abbrev added_engines : ℕ → List String
added_engines k = if true && (7 == k) then "by_age" ∷ [] else []

abbrev added : Cluster (List String)
added = record { stored = some added_space; engines = added_engines }

prepared :
    (bad : ℕ)
    → prepare_add (env_but bad) space (some by_age ∷ []) ≡ done (by_age ∷ [], add_index "by_age")
unfolding prepare_add see_all check_new_indexes check_new_index see_fields properties_of_json
    validate_indexes check_indexes check_index check_fields check_single_field is_vector
    is_scalar_index_type is_composite unmarshal_property_json property_loop property_of
    properties_of check_vector option_of check_field_name is_index_seen add_index_name field_type_of
prepared bad = refl

loaded : (bad : ℕ) → load_locked_space (env_but bad) "db" (some space) ≡ ok space
unfolding load_locked_space as_read_error
loaded bad = refl

added_done :
    add_indexes apply_change (env_but 9) "db" (some by_age ∷ []) before ≡ (added, done added_space)
unfolding add_indexes add_loaded load_locked_space as_read_error add_to settle
    notify_partitions_index_change call_partitions without_late land_late notify_partition
    notify_leader put_engine to_store
added_done = rw (prepared 9) refl

add_indexes-done_example :
    (added.stored ≡ some added_space)
    × (added_space.version ≡ (space.version + 1) % 2 ^ 64)
    × ((new : List Index) × (change : IndexChange) × (added_space.indexes ≡ space.indexes ++ new)
        × IsPrepared (env_but 9) space (some by_age ∷ []) new change
        × Applied apply_change change (ids space.partitions) before.engines added.engines)
add_indexes-done_example =
    add_indexes-done apply_change (env_but 9) (λ round addr id change h. refl) "db"
      (some by_age ∷ []) before added space added_space (loaded 9) (refl, tt) added_done

failed_after : Cluster (List String)
failed_after =
    (add_to apply_change (env_but 0) space before (done (by_age ∷ [], add_index "by_age"))).0

added_failed :
    add_indexes apply_change (env_but 0) "db" (some by_age ∷ []) before
    ≡ (failed_after, failed ErrorEnum.plain)
unfolding failed_after add_indexes add_loaded load_locked_space as_read_error add_to settle
    notify_partitions_index_change call_partitions without_late land_late notify_partition
    notify_leader put_engine compensate_add to_store
added_failed = rw (prepared 0) refl

answers_later :
    (r : ℕ) (later : IndexChange) (now : ℕ → List String)
    → 1 ≤ r
    → (notify_partitions_index_change apply_change (env_but 0) r later space.partitions now).1
      ≡ ok tt
unfolding notify_partitions_index_change call_partitions without_late land_late notify_partition
    notify_leader
answers_later r later now l = ground arith

add_indexes-failed_example :
    (failed_after.stored ≡ before.stored) × ((k : ℕ) → failed_after.engines k ≡ before.engines k)
add_indexes-failed_example =
    add_indexes-failed apply_change (env_but 0) (λ round addr id change h. refl) (λ k. refl) "db"
      (some by_age ∷ []) before failed_after space (by_age ∷ []) (add_index "by_age")
      ErrorEnum.plain (loaded 0) (prepared 0) (refl, tt) answers_later (λ k. refl) (λ k. refl)
      added_failed

-- The call of the partition for the addition ends after the operation: the engine keeps the index, while the
-- store does not have it.
late_env : Env
late_env = record (env_but 0) { is_late = λ round k. round == 0 }

late_addition :
    (add_to apply_change late_env space before (done (by_age ∷ [], add_index "by_age"))).0.engines 7
    ≡ "by_age" ∷ []
unfolding late_env add_to settle notify_partitions_index_change call_partitions without_late
    land_late notify_partition notify_leader put_engine compensate_add to_store
late_addition = refl

emptied : Cluster (List String)
emptied = (remove_index_of apply_change (env_but 9) "db" "by_age" added).0

abbrev emptied_space : SpaceMeta
emptied_space = record space { version = 6 }

loaded_added : load_locked_space (env_but 9) "db" added.stored ≡ ok added_space
unfolding load_locked_space as_read_error
loaded_added = refl

removed_done :
    remove_index_of apply_change (env_but 9) "db" "by_age" added ≡ (emptied, done emptied_space)
unfolding emptied remove_index_of remove_loaded remove_from load_locked_space as_read_error take_out
    without_index clear_field_inline_index clear_inline is_inline_of inline_index_matches
    clear_properties settle notify_partitions_index_change call_partitions without_late land_late
    notify_partition notify_leader to_store is_composite
removed_done = refl

remove_index_of-done_example :
    (emptied.stored ≡ some emptied_space)
    × ((removed : Index) × IsTakenOut "by_age" added_space.indexes removed emptied_space.indexes)
    × Applied apply_change
        (remove_index "by_age")
        (ids added_space.partitions)
        added.engines
        emptied.engines
remove_index_of-done_example =
    remove_index_of-done apply_change (env_but 9) (λ round addr id change h. refl) "db" "by_age"
      added emptied added_space emptied_space loaded_added (refl, tt) removed_done

taken_out : take_out "by_age" added_space.indexes ≡ some (by_age, [])
unfolding take_out
taken_out = refl

single : is_composite by_age ≡ false
unfolding is_composite
single = refl

named_age : by_age.field_name ≢ ""
named_age h = absurd (ground (arith, eq_iff "age" ""))

with_fields : added_space.fields ≢ ""
with_fields h = absurd (ground (arith, eq_iff "age" ""))

-- The field itself declares the index.
abbrev inline_env : Env
inline_env = record (env_but 9) { decode = inline_fields; encode = λ _. ok "plain" }

abbrev plain_space : SpaceMeta
plain_space = record emptied_space { fields = "plain" }

plain_cluster : Cluster (List String)
plain_cluster = (remove_index_of apply_change inline_env "db" "by_age" added).0

inline_removed :
    remove_index_of apply_change inline_env "db" "by_age" added ≡ (plain_cluster, done plain_space)
unfolding plain_cluster remove_index_of remove_loaded remove_from load_locked_space as_read_error
    take_out without_index clear_field_inline_index clear_inline is_inline_of inline_index_matches
    or_else clear_properties settle notify_partitions_index_change call_partitions without_late
    land_late notify_partition notify_leader to_store is_composite
inline_removed = refl

loaded_inline : load_locked_space inline_env "db" added.stored ≡ ok added_space
unfolding load_locked_space as_read_error
loaded_inline = refl

inline_cleared : (clear_inline by_age (inline_age ∷ [])).0 ≡ plain_age ∷ []
unfolding clear_inline is_inline_of inline_index_matches
inline_cleared = refl

remove_index_of-fields_example :
    (inline_env.decode plain_space.fields ≡ ok (clear_inline by_age (inline_age ∷ [])).0)
    × All (λ f. is_inline_of by_age f ≡ false) (clear_inline by_age (inline_age ∷ [])).0
remove_index_of-fields_example =
    remove_index_of-fields apply_change inline_env "db" "by_age" added plain_cluster added_space
      plain_space by_age [] (inline_age ∷ []) "plain" loaded_inline taken_out single named_age
      with_fields refl refl (ap ok (sym inline_cleared)) inline_removed

add_indexes-remove_index_of_example : emptied_space.indexes ≡ space.indexes
add_indexes-remove_index_of_example =
    add_indexes-remove_index_of apply_change (env_but 9) (λ round addr id change h. refl) "db"
      by_age before added emptied space added_space emptied_space (loaded 9) (refl, tt) added_done
      removed_done
