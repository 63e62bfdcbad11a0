-- ===== src/Examples/Delete.antt =====
-- The deletion of a space with two partitions, the second of which has a key that cannot be deleted.
use vearch.Prelude.{List, [], ◌∷◌, Result, ok, err, ErrorEnum, some, if◌then◌else◌, ◌==◌, ◌≡◌, refl}
use vearch.Space.Model.{Partition}
use vearch.Space.Delete.{
  Key, space_key, partition_key, space_config_key, key_gone, delete_partition, DeleteEnv, after_key,
  tell_replica, tell_replicas, delete_partitions, delete_locked, delete_found, delete_in,
  delete_space, keys_gone, in_order, keys_of, delete_space-in_order,
}
use vearch.Examples.Data.{partition}

abbrev two_partitions : List Partition
two_partitions = record (partition 10 0 "") { replicas = 1 ∷ [] } ∷ partition 11 5 "" ∷ []

abbrev delete_answer : Key → Result (Unit {0})
delete_answer (space_key db_id id) = ok tt
delete_answer (partition_key id) = if id == 11 then err ErrorEnum.plain else ok tt
delete_answer (space_config_key db_id id) = ok tt

abbrev delete_env : DeleteEnv
delete_env = record {
  db_id = ok 1;
  space = λ _. ok (some (7, two_partitions));
  lock = ok tt;
  server = λ _. ok "a";
  delete = delete_answer;
}

deleted_run : delete_space delete_env ≡ (
  err ErrorEnum.plain,
  key_gone (space_key 1 7) ∷ delete_partition "a" 10 ∷ key_gone (partition_key 10) ∷ [],
)
unfolding delete_space delete_in delete_found delete_locked delete_partitions after_key
    tell_replicas tell_replica
deleted_run = refl

delete_space-in_order_example :
    ((delete_space delete_env).0, keys_gone (delete_space delete_env).1)
    ≡ in_order delete_answer (keys_of 1 7 two_partitions)
delete_space-in_order_example = delete_space-in_order delete_env 1 7 two_partitions refl refl refl
