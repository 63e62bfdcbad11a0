-- ===== src/Examples/Rule.antt =====
-- The theorems on dropping a range, at a space with two ranges, and on more partitions, at a space with one.
use vearch.Prelude.{
  ℕ, ◌+◌, ◌-◌, List, [], ◌∷◌, ◌++◌, map, get_elem?, none, true, some, ok, done, length, arith, ◌≡◌,
  refl,
}
use vearch.Space.Model.{Partition, PartitionRule, Space}
use vearch.Space.Lookup.{partition_id}
use vearch.Space.Slots.{reslot, reslot_loop, slot_of, new_partition}
use vearch.Space.Slots.Routing.{owner_index}
use vearch.Space.Placement.{
  public_servers, own_servers, is_allowed, count_replicas, filter_and_sort_server,
  select_servers_for_partition, select_loop, is_picked, zone_of, pick_server, pass_server,
  put_count, count_of, bump, bumped, enough,
}
use vearch.Space.Expand.{place_new, expand_partitions, expand_partitions-routes}
use vearch.Examples.Placement.{server}
use vearch.Space.Rule.{RuleEnv, new_partitions_of, select_all}
use vearch.Examples.Data.{digit_cast, early, late, partition}

abbrev rule_env : RuleEnv
rule_env = record {
  cast = digit_cast;
  space_id = 1;
  db_id = 1;
  delete_key = λ _. ok tt;
  servers = ok [];
  addresses = [];
  resource = "";
  all_replicas = [];
  is_live = λ _. true;
  strategy = 0;
  sort = λ less counts. counts;
  new_id = λ n. ok n;
  created = λ _. ok tt;
  put = λ _. ok tt;
}

abbrev two_rule : PartitionRule
two_rule = record { type = "RANGE"; field = "day"; partitions = 2; ranges = early ∷ late ∷ [] }

abbrev two_space : Space
two_space = record {
  partitions = partition 10 0 "early" ∷ partition 11 5 "late" ∷ [];
  partition_num = 1;
  replica_num = 1;
  partition_rule = some two_rule;
}

abbrev late_rule : PartitionRule
late_rule = record two_rule { partitions = 1; ranges = late ∷ [] }

abbrev late_space : Space
late_space = record two_space {
  partitions = partition 11 0 "late" ∷ [];
  partition_rule = some late_rule;
}

-- One partition becomes two, on one server.
abbrev one_server_env : RuleEnv
one_server_env = record rule_env {
  servers = ok (server 11 "a" "x" ∷ []);
  new_id = λ n. ok (n + 21);
}

abbrev one_space : Space
one_space = record {
  partitions = partition 10 0 "" ∷ [];
  partition_num = 1;
  replica_num = 1;
  partition_rule = none;
}

abbrev expanded_space : Space
expanded_space = record one_space {
  partitions = partition 10 0 "" ∷ record (partition 21 2147483647 "") { replicas = 11 ∷ [] } ∷ [];
  partition_num = 2;
}

expanded_run : expand_partitions one_server_env one_space 2 ≡ done expanded_space
unfolding expand_partitions place_new new_partitions_of select_all new_partition
    filter_and_sort_server public_servers own_servers is_allowed count_replicas
    select_servers_for_partition select_loop is_picked zone_of pick_server pass_server put_count
    count_of bump bumped enough reslot reslot_loop slot_of
expanded_run = refl

expand_partitions-routes_example :
    (made added : List Partition) × (new_partitions_of one_server_env "" (2 - 1) 0 ≡ ok made)
    × (map (λ (p : Partition). p.id) added ≡ map (λ (p : Partition). p.id) made)
    × (length added ≡ 2 - 1)
    × (expanded_space.partition_num ≡ 2)
    × ((slot_id : ℕ)
        → (p : Partition) × (get_elem? (one_space.partitions ++ added) (owner_index 2 slot_id)
            ≡ some p)
          × (partition_id expanded_space.partitions slot_id ≡ done p.id))
expand_partitions-routes_example =
    expand_partitions-routes one_server_env one_space 2 expanded_space refl (omega arith)
      (omega arith) expanded_run
