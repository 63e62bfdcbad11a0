-- ===== src/Examples/Replica.antt =====
-- The theorems on the choice of a replica, at a cluster of three nodes.
use vearch.Prelude.{ℕ, [], ◌∷◌, some, ◌==◌, true, ◌≡◌, ◌≢◌, refl, inr, arith}
use vearch.Space.Model.{Partition, pa_readwrite}
use vearch.Router.Replica.{
  Cluster, Server, get_concurrent, leader, not_leader, get_node_ids_by_client_type,
}
use vearch.Router.Replica.Choice.{Good, kept, get_node_ids_by_client_type-Good}

-- Node 2 is faulty.
abbrev three_nodes : Cluster
three_nodes = record {
  server = λ n. some (record { id = n; host_zone = "a" });
  test_faulty = λ n. n == 2;
  raft_consistent = true;
  replica_ok = λ n. true;
  concurrent = λ n. some 0;
  host_zone = "a";
}

abbrev replicated : Partition
replicated = record {
  id = 7;
  name = "";
  space_id = 1;
  db_id = 1;
  slot = 0;
  leader_id = 1;
  replicas = 1 ∷ 2 ∷ 3 ∷ [];
  status = pa_readwrite;
}

follower : Good three_nodes replicated.replicas (kept three_nodes not_leader replicated) 3
follower = (
  refl,
  record { known = (record { id = 3; host_zone = "a" }, refl); healthy = refl; current = inr refl },
  refl,
)

not_leader-leader : not_leader ≢ leader
not_leader-leader e = cc

some-server :
    (node : ℕ) (s : Server) → some (record { id = node; host_zone = "a" }) ≡ some s → s.id ≡ node
some-server node s e = cc

get_node_ids_by_client_type-Good_example :
    (m : ℕ) × ((get_node_ids_by_client_type three_nodes not_leader replicated []).0 ≡ some m)
    × Good three_nodes replicated.replicas (kept three_nodes not_leader replicated) m
unfolding get_concurrent
get_node_ids_by_client_type-Good_example =
    get_node_ids_by_client_type-Good three_nodes not_leader replicated 3 [] not_leader-leader
      some-server (λ node. omega arith) follower
