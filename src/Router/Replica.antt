-- ===== src/Router/Replica.antt =====
-- The replica that a request goes to: RoundRobin.Next and GetNodeIdsByClientType of
-- internal/client/client.go.
pub mod Turns
pub mod Choice
use vearch.Prelude.{
  ℕ, zero, suc, String, ◌+◌, ◌-◌, ◌%◌, ◌^◌, List, [], ◌∷◌, ◌++◌, Option, none, some, if◌then◌else◌,
  ltb, ◌==◌, Bool, true, false, ◌&&◌, ◌||◌, not, length, get_elem?, str_eq,
}
use vearch.Space.Model.{Partition}

-- counterMap: the counter of each key
abbrev pub Counters : Type 0
Counters = List (ℕ × ℕ)

unfoldable pub counter_of : ℕ → Counters → Option ℕ
counter_of k [] = none
counter_of k ((j, n) ∷ cs) = if j == k then some n else counter_of k cs

unfoldable pub set_counter : ℕ → ℕ → Counters → Counters
set_counter k n [] = (k, n) ∷ []
set_counter k n ((j, m) ∷ cs) = if j == k then (k, n) ∷ cs else (j, m) ∷ set_counter k n cs

-- ix, and the counter that is stored: 1 and ix 0 for a new key, else the counter is incremented and
-- ix is (newValue - 1) % len, on uint64
step_counter : Option ℕ → ℕ → ℕ × ℕ
step_counter none len = (0, 1)
step_counter (some n) len =
    let new_value = (n + 1) % 2 ^ 64 in ((new_value + 2 ^ 64 - 1) % 2 ^ 64 % len, new_value)

-- The zero value where there is nothing to choose from; `none` would be an index out of range.
unfoldable pub next : ℕ → List ℕ → Counters → Option ℕ × Counters
unfolding step_counter
next k [] cs = (some 0, cs)
next k (x ∷ xs) cs =
    let (ix, n) = step_counter (counter_of k cs) (length (x ∷ xs)) in
    (get_elem? (x ∷ xs) ix, set_counter k n cs)

-- The client types of internal/entity/request; `random` is also the empty string, and `other` any
-- string that is no client type.
pub data ClientType : Type 0 where
  leader not_leader random least_connection nearest_connection other : ClientType

pub record Server : Type 0 where
  pub id : ℕ
  pub host_zone : String

-- What the choice reads: the cache of servers, the faulty list of the partition server client, the
-- setting Global.RaftConsistent, partition.ReStatusMap[nodeID] == ReplicasOK, the open requests of a
-- connection, and the zone of this host.
pub record Cluster : Type 0 where
  pub server : ℕ → Option Server
  pub test_faulty : ℕ → Bool
  pub raft_consistent : Bool
  pub replica_ok : ℕ → Bool
  pub concurrent : ℕ → Option ℕ  -- none is nilClient
  pub host_zone : String

-- GetConcurrent of a connection, plus one: nilClient answers -1.
unfoldable pub get_concurrent : Option ℕ → ℕ
get_concurrent none = 0
get_concurrent (some n) = n + 1

-- `least`, the greatest count, which starts at -1, `most`, the smallest, both kept here plus one, and the
-- node that has it
pub record Load : Type 0 where
  pub least_suc : ℕ
  pub most : ℕ
  pub least_id : ℕ

module _ (c : Cluster) where
  open c use {server, test_faulty, raft_consistent, replica_ok, concurrent}

  -- the tests that a loop makes of a replica before it appends it; `keep` is the last of them
  unfoldable pub accepts : (ℕ → Bool) → ℕ → Bool
  accepts keep node = elim (server node) [
    | none ↦ false
    | some s ↦
        if test_faulty node
        then false
        else if raft_consistent
        then replica_ok node && keep node
        else keep node
  ]

  -- noLeaderIDs and randIDs
  unfoldable pub candidates : (ℕ → Bool) → List ℕ → List ℕ
  candidates keep [] = []
  candidates keep (node ∷ nodes) =
      let rest = candidates keep nodes in if accepts keep node then node ∷ rest else rest

  measure : ℕ → Load → Load
  measure node l =
      let n = get_concurrent (concurrent node) in
      let l' = record l { least_suc = if ltb l.least_suc n then n else l.least_suc } in
      if ltb n l.most then record l' { most = n; least_id = node } else l'

  unfoldable pub measure_all : List ℕ → Load → Load
  unfolding measure
  measure_all [] l = l
  measure_all (node ∷ nodes) l =
      measure_all nodes (if accepts (λ _. true) node then measure node l else l)

  -- The replica is appended to nearestId[HostZone] where `same` is true, to nearestId["others"] where
  -- it is not. (A host in a zone of the name "others" would have one list for both.)
  unfoldable pub in_zone : Bool → ℕ → Bool
  in_zone same node = elim (server node) [
    | none ↦ false
    | some s ↦
        let here = str_eq s.host_zone c.host_zone in
        accepts (λ _. true) node && (if same then here else not here)
  ]

  -- server.ID of the server that the cache has for the replica
  unfoldable pub server_id : ℕ → ℕ
  server_id node = elim (server node) [ none ↦ 0 | some s ↦ s.id ]

  unfoldable pub nearest : Bool → List ℕ → List ℕ
  nearest same [] = []
  nearest same (node ∷ nodes) =
      let rest = nearest same nodes in if in_zone same node then server_id node ∷ rest else rest

  unfoldable pub get_node_ids_by_client_type :
      ClientType → Partition → Counters → Option ℕ × Counters
  unfolding measure_all nearest
  get_node_ids_by_client_type leader p cs = (some p.leader_id, cs)
  get_node_ids_by_client_type not_leader p cs =
      next p.id (candidates (λ node. not (node == p.leader_id)) p.replicas) cs
  get_node_ids_by_client_type random p cs = next p.id (candidates (λ _. true) p.replicas) cs
  get_node_ids_by_client_type least_connection p cs =
      let l = measure_all p.replicas (record { least_suc = 0; most = 2 ^ 32; least_id = 0 }) in
      if ltb 11 l.least_suc
      then (some l.least_id, cs)
      else next p.id (candidates (λ _. true) p.replicas) cs
  get_node_ids_by_client_type nearest_connection p cs = elim (nearest true p.replicas) [
    | [] ↦ next p.id (nearest false p.replicas) cs
    | x ∷ xs ↦ next p.id (x ∷ xs) cs
  ]
  get_node_ids_by_client_type other p cs = next p.id (candidates (λ _. true) p.replicas) cs
