-- ===== src/Space/Placement.antt =====
-- Where the replicas of a new partition go: filterAndSortServer and selectServersForPartition of
-- internal/master/services/space_service.go. The servers that answer are a parameter, and so is
-- sort.Slice, which leaves the order of equal counts open.
pub mod Selected
pub mod Least
pub mod Candidates
use vearch.Prelude.{
  ℕ, ◌+◌, ◌-◌, ◌%◌, ◌^◌, String, List, [], ◌∷◌, ◌++◌, Bool, true, false, ◌&&◌, not, Option, none,
  some, Result, ok, err, ErrorEnum, Outcome, done, panic, and_then, if◌then◌else◌, has_str, str_eq,
  ltb, ◌==◌, get_elem?,
}
use vearch.Prelude.Assoc.{lookup, insert}
use vearch.Space.Model.{Partition}

-- entity.Server
pub record Server : Type 0 where
  pub id : ℕ  -- uint64
  pub ip : String
  pub rpc_addr : String  -- what RpcAddr answers
  pub host_ip : String
  pub host_rack : String
  pub host_zone : String
  pub resource_name : String
  pub private : Bool

-- serverPartitionCounts and serverIndexMap: maps with numbers as keys
abbrev pub Counts : Type 0
Counts = List (ℕ × ℕ)

unfoldable pub count_of : ℕ → Counts → Option ℕ
count_of k [] = none
count_of k ((j, n) ∷ m) = if j == k then some n else count_of k m

unfoldable pub put_count : ℕ → ℕ → Counts → Counts
put_count k n [] = (k, n) ∷ []
put_count k n ((j, p) ∷ m) = if j == k then (k, n) ∷ m else (j, p) ∷ put_count k n m

-- The loop of filterAndSortServer over the servers of a database without servers of its own: the counts and the
-- index of each server, from the index `i` on.
unfoldable pub public_servers : String → ℕ → List Server → Counts × Counts → Counts × Counts
public_servers resource i [] maps = maps
public_servers resource i (s ∷ servers) maps =
    let here =
      if str_eq s.resource_name resource && not s.private
      then (put_count i 0 maps.0, put_count s.id i maps.1)
      else maps in
    public_servers resource (i + 1) servers here

-- allowedServersMap[ip], false for a key that is missing
unfoldable pub is_allowed : String → List (String × Bool) → Bool
is_allowed ip allowed = elim (lookup ip allowed) [ none ↦ false | some b ↦ b ]

-- The same for the servers of a database: a server of another resource forbids its address to those after it.
unfoldable pub own_servers :
    String → ℕ → List Server → List (String × Bool) → Counts × Counts → Counts × Counts
own_servers resource i [] allowed maps = maps
own_servers resource i (s ∷ servers) allowed maps =
    let same = str_eq s.resource_name resource in
    let allowed_after = if same then allowed else insert s.ip false allowed in
    let here =
      if same && is_allowed s.ip allowed
      then (put_count i 0 maps.0, put_count s.id i maps.1)
      else maps in
    own_servers resource (i + 1) servers allowed_after here

abbrev pub allow_all : List String → List (String × Bool) → List (String × Bool)
allow_all [] allowed = allowed
allow_all (ip ∷ ips) allowed = allow_all ips (insert ip true allowed)

-- counts[i] + 1, where a key that is missing counts as 0
unfoldable pub bumped : Option ℕ → ℕ
bumped none = 1
bumped (some n) = n + 1

unfoldable pub bump : Option ℕ → Counts → Counts
bump none counts = counts
bump (some i) counts = put_count i (bumped (count_of i counts)) counts

-- The loops over the replicas of all partitions of all spaces, as one list.
unfoldable pub count_replicas : Counts → List ℕ → Counts → Counts
count_replicas index_map [] counts = counts
count_replicas index_map (node ∷ nodes) counts =
    count_replicas index_map nodes (bump (count_of node index_map) counts)

-- `ps` are the addresses of the database, `replicas` those of all partitions of all spaces.
unfoldable pub filter_and_sort_server : List String → String → List Server → List ℕ → Counts
filter_and_sort_server [] resource servers replicas =
    let maps = public_servers resource 0 servers ([], []) in count_replicas maps.1 replicas maps.0
filter_and_sort_server (p ∷ ps) resource servers replicas =
    let maps = own_servers resource 0 servers (allow_all (p ∷ ps) []) ([], []) in
    count_replicas maps.1 replicas maps.0

-- What the loop of selectServersForPartition changes.
pub record Selection : Type 0 where
  pub counts : Counts
  pub zones : List String  -- the keys of zoneUsageCount
  pub addresses : List String
  pub replicas : List ℕ
  pub replica_count : ℕ  -- uint8

-- zoneIdentifier
unfoldable pub zone_of : ℕ → Server → String
zone_of strategy s =
    if strategy == 1
    then s.host_ip
    else if strategy == 2
    then s.host_rack
    else if strategy == 3
    then s.host_zone
    else ""

-- sort.Slice takes the order it sorts by as an argument.
abbrev pub Sort : Type 0
Sort = (ℕ × ℕ → ℕ × ℕ → Bool) → List (ℕ × ℕ) → List (ℕ × ℕ)

-- The order of the pairs of a server's index and its count of partitions
unfoldable pub has_fewer : ℕ × ℕ → ℕ × ℕ → Bool
has_fewer p q = ltb p.1 q.1

-- The end of the function.
unfoldable pub enough : Selection → Result (List String) × Selection
enough st = (
  if ltb 0 st.replica_count then err ErrorEnum.master_ps_not_enough_select else ok st.addresses,
  st,
)

module _ (is_live : String → Bool) (strategy : ℕ) where
  -- The server answers, and its zone is not used yet.
  unfoldable pub is_picked : Server → Selection → Bool
  is_picked s st =
      is_live s.rpc_addr
      && not (not (str_eq (zone_of strategy s) "") && has_str (zone_of strategy s) st.zones)

  unfoldable pub pick_server : Server → ℕ → ℕ → Selection → Selection
  pick_server s i n st = record {
    counts = bump (some i) st.counts;
    zones = if str_eq (zone_of strategy s) "" then st.zones else zone_of strategy s ∷ st.zones;
    addresses = st.addresses ++ s.rpc_addr ∷ [];
    replicas = st.replicas ++ s.id ∷ [];
    replica_count = (st.replica_count + 2 ^ 8 - 1) % 2 ^ 8;
  }

  unfoldable pub pass_server : Server → ℕ → ℕ → Selection → Selection
  pass_server s i n st = record st {
    counts = if is_live s.rpc_addr then st.counts else put_count i n st.counts;
  }

  unfoldable pub select_loop : List Server → List (ℕ × ℕ) → Selection → Outcome Selection
  select_loop servers [] st = done st
  select_loop servers ((i, n) ∷ pairs) st = elim (get_elem? servers i) [
    | none ↦ panic
    | some s ↦
        let picked = is_picked s st in
        let after = if picked then pick_server s i n st else pass_server s i n st in
        let rest = select_loop servers pairs after in
        if picked && (after.replica_count == 0) then done after else rest
  ]

  unfoldable pub select_servers_for_partition :
      Sort → List Server → Counts → ℕ → Outcome (Result (List String) × Selection)
  select_servers_for_partition sort servers counts replica_count =
      and_then
        (select_loop servers (sort has_fewer counts) (record {
          counts = counts;
          zones = [];
          addresses = [];
          replicas = [];
          replica_count = replica_count;
        }))
        (λ st. done (enough st))
