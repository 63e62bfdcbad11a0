-- ===== src/Router/Replica/Choice.antt =====
-- GetNodeIdsByClientType sends a request only to a replica that may serve it.
use vearch.Prelude.{
  ℕ, suc, ◌^◌, ◌<◌, List, [], ◌∷◌, Option, none, some, ◌==◌, Bool, true, false, not, length,
  get_elem?-lt, All, All-get_elem?, ◌≡◌, ◌≢◌, refl, arith, inl, inr, ◌⊎◌, ltb, Bool-cases, has_num,
}
use vearch.Space.Model.{Partition}
use vearch.Router.Replica.{
  get_concurrent, Counters, counter_of, step_counter, next, ClientType, leader, not_leader, random,
  least_connection, nearest_connection, other, Server, Cluster, accepts, candidates, measure,
  measure_all, nearest, in_zone, server_id, Load, get_node_ids_by_client_type,
}

-- Next returns an item of a list that is not empty.
pub next_in :
    {P : ℕ → Type 0} (k x : ℕ) (xs : List ℕ) (cs : Counters)
    → All P (x ∷ xs)
    → (n : ℕ) × ((next k (x ∷ xs) cs).0 ≡ some n) × P n
unfolding next
next_in {P} k x xs cs h =
    let (n, e) =
      get_elem?-lt (x ∷ xs) (step_counter (counter_of k cs) (length (x ∷ xs))).0
        (step-lt (counter_of k cs) (length xs)) in
    (n, e, All-get_elem? P (x ∷ xs) (step_counter (counter_of k cs) (length (x ∷ xs))).0 h e)
  where
    step-lt : (o : Option ℕ) (m : ℕ) → (step_counter o (suc m)).0 < suc m
    step-lt none m = unfold step_counter in omega arith
    step-lt (some c) m = unfold step_counter in omega arith

module _ (c : Cluster) where
  open c use {server, test_faulty, raft_consistent, replica_ok, concurrent}

  -- A replica that may serve a request: it is in the cache of servers, under its own id, it is not
  -- faulty, and it is not behind where consistent reads are asked for.
  pub record MayServe (node : ℕ) : Type 0 where
    pub known : (s : Server) × (server node ≡ some s)
    pub healthy : test_faulty node ≡ false
    pub current : (raft_consistent ≡ false) ⊎ (replica_ok node ≡ true)

  accepts-MayServe : (keep : ℕ → Bool) (node : ℕ) → accepts c keep node ≡ true → MayServe node
  unfolding accepts
  accepts-MayServe keep node h = record {
    known = ground arith;
    healthy = ground arith;
    current = ground arith;
  }

  accepts-keep : (keep : ℕ → Bool) (node : ℕ) → accepts c keep node ≡ true → keep node ≡ true
  unfolding accepts
  accepts-keep keep node h = ground arith

  of_MayServe :
      (keep : ℕ → Bool) (node : ℕ) → MayServe node → keep node ≡ true → accepts c keep node ≡ true
  unfolding accepts
  of_MayServe keep node m k = ground (arith, m.known.1, m.healthy, m.current)

  -- A replica of the list that may serve and is kept by the test.
  abbrev pub Good : List ℕ → (ℕ → Bool) → ℕ → Type 0
  Good nodes keep node = (has_num node nodes ≡ true) × MayServe node × (keep node ≡ true)

  Good-cons :
      (node n : ℕ) (nodes : List ℕ) (keep : ℕ → Bool)
      → Good nodes keep n
      → Good (node ∷ nodes) keep n
  Good-cons node n nodes keep (a, b, k) = (ground arith, b, k)

  All-Good :
      (node : ℕ) (nodes : List ℕ) (keep : ℕ → Bool) (xs : List ℕ)
      → All (Good nodes keep) xs
      → All (Good (node ∷ nodes) keep) xs
  All-Good node nodes keep [] h = tt
  All-Good node nodes keep (x ∷ xs) h =
      (Good-cons node x nodes keep h.0, All-Good node nodes keep xs h.1)

  candidates-Good :
      (keep : ℕ → Bool) (nodes : List ℕ) → All (Good nodes keep) (candidates c keep nodes)
  unfolding candidates
  candidates-Good keep [] = tt
  candidates-Good keep (node ∷ nodes) =
      let rest = All-Good node nodes keep (candidates c keep nodes) (candidates-Good keep nodes) in
      elim (Bool-cases (accepts c keep node)) [
        | inl e ↦
            rw e ((ground arith, accepts-MayServe keep node e, accepts-keep keep node e), rest)
        | inr e ↦ rw e rest
      ]

  -- Where some replica is good, there are candidates.
  candidates_some :
      (keep : ℕ → Bool) (nodes : List ℕ) (n : ℕ)
      → Good nodes keep n
      → (x : ℕ) × (xs : List ℕ) × (candidates c keep nodes ≡ x ∷ xs)
  unfolding candidates
  candidates_some keep [] n (a, b, k) = absurd (ground arith)
  candidates_some keep (node ∷ nodes) n (a, b, k) = elim (Bool-cases (accepts c keep node)) [
    | inl e ↦ (node, candidates c keep nodes, rw e refl)
    | inr e ↦ elim (Bool-cases (node == n)) [
      | inl s ↦
          let same : node ≡ n = ground arith in
          absurd (ground (arith, of_MayServe keep n b k, (rw same at e)))
      | inr s ↦
          let (x, xs, f) = candidates_some keep nodes n (ground arith, b, k) in (x, xs, rw e f)
    ]
  ]

  next-candidates :
      (keep : ℕ → Bool) (nodes : List ℕ) (k n : ℕ) (cs : Counters)
      → Good nodes keep n
      → (m : ℕ) × ((next k (candidates c keep nodes) cs).0 ≡ some m) × Good nodes keep m
  next-candidates keep nodes k n cs g =
      let (x, xs, e) = candidates_some keep nodes n g in
      let good : All (Good nodes keep) (x ∷ xs) = rw e at (candidates-Good keep nodes) in
      rw e (next_in {P = Good nodes keep} k x xs cs good)

-- The tests on the kinds of choice that are not a plain list of candidates.
module _ (c : Cluster) where
  open c use {server, test_faulty, raft_consistent, replica_ok, concurrent}

  -- Either nothing was measured yet, or the node with the fewest requests so far is good.
  abbrev Measured : List ℕ → Load → Type 0
  Measured all l = ((l.least_suc ≡ 0) × (l.most ≡ 2 ^ 32)) ⊎ Good c all (λ _. true) l.least_id

  measure-Measured :
      (all : List ℕ) (node : ℕ) (l : Load)
      → get_concurrent (concurrent node) < 2 ^ 32
      → Good c all (λ _. true) node
      → Measured all l
      → Measured all (measure c node l)
  unfolding measure
  measure-Measured all node l b g h =
      elim (Bool-cases (ltb (get_concurrent (concurrent node)) l.most)) [
        | inl e ↦ rw e (inr g)
        | inr e ↦ elim h [ inl (z, m) ↦ absurd (ground arith) | inr k ↦ rw e (inr k) ]
      ]

  measure_all-Measured :
      (all nodes : List ℕ) (l : Load)
      → ((node : ℕ) → get_concurrent (concurrent node) < 2 ^ 32)
      → ((node : ℕ) → has_num node nodes ≡ true → has_num node all ≡ true)
      → Measured all l
      → Measured all (measure_all c nodes l)
  unfolding measure_all
  measure_all-Measured all [] l b i h = h
  measure_all-Measured all (node ∷ nodes) l b i h = elim (Bool-cases (accepts c (λ _. true) node)) [
    | inl e ↦
        let good : Good c all (λ _. true) node =
          (i node (ground arith), accepts-MayServe c (λ _. true) node e, refl) in
        rw (e, measure_all)
          (measure_all-Measured all nodes (measure c node l) b (λ n k. i n (ground arith))
            (measure-Measured all node l (b node) good h))
    | inr e ↦ rw (e, measure_all) (measure_all-Measured all nodes l b (λ n k. i n (ground arith)) h)
  ]

  -- Each server of the cache stands under its own id.
  abbrev pub OwnIds : Type 0
  OwnIds = (node : ℕ) (s : Server) → server node ≡ some s → s.id ≡ node

  in_zone-accepts :
      (same : Bool) (node : ℕ) → in_zone c same node ≡ true → accepts c (λ _. true) node ≡ true
  unfolding in_zone
  in_zone-accepts same node h = ground arith

  server_id-own : (node : ℕ) → OwnIds → MayServe c node → server_id c node ≡ node
  unfolding server_id
  server_id-own node own m = let (s, e) = m.known in rw (e, server_id) (own node s e)

  nearest-Good :
      (same : Bool) (nodes : List ℕ)
      → OwnIds
      → All (Good c nodes (λ _. true)) (nearest c same nodes)
  unfolding nearest
  nearest-Good same [] own = tt
  nearest-Good same (node ∷ nodes) own =
      let rest =
        All-Good c node nodes (λ _. true) (nearest c same nodes) (nearest-Good same nodes own) in
      elim (Bool-cases (in_zone c same node)) [
        | inl t ↦
            let a = in_zone-accepts same node t in
            let m = accepts-MayServe c (λ _. true) node a in
            rw (t, server_id-own node own m) ((ground arith, m, refl), rest)
        | inr t ↦ rw t rest
      ]

  -- A replica that may serve stands in one of the two lists.
  in_zone-either :
      (node : ℕ)
      → accepts c (λ _. true) node ≡ true
      → in_zone c true node ≡ false
      → in_zone c false node ≡ true
  unfolding in_zone accepts
  in_zone-either node a h = ground arith

  nearest_some :
      (nodes : List ℕ) (n : ℕ)
      → Good c nodes (λ _. true) n
      → nearest c true nodes ≡ []
      → (x : ℕ) × (xs : List ℕ) × (nearest c false nodes ≡ x ∷ xs)
  unfolding nearest
  nearest_some [] n (a, m, k) h = absurd (ground arith)
  nearest_some (node ∷ nodes) n (a, m, k) h = elim (Bool-cases (in_zone c false node)) [
    | inl t ↦ (server_id c node, nearest c false nodes, rw t refl)
    | inr t ↦
        let away : in_zone c true node ≡ false = ground arith in
        elim (Bool-cases (node == n)) [
          | inl s ↦
              let same : node ≡ n = ground arith in
              let took : accepts c (λ _. true) node ≡ true =
                rw same (of_MayServe c (λ _. true) n m refl) in
              absurd (ground (arith, in_zone-either node took away))
          | inr s ↦
              let (x, xs, e) = nearest_some nodes n (ground arith, m, refl) (ground arith) in
              (x, xs, rw (t) e)
        ]
  ]

  -- What a client type asks of the replica, beside that it may serve.
  abbrev pub kept : ClientType → Partition → ℕ → Bool
  kept not_leader p node = not (node == p.leader_id)
  kept _ p node = true

  start : Load
  start = record { least_suc = 0; most = 2 ^ 32; least_id = 0 }

  least-Good :
      (p : Partition) (n : ℕ) (cs : Counters)
      → ((node : ℕ) → get_concurrent (concurrent node) < 2 ^ 32)
      → Good c p.replicas (λ _. true) n
      → (m : ℕ) × ((get_node_ids_by_client_type c least_connection p cs).0 ≡ some m)
        × Good c p.replicas (λ _. true) m
  unfolding get_node_ids_by_client_type start
  least-Good p n cs b g = elim (Bool-cases (ltb 11 (measure_all c p.replicas start).least_suc)) [
    | inl busy ↦
        elim (measure_all-Measured p.replicas p.replicas start b (λ _ h. h) (inl (refl, refl))) [
          | inl (z, _) ↦ absurd (ground arith)
          | inr k ↦ ((measure_all c p.replicas start).least_id, rw busy refl, k)
        ]
    | inr idle ↦ rw idle (next-candidates c (λ _. true) p.replicas p.id n cs g)
  ]

  nearest-chosen :
      (p : Partition) (n : ℕ) (cs : Counters)
      → OwnIds
      → Good c p.replicas (λ _. true) n
      → (m : ℕ) × ((get_node_ids_by_client_type c nearest_connection p cs).0 ≡ some m)
        × Good c p.replicas (λ _. true) m
  unfolding get_node_ids_by_client_type
  nearest-chosen p n cs own g = go (nearest c true p.replicas) refl
    where
      go :
          (near : List ℕ)
          → nearest c true p.replicas ≡ near
          → (m : ℕ) × ((get_node_ids_by_client_type c nearest_connection p cs).0 ≡ some m)
            × Good c p.replicas (λ _. true) m
      go [] e =
          let (x, xs, f) = nearest_some p.replicas n g e in
          let good : All (Good c p.replicas (λ _. true)) (x ∷ xs) =
            rw f at (nearest-Good false p.replicas own) in
          let (m, h, k) = next_in {P = Good c p.replicas (λ _. true)} p.id x xs cs good in
          (m, rw (e, get_node_ids_by_client_type, f) h, k)
      go (x ∷ xs) e =
          let good : All (Good c p.replicas (λ _. true)) (x ∷ xs) =
            rw e at (nearest-Good true p.replicas own) in
          let (m, h, k) = next_in {P = Good c p.replicas (λ _. true)} p.id x xs cs good in
          (m, rw (e, get_node_ids_by_client_type) h, k)

  -- Where some replica of the partition may serve (it is in the cache of servers and not faulty, and
  -- it is not behind where reads must be consistent), and for the client type not_leader is not the
  -- leader, a client type other than leader chooses such a replica: no request goes to node 0 or to a
  -- node that may not serve. The cache must hold each server under its own id, and a connection have
  -- fewer than 2^32 - 1 open requests.
  pub get_node_ids_by_client_type-Good :
      (type : ClientType) (p : Partition) (n : ℕ) (cs : Counters)
      → type ≢ leader
      → OwnIds
      → ((node : ℕ) → get_concurrent (concurrent node) < 2 ^ 32)
      → Good c p.replicas (kept type p) n
      → (m : ℕ) × ((get_node_ids_by_client_type c type p cs).0 ≡ some m)
        × Good c p.replicas (kept type p) m
  unfolding get_node_ids_by_client_type
  get_node_ids_by_client_type-Good leader p n cs t own b g = absurd (t refl)
  get_node_ids_by_client_type-Good not_leader p n cs t own b g =
      next-candidates c (λ node. not (node == p.leader_id)) p.replicas p.id n cs g
  get_node_ids_by_client_type-Good random p n cs t own b g =
      next-candidates c (λ _. true) p.replicas p.id n cs g
  get_node_ids_by_client_type-Good least_connection p n cs t own b g = least-Good p n cs b g
  get_node_ids_by_client_type-Good nearest_connection p n cs t own b g = nearest-chosen p n cs own g
  get_node_ids_by_client_type-Good other p n cs t own b g =
      next-candidates c (λ _. true) p.replicas p.id n cs g
