-- ===== src/Space/Placement/Selected.antt =====
-- Which servers selectServersForPartition selects.
use vearch.Prelude.{
  ℕ, ◌+◌, ◌-◌, ◌^◌, ◌<◌, String, List, [], ◌∷◌, ◌++◌, map, Bool, true, false, Bool-cases, inl, inr,
  ◌⊎◌, Option-cases, ok, Outcome, done, panic, failed, out_of_fuel, and_then, if◌then◌else◌,
  has_str, str_eq, eq_iff, ltb, ◌==◌, get_elem?, length, All, arith, ◌≡◌, refl, sym, ap, ◌∙◌,
}
use mathlib.Core.List.{append_assoc, append-nil}
use mathlib.Core.Path.{subst}
use vearch.Space.Placement.{
  Server, Counts, Selection, zone_of, is_picked, pick_server, pass_server, select_loop, enough,
  select_servers_for_partition, Sort, has_fewer,
}

-- No zone holds two of the servers, and none of the zones given; the empty zone is no zone.
abbrev pub Apart : ℕ → List String → List Server → Type 0
Apart strategy zones [] = Unit
Apart strategy zones (s ∷ ss) =
    ((zone_of strategy s ≡ "") ⊎ (has_str (zone_of strategy s) zones ≡ false))
    × Apart strategy (if str_eq (zone_of strategy s) "" then zones else zone_of strategy s ∷ zones)
        ss

-- A run with an answer has ended with no replica left to place.
run-done :
    (run : Outcome Selection) (addresses : List String) (end : Selection)
    → and_then run (λ st. done (enough st)) ≡ done (ok addresses, end)
    → (run ≡ done end) × (addresses ≡ end.addresses) × (end.replica_count ≡ 0)
unfolding enough
run-done (done st) addresses end h = elim (Bool-cases (ltb 0 st.replica_count)) [
  | inl b ↦ absurd (ground arith)
  | inr b ↦
      let same : st ≡ end = ground arith in
      (ap done same, ground arith, subst (λ e. e.replica_count ≡ 0) same (ground arith))
]
run-done (failed e) addresses end h = absurd cc
run-done panic addresses end h = absurd cc
run-done out_of_fuel addresses end h = absurd cc

module _ (is_live : String → Bool) (strategy : ℕ) (servers : List Server) where
  -- What the servers that a run selects have in common, from the selection `st` to `end`.
  record Selected (chosen : List Server) (st end : Selection) : Type 0 where
    addresses : end.addresses ≡ st.addresses ++ map (λ s. s.rpc_addr) chosen
    replicas : end.replicas ≡ st.replicas ++ map (λ s. s.id) chosen
    counted : length chosen + end.replica_count ≡ st.replica_count
    live : All (λ s. is_live s.rpc_addr ≡ true) chosen
    apart : Apart strategy st.zones chosen

  none-Selected : (st : Selection) → Selected [] st st
  none-Selected st = record {
    addresses = sym (append-nil st.addresses);
    replicas = sym (append-nil st.replicas);
    counted = omega arith;
    live = tt;
    apart = tt;
  }

  is_picked-live :
      (s : Server) (st : Selection)
      → is_picked is_live strategy s st ≡ true
      → (is_live s.rpc_addr ≡ true)
        × ((zone_of strategy s ≡ "") ⊎ (has_str (zone_of strategy s) st.zones ≡ false))
  unfolding is_picked
  is_picked-live s st h = let z = eq_iff (zone_of strategy s) "" in ground arith

  picked-Selected :
      (s : Server) (i n : ℕ) (chosen : List Server) (st end : Selection)
      → 0 < st.replica_count
      → st.replica_count < 2 ^ 8
      → is_picked is_live strategy s st ≡ true
      → Selected chosen (pick_server is_live strategy s i n st) end
      → Selected (s ∷ chosen) st end
  unfolding pick_server
  picked-Selected s i n chosen st end l u h r =
      let p = is_picked-live s st h in
      record {
        addresses =
            r.addresses
            ∙ append_assoc st.addresses (s.rpc_addr ∷ []) (map (λ t. t.rpc_addr) chosen);
        replicas = r.replicas ∙ append_assoc st.replicas (s.id ∷ []) (map (λ t. t.id) chosen);
        counted = (let c = r.counted in omega arith);
        live = (p.0, r.live);
        apart = (p.1, r.apart);
      }

  -- A server that is passed changes nothing that is compared here.
  pass-Selected :
      (s : Server) (i n : ℕ) (chosen : List Server) (st end : Selection)
      → Selected chosen (pass_server is_live strategy s i n st) end
      → Selected chosen st end
  unfolding pass_server
  pass-Selected s i n chosen st end r = record {
    addresses = r.addresses;
    replicas = r.replicas;
    counted = r.counted;
    live = r.live;
    apart = r.apart;
  }

  pass-count :
      (s : Server) (i n : ℕ) (st : Selection)
      → (pass_server is_live strategy s i n st).replica_count ≡ st.replica_count
  unfolding pass_server
  pass-count s i n st = refl

  pick-count :
      (s : Server) (i n : ℕ) (st : Selection)
      → 0 < st.replica_count
      → st.replica_count < 2 ^ 8
      → (pick_server is_live strategy s i n st).replica_count ≡ st.replica_count - 1
  unfolding pick_server
  pick-count s i n st l u = omega arith

  select_loop-Selected :
      (pairs : List (ℕ × ℕ)) (st end : Selection)
      → 0 < st.replica_count
      → st.replica_count < 2 ^ 8
      → select_loop is_live strategy servers pairs st ≡ done end
      → (chosen : List Server) × Selected chosen st end
  unfolding select_loop
  select_loop-Selected [] st end l u h =
      let same : st ≡ end = cc in ([], subst (λ e. Selected [] st e) same (none-Selected st))
  select_loop-Selected ((i, n) ∷ pairs) st end l u h = elim (Option-cases (get_elem? servers i)) [
    | inl e ↦ absurd (ground arith)
    | inr (s, e) ↦ elim (Bool-cases (is_picked is_live strategy s st)) [
      | inr k ↦
          let next = pass_server is_live strategy s i n st in
          let count = pass-count s i n st in
          let r =
            select_loop-Selected pairs next end (rw (count) l) (rw (count) u) (ground arith) in
          (r.0, pass-Selected s i n r.0 st end r.1)
      | inl k ↦
          let next = pick_server is_live strategy s i n st in
          let count = pick-count s i n st l u in
          elim (Bool-cases (next.replica_count == 0)) [
            | inl z ↦
                let same : next ≡ end = ground arith in
                (
                  s ∷ [],
                  picked-Selected s i n [] st end l u k
                      (subst (λ e. Selected [] next e) same (none-Selected next)),
                )
            | inr z ↦
                let r =
                  select_loop-Selected pairs next end (ground arith) (rw (count) (omega arith))
                    (ground arith) in
                (s ∷ r.0, picked-Selected s i n r.0 st end l u k r.1)
          ]
    ]
  ]

  -- Where selectServersForPartition answers without an error, it has selected as many servers as replicas were
  -- asked for: their addresses are the answer and their ids the replicas of the partition, each of
  -- them answers, and no zone of the strategy holds two. Conditions: 1 to 255 replicas are asked for.
  pub select_servers_for_partition-Apart :
      (sort : Sort) (counts : Counts) (n : ℕ) (addresses : List String) (end : Selection)
      → 0 < n
      → n < 2 ^ 8
      → select_servers_for_partition is_live strategy sort servers counts n
        ≡ done (ok addresses, end)
      → (chosen : List Server) × (addresses ≡ map (λ s. s.rpc_addr) chosen)
        × (end.replicas ≡ map (λ s. s.id) chosen)
        × (length chosen ≡ n)
        × All (λ s. is_live s.rpc_addr ≡ true) chosen
        × Apart strategy [] chosen
  unfolding select_servers_for_partition enough
  select_servers_for_partition-Apart sort counts n addresses end l u h =
      let start : Selection = record {
        counts = counts;
        zones = [];
        addresses = [];
        replicas = [];
        replica_count = n;
      } in
      let run =
        run-done (select_loop is_live strategy servers (sort has_fewer counts) start) addresses end
          h in
      let r = select_loop-Selected (sort has_fewer counts) start end l u run.0 in
      (
        r.0,
        run.1 ∙ r.1.addresses,
        r.1.replicas,
        (let c = r.1.counted in let z = run.2 in omega arith),
        r.1.live,
        r.1.apart,
      )
