-- ===== src/Space/Placement/Least.antt =====
-- Without an anti-affinity strategy, selectServersForPartition takes the least loaded servers that answer.
use vearch.Prelude.{
  ℕ, zero, suc, ◌≤◌, All-perm, ◌-◌, ◌^◌, ◌<◌, String, List, [], ◌∷◌, ◌++◌, map, Bool, true, false,
  Bool-cases, inl, inr, none, some, ok, err, ErrorEnum, done, if◌then◌else◌, ltb, ◌==◌, get_elem?,
  get_elem?-lt, length, take, All, arith, ◌≡◌, refl, sym, ◌∙◌,
}
use mathlib.Core.List.{Permᴰ, append_assoc, append-nil}
use vearch.Space.Placement.{
  Server, Counts, Selection, zone_of, is_picked, pick_server, pass_server, select_loop, enough,
  select_servers_for_partition, Sort, has_fewer,
}

-- The servers of the pairs that answer, in the order of the pairs.
abbrev pub live_servers : (String → Bool) → List Server → List (ℕ × ℕ) → List Server
live_servers is_live servers [] = []
live_servers is_live servers ((i, n) ∷ pairs) =
    let rest = live_servers is_live servers pairs in
    elim (get_elem? servers i) [
      | none ↦ rest
      | some s ↦ if is_live s.rpc_addr then s ∷ rest else rest
    ]

-- Every pair is the index of a server.
abbrev pub Indexed : List Server → List (ℕ × ℕ) → Type 0
Indexed servers pairs = All (λ p. p.0 < length servers) pairs

module _ (is_live : String → Bool) (servers : List Server) where
  -- A run that has taken `chosen` servers, and has `left` replicas to place.
  record Took (chosen : List Server) (left : ℕ) (st end : Selection) : Type 0 where
    addresses : end.addresses ≡ st.addresses ++ map (λ s. s.rpc_addr) chosen
    replicas : end.replicas ≡ st.replicas ++ map (λ s. s.id) chosen
    counted : end.replica_count ≡ left

  picked_0 : (s : Server) (st : Selection) → is_picked is_live 0 s st ≡ is_live s.rpc_addr
  unfolding is_picked zone_of
  picked_0 s st = ground arith

  pick-count :
      (s : Server) (i n : ℕ) (st : Selection)
      → 0 < st.replica_count
      → st.replica_count < 2 ^ 8
      → (pick_server is_live 0 s i n st).replica_count ≡ st.replica_count - 1
  unfolding pick_server
  pick-count s i n st l u = omega arith

  pick-Took :
      (s : Server) (i n left : ℕ) (chosen : List Server) (st end : Selection)
      → Took chosen left (pick_server is_live 0 s i n st) end
      → Took (s ∷ chosen) left st end
  unfolding pick_server
  pick-Took s i n left chosen st end r = record {
    addresses =
        r.addresses ∙ append_assoc st.addresses (s.rpc_addr ∷ []) (map (λ t. t.rpc_addr) chosen);
    replicas = r.replicas ∙ append_assoc st.replicas (s.id ∷ []) (map (λ t. t.id) chosen);
    counted = r.counted;
  }

  pass-Took :
      (s : Server) (i n left : ℕ) (chosen : List Server) (st end : Selection)
      → Took chosen left (pass_server is_live 0 s i n st) end
      → Took chosen left st end
  unfolding pass_server
  pass-Took s i n left chosen st end r = record {
    addresses = r.addresses;
    replicas = r.replicas;
    counted = r.counted;
  }

  pass-count :
      (s : Server) (i n : ℕ) (st : Selection)
      → (pass_server is_live 0 s i n st).replica_count ≡ st.replica_count
  unfolding pass_server
  pass-count s i n st = refl

  none-Took : (st : Selection) (k : ℕ) → st.replica_count ≡ k → Took [] k st st
  none-Took st k e = record {
    addresses = sym (append-nil st.addresses);
    replicas = sym (append-nil st.replicas);
    counted = e;
  }

  live_servers-step :
      (i n : ℕ) (pairs : List (ℕ × ℕ)) (s : Server)
      → get_elem? servers i ≡ some s
      → live_servers is_live servers ((i, n) ∷ pairs) ≡ (
          if is_live s.rpc_addr
          then s ∷ live_servers is_live servers pairs
          else live_servers is_live servers pairs)
  live_servers-step i n pairs s e = ground arith

  select_loop-step :
      (i n : ℕ) (pairs : List (ℕ × ℕ)) (st : Selection) (s : Server)
      → get_elem? servers i ≡ some s
      → select_loop is_live 0 servers ((i, n) ∷ pairs) st ≡ (
          if is_live s.rpc_addr
          then (if (pick_server is_live 0 s i n st).replica_count == 0
              then done (pick_server is_live 0 s i n st)
              else select_loop is_live 0 servers pairs (pick_server is_live 0 s i n st))
          else select_loop is_live 0 servers pairs (pass_server is_live 0 s i n st))
  unfolding select_loop
  select_loop-step i n pairs st s e = let k = picked_0 s st in ground arith

  -- One server that answers is taken; the rest of the run, where there is one, is given.
  taken :
      (i n : ℕ) (pairs : List (ℕ × ℕ)) (st : Selection) (s : Server) (k : ℕ)
      → is_live s.rpc_addr ≡ true
      → select_loop is_live 0 servers ((i, n) ∷ pairs) st ≡ (
          if is_live s.rpc_addr
          then (if (pick_server is_live 0 s i n st).replica_count == 0
              then done (pick_server is_live 0 s i n st)
              else select_loop is_live 0 servers pairs (pick_server is_live 0 s i n st))
          else select_loop is_live 0 servers pairs (pass_server is_live 0 s i n st))
      → live_servers is_live servers ((i, n) ∷ pairs) ≡ (
          if is_live s.rpc_addr
          then s ∷ live_servers is_live servers pairs
          else live_servers is_live servers pairs)
      → st.replica_count ≡ suc k
      → suc k < 2 ^ 8
      → ((j : ℕ)
          → (pick_server is_live 0 s i n st).replica_count ≡ suc j
          → suc j < 2 ^ 8
          → (end : Selection) × (select_loop is_live 0 servers pairs
                (pick_server is_live 0 s i n st)
              ≡ done end)
            × Took
                (take (suc j) (live_servers is_live servers pairs))
                (suc j - length (live_servers is_live servers pairs))
                (pick_server is_live 0 s i n st)
                end)
      → (end : Selection) × (select_loop is_live 0 servers ((i, n) ∷ pairs) st ≡ done end)
        × Took
            (take (suc k) (live_servers is_live servers ((i, n) ∷ pairs)))
            (suc k - length (live_servers is_live servers ((i, n) ∷ pairs)))
            st
            end
  taken i n pairs st s zero on step live l u next =
      let now = pick_server is_live 0 s i n st in
      let count : now.replica_count ≡ 0 =
        pick-count s i n st (omega arith) (omega arith) ∙ omega arith in
      (
        now,
        step ∙ rw (on, count) refl,
        rw (live, on)
            (let z : 1 - suc (length (live_servers is_live servers pairs)) ≡ 0 = omega arith in
              rw (z) (pick-Took s i n 0 [] st now (none-Took now 0 count))),
      )
  taken i n pairs st s (suc k) on step live l u next =
      let count : (pick_server is_live 0 s i n st).replica_count ≡ suc k =
        pick-count s i n st (omega arith) (omega arith) ∙ omega arith in
      let r = next k count (omega arith) in
      let more : ((pick_server is_live 0 s i n st).replica_count == 0) ≡ false = ground arith in
      let less : suc (suc k) - suc (length (live_servers is_live servers pairs))
          ≡ suc k - length (live_servers is_live servers pairs) =
        omega arith in
      (r.0, step ∙ rw (on, more) r.1, rw (live, on, less) (pick-Took s i n _ _ st r.0 r.2))

  -- The loop takes the servers that answer, in order, until enough are taken.
  select_loop-Took :
      (pairs : List (ℕ × ℕ)) (st : Selection) (k : ℕ)
      → st.replica_count ≡ suc k
      → suc k < 2 ^ 8
      → Indexed servers pairs
      → (end : Selection) × (select_loop is_live 0 servers pairs st ≡ done end)
        × Took
            (take (suc k) (live_servers is_live servers pairs))
            (suc k - length (live_servers is_live servers pairs))
            st
            end
  select_loop-Took [] st k l u x =
      (st, unfold select_loop in refl, none-Took st (suc k - 0) (l ∙ omega arith))
  select_loop-Took ((i, n) ∷ pairs) st k l u x =
      let at = get_elem?-lt servers i x.0 in
      let s = at.0 in
      let step = select_loop-step i n pairs st s at.1 in
      let live = live_servers-step i n pairs s at.1 in
      elim (Bool-cases (is_live s.rpc_addr)) [
        | inr off ↦
            let next = pass_server is_live 0 s i n st in
            let r = select_loop-Took pairs next k (pass-count s i n st ∙ l) u x.1 in
            (r.0, step ∙ rw (off) r.1, rw (live, off) (pass-Took s i n _ _ st r.0 r.2))
        | inl on ↦
            taken i n pairs st s k on step live l u
              (λ j e v. select_loop-Took pairs (pick_server is_live 0 s i n st) j e v x.1)
      ]

-- The counts do not decrease along the pairs.
abbrev pub Ascending : List (ℕ × ℕ) → Type 0
Ascending [] = Unit
Ascending (p ∷ pairs) = All (λ q. p.1 ≤ q.1) pairs × Ascending pairs

-- What sort.Slice promises: no element is less than one before it.
abbrev pub IsSortedBy : (ℕ × ℕ → ℕ × ℕ → Bool) → List (ℕ × ℕ) → Type 0
IsSortedBy less [] = Unit
IsSortedBy less (p ∷ pairs) = All (λ q. less q p ≡ false) pairs × IsSortedBy less pairs

none_fewer :
    (p : ℕ × ℕ) (pairs : List (ℕ × ℕ))
    → All (λ q. has_fewer q p ≡ false) pairs
    → All (λ q. p.1 ≤ q.1) pairs
unfolding has_fewer
none_fewer p [] h = tt
none_fewer p (q ∷ pairs) h = (let f = h.0 in ground (arith, f), none_fewer p pairs h.1)

IsSortedBy-Ascending : (pairs : List (ℕ × ℕ)) → IsSortedBy has_fewer pairs → Ascending pairs
IsSortedBy-Ascending [] h = tt
IsSortedBy-Ascending (p ∷ pairs) h = (none_fewer p pairs h.0, IsSortedBy-Ascending pairs h.1)

module _ (is_live : String → Bool) (servers : List Server) where
  -- With no anti-affinity strategy, selectServersForPartition goes through the servers with their counts in some order
  -- in which the counts do not decrease, takes the first n that answer, and answers with an error exactly where
  -- fewer than n do; it does not panic. Conditions: 1 to 255 replicas are asked for, the counts are those of servers,
  -- and sort.Slice gives the counts in another order in which none is less, by the order it is given, than one before.
  pub select_servers_for_partition-least :
      (sort : Sort) (counts : Counts) (n : ℕ)
      → 0 < n
      → n < 2 ^ 8
      → Indexed servers counts
      → Permᴰ counts (sort has_fewer counts)
      → IsSortedBy has_fewer (sort has_fewer counts)
      → (pairs : List (ℕ × ℕ)) × Permᴰ counts pairs
        × Ascending pairs
        × (end : Selection) × (select_servers_for_partition is_live 0 sort servers counts n
            ≡ done (
              if ltb (length (live_servers is_live servers pairs)) n
                  then err ErrorEnum.master_ps_not_enough_select
                  else ok (map (λ s. s.rpc_addr) (take n (live_servers is_live servers pairs))),
              end,
            ))
        × (end.replicas ≡ map (λ s. s.id) (take n (live_servers is_live servers pairs)))
  unfolding select_servers_for_partition enough
  select_servers_for_partition-least sort counts zero l u x o a = absurd (omega arith)
  select_servers_for_partition-least sort counts (suc k) l u x o a =
      let pairs = sort has_fewer counts in
      let start : Selection = record {
        counts = counts;
        zones = [];
        addresses = [];
        replicas = [];
        replica_count = suc k;
      } in
      let inside = All-perm (λ p. p.0 < length servers) o x in
      let r = select_loop-Took is_live servers pairs start k refl u inside in
      let left : ltb 0 r.0.replica_count
          ≡ ltb (length (live_servers is_live servers pairs)) (suc k) =
        rw (r.2.counted) (ground arith) in
      (
        pairs,
        o,
        IsSortedBy-Ascending pairs a,
        r.0,
        rw (r.1, left, r.2.addresses) refl,
        r.2.replicas,
      )
