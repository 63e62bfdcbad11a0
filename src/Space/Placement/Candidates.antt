-- ===== src/Space/Placement/Candidates.antt =====
-- Which servers filterAndSortServer leaves to choose from.
use vearch.Prelude.{
  ℕ, suc, ◌+◌, String, List, [], ◌∷◌, Bool, true, false, ◌&&◌, not, Bool-cases, inl, inr, ◌⊎◌,
  Option, none, some, if◌then◌else◌, has_str, str_eq, eq_iff, ◌==◌, get_elem?, All, arith, ◌≡◌,
  refl, sym,
}
use mathlib.Core.Path.{subst}
use vearch.Prelude.Assoc.{insert, lookup-insert}
use vearch.Space.Placement.{
  Server, Counts, count_of, put_count, bump, bumped, public_servers, own_servers, is_allowed,
  allow_all, count_replicas, filter_and_sort_server,
}

-- What the map of allowed addresses allows is allowed by the list it was made of.
allow_all-allowed :
    (ip : String) (ips : List String) (allowed : List (String × Bool))
    → is_allowed ip (allow_all ips allowed) ≡ true
    → (has_str ip ips ≡ true) ⊎ (is_allowed ip allowed ≡ true)
unfolding is_allowed
allow_all-allowed ip [] allowed h = inr h
allow_all-allowed ip (x ∷ ips) allowed h =
    let at = lookup-insert x ip true allowed in
    elim (allow_all-allowed ip ips (insert x true allowed) h) [
      | inl k ↦ inl (ground arith)
      | inr k ↦ ground arith
    ]

forbid-allowed :
    (ip x : String) (allowed : List (String × Bool))
    → is_allowed ip (insert x false allowed) ≡ true
    → is_allowed ip allowed ≡ true
unfolding is_allowed
forbid-allowed ip x allowed h = let at = lookup-insert x ip false allowed in ground arith

allowed-named : (d e n : Bool) → (e ≡ true → n ≡ true) → (d && e) ≡ true → (d && n) ≡ true
allowed-named true e n f h = f h
allowed-named false e n f h = h

-- After one server, nothing is allowed that was not.
still-allowed :
    (same : Bool) (x : String) (ps : List String) (allowed : List (String × Bool))
    → ((ip : String) → is_allowed ip allowed ≡ true → has_str ip ps ≡ true)
    → (ip : String) → is_allowed ip (if same then allowed else insert x false allowed) ≡ true
    → has_str ip ps ≡ true
still-allowed true x ps allowed a ip h = a ip h
still-allowed false x ps allowed a ip h = a ip (forbid-allowed ip x allowed h)

no_key : (ip : String) → is_allowed ip [] ≡ true → ⊥
unfolding is_allowed
no_key ip h = cc

module _ (P : ℕ → Type 0) where
  -- Every key of the counts, and every value of the index, satisfies P.
  abbrev Keys : Counts → Type 0
  Keys m = All (λ e. P e.0) m

  abbrev Values : Counts → Type 0
  Values m = All (λ e. P e.1) m

  put_count-Keys : (k n : ℕ) (m : Counts) → P k → Keys m → Keys (put_count k n m)
  unfolding put_count
  put_count-Keys k n [] p h = (p, tt)
  put_count-Keys k n ((j, q) ∷ m) p h = elim (Bool-cases (j == k)) [
    | inl e ↦ rw (e) (p, h.1)
    | inr e ↦ rw (e) (h.0, put_count-Keys k n m p h.1)
  ]

  put_count-Values : (k n : ℕ) (m : Counts) → P n → Values m → Values (put_count k n m)
  unfolding put_count
  put_count-Values k n [] p h = (p, tt)
  put_count-Values k n ((j, q) ∷ m) p h = elim (Bool-cases (j == k)) [
    | inl e ↦ rw (e) (p, h.1)
    | inr e ↦ rw (e) (h.0, put_count-Values k n m p h.1)
  ]

  count_of-Values : (k n : ℕ) (m : Counts) → Values m → count_of k m ≡ some n → P n
  unfolding count_of
  count_of-Values k n [] h e = absurd cc
  count_of-Values k n ((j, q) ∷ m) h e = elim (Bool-cases (j == k)) [
    | inl s ↦ let same : q ≡ n = ground arith in subst P same h.0
    | inr s ↦ count_of-Values k n m h.1 (ground arith)
  ]

  bump-Keys :
      (o : Option ℕ) (counts : Counts)
      → ((i : ℕ) → o ≡ some i → P i)
      → Keys counts
      → Keys (bump o counts)
  unfolding bump
  bump-Keys none counts p h = h
  bump-Keys (some i) counts p h = put_count-Keys i (bumped (count_of i counts)) counts (p i refl) h

  count_replicas-Keys :
      (index : Counts) (nodes : List ℕ) (counts : Counts)
      → Values index
      → Keys counts
      → Keys (count_replicas index nodes counts)
  unfolding count_replicas
  count_replicas-Keys index [] counts v h = h
  count_replicas-Keys index (node ∷ nodes) counts v h =
      count_replicas-Keys index nodes (bump (count_of node index) counts) v
        (bump-Keys (count_of node index) counts (λ i e. count_of-Values node i index v e) h)

  -- One server put into the maps, or not.
  put_server-Keys :
      (b : Bool) (i id : ℕ) (maps : Counts × Counts)
      → (b ≡ true → P i)
      → Keys maps.0
      → Values maps.1
      → Keys (if b then (put_count i 0 maps.0, put_count id i maps.1) else maps).0
        × Values (if b then (put_count i 0 maps.0, put_count id i maps.1) else maps).1
  put_server-Keys true i id maps p h v =
      (put_count-Keys i 0 maps.0 (p refl) h, put_count-Values id i maps.1 (p refl) v)
  put_server-Keys false i id maps p h v = (h, v)

  first :
      (test : Server → Bool) (i : ℕ) (s : Server) (servers : List Server)
      → ((j : ℕ) (t : Server) → get_elem? (s ∷ servers) j ≡ some t → test t ≡ true → P (i + j))
      → test s ≡ true
      → P i
  first test i s servers p f = let x : i + 0 ≡ i = omega arith in subst P x (p 0 s refl f)

  -- The servers from one place on, counted from there.
  shifted :
      (test : Server → Bool) (i : ℕ) (s : Server) (servers : List Server)
      → ((j : ℕ) (t : Server) → get_elem? (s ∷ servers) j ≡ some t → test t ≡ true → P (i + j))
      → (j : ℕ) (t : Server) → get_elem? servers j ≡ some t
      → test t ≡ true
      → P (i + 1 + j)
  shifted test i s servers p j t e f =
      let x : i + suc j ≡ i + 1 + j = omega arith in subst P x (p (suc j) t e f)

  public_servers-Keys :
      (resource : String) (i : ℕ) (servers : List Server) (maps : Counts × Counts)
      → ((j : ℕ) (s : Server)
          → get_elem? servers j ≡ some s
          → (str_eq s.resource_name resource && not s.private) ≡ true
          → P (i + j))
      → Keys maps.0
      → Values maps.1
      → Keys (public_servers resource i servers maps).0
        × Values (public_servers resource i servers maps).1
  unfolding public_servers
  public_servers-Keys resource i [] maps p h v = (h, v)
  public_servers-Keys resource i (s ∷ servers) maps p h v =
      let later = shifted (λ t. str_eq t.resource_name resource && not t.private) i s servers p in
      let test = λ (t : Server). str_eq t.resource_name resource && not t.private in
      let here = put_server-Keys (test s) i s.id maps (first test i s servers p) h v in
      public_servers-Keys resource (i + 1) servers
        (if test s then (put_count i 0 maps.0, put_count s.id i maps.1) else maps) later here.0
        here.1

  own_servers-Keys :
      (resource : String) (ps : List String) (i : ℕ) (servers : List Server)
      (allowed : List (String × Bool)) (maps : Counts × Counts)
      → ((ip : String) → is_allowed ip allowed ≡ true → has_str ip ps ≡ true)
      → ((j : ℕ) (s : Server)
          → get_elem? servers j ≡ some s
          → (str_eq s.resource_name resource && has_str s.ip ps) ≡ true
          → P (i + j))
      → Keys maps.0
      → Values maps.1
      → Keys (own_servers resource i servers allowed maps).0
        × Values (own_servers resource i servers allowed maps).1
  unfolding own_servers
  own_servers-Keys resource ps i [] allowed maps a p h v = (h, v)
  own_servers-Keys resource ps i (s ∷ servers) allowed maps a p h v =
      let later = shifted (λ t. str_eq t.resource_name resource && has_str t.ip ps) i s servers p in
      let same = str_eq s.resource_name resource in
      let test = λ (t : Server). str_eq t.resource_name resource && has_str t.ip ps in
      let chosen = same && is_allowed s.ip allowed in
      let named : (chosen ≡ true → test s ≡ true) =
        λ e. allowed-named same (is_allowed s.ip allowed) (has_str s.ip ps) (a s.ip) e in
      let here = put_server-Keys chosen i s.id maps (λ e. first test i s servers p (named e)) h v in
      own_servers-Keys resource ps (i + 1) servers
        (if same then allowed else insert s.ip false allowed)
        (if chosen then (put_count i 0 maps.0, put_count s.id i maps.1) else maps)
        (still-allowed same s.ip ps allowed a) later here.0 here.1

-- Where the database names no servers, the server is not private; where it does, it is one of them.
abbrev pub IsPermitted : List String → Server → Type 0
IsPermitted [] s = s.private ≡ false
IsPermitted (p ∷ ps) s = has_str s.ip (p ∷ ps) ≡ true

-- A server that may hold partitions of a space: it has the space's resource and is permitted.
abbrev pub MayHold : List String → String → List Server → ℕ → Type 0
MayHold ps resource servers i =
    (s : Server) × (get_elem? servers i ≡ some s) × (s.resource_name ≡ resource) × IsPermitted ps s

-- Every server that filterAndSortServer leaves to choose from is a server of the list with the resource of the
-- space; it is not private where the database names no servers, and one of those it names where it names some. No
-- count of another is kept.
pub filter_and_sort_server-MayHold :
    (ps : List String) (resource : String) (servers : List Server) (replicas : List ℕ)
    → All
        (λ e. MayHold ps resource servers e.0)
        (filter_and_sort_server ps resource servers replicas)
unfolding filter_and_sort_server
filter_and_sort_server-MayHold [] resource servers replicas =
    let P = MayHold [] resource servers in
    let maps = public_servers resource 0 servers ([], []) in
    let ks =
      public_servers-Keys P resource 0 servers ([], [])
        (λ j s e f.
          let x : 0 + j ≡ j = omega arith in
          subst P (sym x) (s, e, (eq_iff s.resource_name resource).0 (ground arith), ground arith))
        tt tt in
    count_replicas-Keys P maps.1 replicas maps.0 ks.1 ks.0
filter_and_sort_server-MayHold (q ∷ ps) resource servers replicas =
    let P = MayHold (q ∷ ps) resource servers in
    let allowed = allow_all (q ∷ ps) [] in
    let maps = own_servers resource 0 servers allowed ([], []) in
    let ks =
      own_servers-Keys P resource (q ∷ ps) 0 servers allowed ([], [])
        (λ ip e. elim (allow_all-allowed ip (q ∷ ps) [] e) [
          | inl k ↦ k
          | inr k ↦ absurd (no_key ip k)
        ])
        (λ j s e f.
          let x : 0 + j ≡ j = omega arith in
          subst P (sym x) (s, e, (eq_iff s.resource_name resource).0 (ground arith), ground arith))
        tt tt in
    count_replicas-Keys P maps.1 replicas maps.0 ks.1 ks.0
