-- ===== src/Space/Expand.antt =====
-- More partitions for a space: expandPartitions of internal/master/services/space_service.go. The calls of other
-- services are those of Space.Rule.
use vearch.Prelude.{
  ℕ, zero, suc, ◌+◌, ◌-◌, ◌≤◌, ◌<◌, List, [], ◌∷◌, ◌++◌, map, some, ok, ErrorEnum, fail_if, bind-ok,
  Outcome, done, and_then, lift, lift-done, and_then-done, ltb, get_elem?, length, length-append,
  arith, ◌≡◌, refl, sym, ap, ◌∙◌, String,
}
use vearch.Space.Model.{Partition, Space}
use vearch.Space.Lookup.{partition_id}
use vearch.Space.Slots.{reslot, max_uint32, new_partition}
use vearch.Space.Slots.Routing.{owner_index, reslot-routes}
use vearch.Space.Placement.{Server, Counts, filter_and_sort_server, select_servers_for_partition}
use vearch.Space.Rule.{RuleEnv, new_partitions_of, select_all}

-- From the choice of the servers on
unfoldable pub place_new :
    RuleEnv → Space → ℕ → List Partition → List Server → Outcome (List Partition)
unfolding select_all
place_new env space new_partition_count made servers =
    let counts = filter_and_sort_server env.addresses env.resource servers env.all_replicas in
    and_then (lift (fail_if (ltb (length counts) space.replica_num) ErrorEnum.plain)) λ _.
      and_then (select_all env servers space.replica_num made counts) λ placed.
        and_then (lift (env.created placed))
          λ _. reslot new_partition_count (space.partitions ++ map (λ e. e.0) placed)

unfoldable pub expand_partitions : RuleEnv → Space → ℕ → Outcome Space
unfolding place_new
expand_partitions env space new_partition_count =
    and_then (lift (new_partitions_of env "" (new_partition_count - space.partition_num) 0)) λ made.
      and_then (lift env.servers) λ servers.
        and_then (place_new env space new_partition_count made servers) λ partitions.
          let expanded : Space = record space {
            partition_num = new_partition_count;
            partitions = partitions;
          } in
          and_then (lift (env.put expanded)) λ _. done expanded

new_partitions_of-length :
    (env : RuleEnv) (name : String) (count calls : ℕ) (made : List Partition)
    → new_partitions_of env name count calls ≡ ok made
    → length made ≡ count
unfolding new_partitions_of
new_partitions_of-length env name zero calls made h =
    let same : [] ≡ made = cc in ap length (sym same)
new_partitions_of-length env name (suc count) calls made h =
    let a = bind-ok (env.new_id calls) _ h in
    let b = bind-ok (new_partitions_of env name count (calls + 1)) _ a.2 in
    let same : new_partition env.space_id env.db_id a.0 name 0 ∷ b.0 ≡ made = let q = b.2 in cc in
    ap length (sym same) ∙ ap suc (new_partitions_of-length env name count (calls + 1) b.0 b.1)

-- The partitions that are placed are those that were made.
select_all-ids :
    (env : RuleEnv) (servers : List Server) (replica_num : ℕ) (made : List Partition)
    (counts : Counts) (placed : List (Partition × List String))
    → select_all env servers replica_num made counts ≡ done placed
    → map (λ (p : Partition). p.id) (map (λ e. e.0) placed) ≡ map (λ (p : Partition). p.id) made
unfolding select_all
select_all-ids env servers replica_num [] counts placed h =
    let same : [] ≡ placed = cc in
    ap (λ ps. map (λ (p : Partition). p.id) (map (λ e. e.0) ps)) (sym same)
select_all-ids env servers replica_num (p ∷ ps) counts placed h =
    let a =
      and_then-done
        (select_servers_for_partition env.is_live env.strategy env.sort servers counts replica_num)
        _ h in
    let b = and_then-done (lift a.0.0) _ a.2 in
    let c = and_then-done (select_all env servers replica_num ps a.0.1.counts) _ b.2 in
    let first : Partition = record p { replicas = a.0.1.replicas } in
    let same : (first, b.0) ∷ c.0 ≡ placed = let q = c.2 in cc in
    ap (λ qs. map (λ (q : Partition). q.id) (map (λ e. e.0) qs)) (sym same)
    ∙ ap (λ ids. p.id ∷ ids) (select_all-ids env servers replica_num ps a.0.1.counts c.0 c.1)

-- What is placed: the partitions of the space and the new ones, with slots anew
place_new-reslot :
    (env : RuleEnv) (space : Space) (count : ℕ) (made : List Partition) (servers : List Server)
    {partitions : List Partition}
    → place_new env space count made servers ≡ done partitions
    → (added : List Partition) × (map (λ (p : Partition). p.id) added
        ≡ map (λ (p : Partition). p.id) made)
      × (reslot count (space.partitions ++ added) ≡ done partitions)
unfolding place_new
place_new-reslot env space count made servers {partitions} h =
    let counts = filter_and_sort_server env.addresses env.resource servers env.all_replicas in
    let a =
      and_then-done (lift (fail_if (ltb (length counts) space.replica_num) ErrorEnum.plain)) _ h in
    let b = and_then-done (select_all env servers space.replica_num made counts) _ a.2 in
    let c = and_then-done (lift (env.created b.0)) _ b.2 in
    (map (λ e. e.0) b.0, select_all-ids env servers space.replica_num made counts b.0 b.1, c.2)

length-ids :
    (xs ys : List Partition)
    → map (λ (p : Partition). p.id) xs ≡ map (λ (p : Partition). p.id) ys
    → length xs ≡ length ys
length-ids [] [] h = refl
length-ids [] (y ∷ ys) h = absurd (let q = ap length h in omega arith)
length-ids (x ∷ xs) [] h = absurd (let q = ap length h in omega arith)
length-ids (x ∷ xs) (y ∷ ys) h =
    let rest : map (λ (p : Partition). p.id) xs ≡ map (λ (p : Partition). p.id) ys = cc in
    ap suc (length-ids xs ys rest)

-- expandPartitions, once it succeeds, has as many new partitions as the request asks for beyond those of the space,
-- with the ids that the generator gave, and every slot id is then routed to the partition at `owner_index` of the
-- old ones followed by the new. Conditions: the space has as many partitions as it says, fewer than the new number,
-- which fits in 32 bits.
pub expand_partitions-routes :
    (env : RuleEnv) (space : Space) (new_partition_count : ℕ) (out : Space)
    → length space.partitions ≡ space.partition_num
    → space.partition_num < new_partition_count
    → new_partition_count ≤ max_uint32
    → expand_partitions env space new_partition_count ≡ done out
    → (made added : List Partition) × (new_partitions_of env ""
          (new_partition_count - space.partition_num)
          0
        ≡ ok made)
      × (map (λ (p : Partition). p.id) added ≡ map (λ (p : Partition). p.id) made)
      × (length added ≡ new_partition_count - space.partition_num)
      × (out.partition_num ≡ new_partition_count)
      × ((slot_id : ℕ)
          → (p : Partition) × (get_elem?
                (space.partitions ++ added)
                (owner_index new_partition_count slot_id)
              ≡ some p)
            × (partition_id out.partitions slot_id ≡ done p.id))
unfolding expand_partitions
expand_partitions-routes env space count out n more fits h =
    let wanted = count - space.partition_num in
    let a = and_then-done (lift (new_partitions_of env "" wanted 0)) _ h in
    let b = and_then-done (lift env.servers) _ a.2 in
    let c = and_then-done (place_new env space count a.0 b.0) _ b.2 in
    let expanded : Space = record space { partition_num = count; partitions = c.0 } in
    let d = and_then-done (lift (env.put expanded)) _ c.2 in
    let same : expanded ≡ out = let q = d.2 in cc in
    let made = lift-done (new_partitions_of env "" wanted 0) a.1 in
    let placed = place_new-reslot env space count a.0 b.0 c.1 in
    let size : length placed.0 ≡ wanted =
      length-ids placed.0 a.0 placed.1 ∙ new_partitions_of-length env "" wanted 0 a.0 made in
    let total : length (space.partitions ++ placed.0) ≡ count =
      omega (arith, length-append space.partitions placed.0) in
    let routes = reslot-routes count (space.partitions ++ placed.0) total (omega arith) fits in
    let found : routes.0 ≡ out.partitions =
      let q = sym routes.1 ∙ placed.2 in
      let r : routes.0 ≡ c.0 = cc in r ∙ ap (λ (s : Space). s.partitions) same in
    (
      a.0,
      placed.0,
      made,
      placed.1,
      size,
      ap (λ (s : Space). s.partition_num) (sym same),
      λ slot_id.
          let (p, e, r) = routes.2 slot_id in
          (p, e, ap (λ ps. partition_id ps slot_id) (sym found) ∙ r),
    )
