-- ===== src/Space/Rule.antt =====
-- Adding and dropping ranges of a space: updateSpacePartitonRule of
-- internal/master/services/space_service.go. The calls of other services are parameters.
pub mod Dropped
use vearch.Prelude.{
  ℕ, zero, suc, ◌+◌, ◌-◌, ◌*◌, ◌/◌, ◌%◌, ◌^◌, ◌≤◌, ◌<◌, String, List, [], ◌∷◌, ◌++◌, map, Bool,
  true, false, ◌&&◌, ◌||◌, not, Bool-cases, inl, inr, ◌⊎◌, ◌↔◌, Option, none, some, Option-cases,
  Result, ok, err, ErrorEnum, ◌>>=◌, ◌>>◌, fail_if, bind-ok, fail_if_iff, >>-iff, Result-cases,
  Outcome, done, failed, panic, out_of_fuel, and_then, lift, lift-done, and_then-done,
  if◌then◌else◌, has_str, has_num, filter_by, str_eq, eq_iff, eq_refl, ltb, leb, ◌==◌, ==_iff,
  get_elem?, get_elem?-lt, length, length-append, take, drop, All, All-append, key64, lt64, le64,
  mul64, sub64, add64, arith, ◌≡◌, ◌≢◌, refl, sym, ap, ◌∙◌,
}
use vearch.Prelude.Assoc.{lookup, insert, erase, lookup-insert, lookup-erase}
use mathlib.Core.Path.{subst}
use mathlib.Core.List.{append_assoc, append-nil}
use vearch.Space.Model.{Partition, PartitionRule, Range, Space, pa_unknow}
use vearch.Space.Slots.{reslot, max_uint32, new_partition}
use vearch.Space.Ranges.{Cast, range_is_same, add_ranges}
use vearch.Space.Placement.{
  Server, Sort, Counts, Selection, filter_and_sort_server, select_servers_for_partition,
}

-- What the service asks of others. `delete_key` is the answer to the deletion of a partition's key, `created` what is
-- heard of the new partitions with the addresses they are sent to, `new_id` the answer of each call of NewIDGenerate.
pub record RuleEnv : Type 0 where
  pub cast : Cast
  pub space_id : ℕ  -- of the space
  pub db_id : ℕ  -- of the space
  pub delete_key : ℕ → Result (Unit {0})
  pub servers : Result (List Server)
  pub addresses : List String
  pub resource : String
  pub all_replicas : List ℕ
  pub is_live : String → Bool
  pub strategy : ℕ
  pub sort : Sort
  pub new_id : ℕ → Result ℕ
  pub created : List (Partition × List String) → Result (Unit {0})
  pub put : Space → Result (Unit {0})

unfoldable pub has_range : String → List Range → Bool
has_range name [] = false
has_range name (r ∷ ranges) = str_eq r.name name || has_range name ranges

unfoldable pub drop_ranges : String → List Range → List Range
drop_ranges name ranges = filter_by (λ r. not (str_eq r.name name)) ranges

unfoldable pub drop_next :
    Result (Unit {0})
    → List ℕ
    → ℕ
    → (List ℕ → Result (List Partition) × List ℕ)
    → Result (List Partition) × List ℕ
drop_next (err e) deleted id later = (err e, deleted)
drop_next (ok _) deleted id later = later (deleted ++ id ∷ [])

-- The loop over the partitions, with the numbers of those whose key is gone. An error ends it. The DeletePartition calls
-- to the replicas, which only log their errors, are left out.
unfoldable pub drop_partitions :
    RuleEnv → String → List Partition → List ℕ → Result (List Partition) × List ℕ
unfolding drop_next
drop_partitions env name [] deleted = (ok [], deleted)
drop_partitions env name (p ∷ ps) deleted =
    if not (str_eq p.name name)
    then (let rest = drop_partitions env name ps deleted in
        (rest.0 >>= λ kept. ok (p ∷ kept), rest.1))
    else drop_next (env.delete_key p.id) deleted p.id (drop_partitions env name ps)

-- The end of the function: the slots anew, and the space stored. The division by 0, where no range is left, is a panic.
unfoldable pub finish_rule : RuleEnv → Space → PartitionRule → Outcome Space
finish_rule env space rule =
    let counted : PartitionRule = record rule { partitions = length rule.ranges } in
    and_then (reslot (space.partition_num * length rule.ranges) space.partitions) λ partitions.
      let done_space : Space = record space {
        partitions = partitions;
        partition_rule = some counted;
      } in
      and_then (lift (env.put done_space)) λ _. done done_space

unfoldable pub finish_drop :
    RuleEnv → String → Space → PartitionRule → Result (List Partition) → Outcome Space
unfolding finish_rule
finish_drop env name space rule (err e) = failed e
finish_drop env name space rule (ok kept) =
    finish_rule env (record space { partitions = kept })
      (record rule { ranges = drop_ranges name rule.ranges })

-- The operator Drop, with the numbers of the partitions whose key is gone.
unfoldable pub drop_rule : RuleEnv → Option String → Space → PartitionRule → Outcome Space × List ℕ
unfolding finish_drop drop_partitions
drop_rule env none space rule = (failed ErrorEnum.param_error, [])
drop_rule env (some name) space rule =
    let dropped = drop_partitions env name space.partitions [] in
    if str_eq name "" || not (has_range name rule.ranges)
    then (failed ErrorEnum.param_error, [])
    else (finish_drop env name space rule dropped.0, dropped.1)

-- The inner loop, with the number of calls of NewIDGenerate before it
unfoldable pub new_partitions_of : RuleEnv → String → ℕ → ℕ → Result (List Partition)
new_partitions_of env name zero calls = ok []
new_partitions_of env name (suc left) calls = env.new_id calls >>= λ id.
    new_partitions_of env name left (calls + 1) >>= λ later.
    ok (new_partition env.space_id env.db_id id name 0 ∷ later)

unfoldable pub new_partitions : RuleEnv → ℕ → List Range → ℕ → Result (List Partition)
new_partitions env partition_num [] calls = ok []
new_partitions env partition_num (r ∷ ranges) calls =
    fail_if (str_eq r.name "") ErrorEnum.param_error
    >> (new_partitions_of env r.name partition_num calls >>= λ here.
        new_partitions env partition_num ranges (calls + partition_num) >>= λ later.
        ok (here ++ later))

-- The servers of each new partition, which takes their ids for its replicas
unfoldable pub select_all :
    RuleEnv → List Server → ℕ → List Partition → Counts → Outcome (List (Partition × List String))
select_all env servers replica_num [] counts = done []
select_all env servers replica_num (p ∷ ps) counts =
    and_then
      (select_servers_for_partition env.is_live env.strategy env.sort servers counts replica_num)
      λ selected. and_then (lift selected.0) λ addresses.
        and_then (select_all env servers replica_num ps selected.1.counts)
          λ later. done ((record p { replicas = selected.1.replicas }, addresses) ∷ later)

unfoldable pub extend_rule :
    RuleEnv → Space → PartitionRule → List Range → List Server → Outcome Space
unfolding finish_rule
extend_rule env space rule ranges servers =
    let counts = filter_and_sort_server env.addresses env.resource servers env.all_replicas in
    and_then (lift (fail_if (ltb (length counts) space.replica_num) ErrorEnum.plain)) λ _.
      and_then (lift (new_partitions env space.partition_num ranges 0)) λ made.
        and_then (add_ranges env.cast rule.ranges ranges) λ all_ranges.
          and_then (select_all env servers space.replica_num made counts) λ placed.
            and_then (lift (env.created placed)) λ _.
              finish_rule env
                (record space { partitions = space.partitions ++ map (λ e. e.0) placed })
                (record rule { ranges = all_ranges })

-- The operator Add
unfoldable pub add_rule : RuleEnv → Option PartitionRule → Space → PartitionRule → Outcome Space
unfolding extend_rule
add_rule env none space rule = failed ErrorEnum.param_error
add_rule env (some request) space rule =
    and_then (lift (range_is_same rule.ranges request.ranges))
      λ _. and_then (lift env.servers) λ servers. extend_rule env space rule request.ranges servers
