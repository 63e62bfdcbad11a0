-- ===== src/Router/Split.antt =====
-- PartitionDocs, PartitionDocsById and UpsertByPartitions of internal/client/client.go.
pub mod Groups
pub mod Hashed
use vearch.Prelude.{
  ℕ, zero, suc, String, ◌%◌, ◌^◌, List, [], ◌∷◌, ◌++◌, Option, none, some, if◌then◌else◌, ◌==◌,
  Outcome, done, failed, panic, out_of_fuel, ErrorEnum, param_error, str_eq, get_elem?, length,
  and_then, ◌<◌,
}
use vearch.Space.Model.{Space, Partition, PartitionRule}
use vearch.Space.Lookup.{partition_id}
use vearch.Space.Ranges.{Cast}
use vearch.Space.ByRange.{partition_ids_by_range_field}

pub record Field : Type 0 where
  pub name : String
  pub value : List ℕ  -- bytes

pub record Document : Type 0 where
  pub pkey : String
  pub fields : List Field

-- dataMap and sendMap: the documents of each partition's PartitionData, in order
abbrev pub SendMap : Type 0
SendMap = List (ℕ × List Document)

pub record RouterRequest : Type 0 where
  pub space : Space
  pub docs : List Document
  pub send_map : SendMap
  pub err : Option ErrorEnum

-- d.Items = append(d.Items, item), for a new PartitionData where the map has none
unfoldable pub add_item : ℕ → Document → SendMap → SendMap
add_item pid doc [] = (pid, doc ∷ []) ∷ []
add_item pid doc ((k, items) ∷ m) =
    let rest = add_item pid doc m in
    if k == pid then (k, items ++ doc ∷ []) ∷ m else (k, items) ∷ rest

-- The loop over r.docs, with the partition that a document goes to.
unfoldable pub split_loop : (Document → Outcome ℕ) → List Document → SendMap → Outcome SendMap
split_loop route [] m = done m
split_loop route (doc ∷ docs) m =
    and_then (route doc) λ pid. split_loop route docs (add_item pid doc m)

-- A request with an error is passed on; the map is stored at the end, and an error in place of it.
stored : RouterRequest → Outcome SendMap → Outcome RouterRequest
stored r (done m) = done (record r { send_map = m })
stored r (failed e) = done (record r { err = some e })
stored r panic = panic
stored r out_of_fuel = out_of_fuel

unfoldable pub unless_err : RouterRequest → Outcome SendMap → Outcome RouterRequest
unfolding stored
unless_err r m = elim r.err [ some e ↦ done r | none ↦ stored r m ]

-- `hash` is murmur3.Sum32WithSeed with seed 0, of github.com/spaolacci/murmur3
module _ (hash : String → ℕ) where
  unfoldable pub route_hash : Space → Document → Outcome ℕ
  route_hash space doc = partition_id space.partitions (hash doc.pkey)

  unfoldable pub partition_docs : RouterRequest → Outcome RouterRequest
  partition_docs r = unless_err r (split_loop (route_hash r.space) r.docs [])

  unfoldable pub partition_docs_by_id : ℕ → RouterRequest → Outcome RouterRequest
  partition_docs_by_id pid r = unless_err r (split_loop (λ _. done pid) r.docs [])

  -- pids[murmur3.Sum32WithSeed([]byte(doc.PKey), 0) % uint32(len(pids))]; the remainder by 0 panics
  unfoldable pub pick : List ℕ → Document → Outcome ℕ
  pick [] doc = panic
  pick (p ∷ ps) doc =
      let pids = p ∷ ps in
      elim (get_elem? pids (hash doc.pkey % (length pids % 2 ^ 32))) [
        | some pid ↦ done pid
        | none ↦ panic
      ]

  -- a single partition is taken without the hash
  pick_one : List ℕ → Document → Outcome ℕ
  unfolding pick
  pick_one (p ∷ []) doc = done p
  pick_one pids doc = pick pids doc

  module _ (cast : Cast) where
    -- The loop over the fields of a document: the first that has the name of the rule's field.
    unfoldable pub route_rule : Space → PartitionRule → Document → List Field → Outcome ℕ
    unfolding pick_one
    route_rule space rule doc [] = failed param_error
    route_rule space rule doc (f ∷ fs) =
        if str_eq f.name rule.field
        then and_then (partition_ids_by_range_field cast space.partitions rule.ranges f.value)
            (λ pids. pick_one pids doc)
        else route_rule space rule doc fs

    -- where a document goes: by the rule, by the hash, or to one of the partitions that are named
    unfoldable pub route_upsert : Space → List ℕ → Document → Outcome ℕ
    unfolding route_rule
    route_upsert space pids doc = elim space.partition_rule [
      | some rule ↦ route_rule space rule doc doc.fields
      | none ↦ elim pids [ [] ↦ route_hash space doc | p ∷ ps ↦ pick (p ∷ ps) doc ]
    ]

    unfoldable pub upsert_by_partitions : List ℕ → RouterRequest → Outcome RouterRequest
    upsert_by_partitions pids r = unless_err r (split_loop (route_upsert r.space pids) r.docs [])
