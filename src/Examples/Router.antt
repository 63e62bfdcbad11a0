-- ===== src/Examples/Router.antt =====
-- The theorems on the router, at small inputs.
use vearch.Prelude.{◌^◌, ◌%◌, ◌≡◌, refl, ok, List, [], ◌∷◌, none, done, arith}
use vearch.Space.Model.{Partition}
use vearch.Space.Slots.{create_partitions, name_of}
use vearch.Space.Slots.Routing.{owner_index, HasNames}
use vearch.Router.Split.{
  SendMap, route_upsert, partition_docs, upsert_by_partitions, pick, add_item, split_loop,
  unless_err,
}
use vearch.Router.Split.Hashed.{Groups, upsert_by_partitions-Groups, partition_docs-Groups}
use vearch.Examples.Data.{digit_cast, two_docs, doc_a, doc_b, two_hash, ids_from_10}

upsert_by_partitions-Groups_example :
    (m : SendMap) × (upsert_by_partitions two_hash digit_cast (20 ∷ 21 ∷ 22 ∷ []) two_docs
      ≡ done (record two_docs { send_map = m }))
    × Groups
        (route_upsert two_hash digit_cast two_docs.space (20 ∷ 21 ∷ 22 ∷ []))
        (doc_a ∷ doc_b ∷ [])
        m
unfolding route_upsert pick
upsert_by_partitions-Groups_example =
    upsert_by_partitions-Groups two_hash digit_cast (20 ∷ 21 ∷ 22 ∷ []) two_docs refl
      ((22, refl), ((21, refl), tt))

upsert_by_partitions-run :
    upsert_by_partitions two_hash digit_cast (20 ∷ 21 ∷ 22 ∷ []) two_docs
    ≡ done (record two_docs { send_map = (22, doc_a ∷ []) ∷ (21, doc_b ∷ []) ∷ [] })
unfolding upsert_by_partitions route_upsert pick unless_err split_loop add_item
upsert_by_partitions-run = refl

no_rule : HasNames none 2
no_rule k l = ("", unfold name_of in refl)

partition_docs-Groups_example :
    (ps : List Partition) × (create_partitions (λ i. ok (ids_from_10 i)) none 1 1 2 ≡ done ps)
    × (m : SendMap) × (let placed = record two_docs {
      space = record two_docs.space { partitions = ps };
    } in
        partition_docs two_hash placed ≡ done (record placed { send_map = m }))
    × Groups
        (λ d. done (ids_from_10 (owner_index 2 (two_hash d.pkey)) % 2 ^ 32))
        (doc_a ∷ doc_b ∷ [])
        m
partition_docs-Groups_example =
    partition_docs-Groups two_hash ids_from_10 none 1 1 2 two_docs no_rule (omega arith)
      (omega arith) refl
