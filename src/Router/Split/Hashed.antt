-- ===== src/Router/Split/Hashed.antt =====
-- The three ways to split a request, by the partitions that its documents go to.
use mathlib.Core.Path.{subst, fun_ext}
use vearch.Prelude.{
  ℕ, String, List, [], ◌∷◌, ◌++◌, Option, none, some, ok, Outcome, done, failed, ErrorEnum, ◌<◌,
  ◌≤◌, ◌%◌, ◌^◌, All, ◌≡◌, refl, ◌∙◌, ap,
}
use vearch.Space.Model.{Partition, PartitionRule}
use vearch.Space.Ranges.{Cast}
use vearch.Space.Slots.{max_uint32, total_partitions, create_partitions}
use vearch.Space.Slots.Routing.{HasNames, owner_index, create_partitions-routes}
use vearch.Router.Split.{
  Document, SendMap, RouterRequest, split_loop, unless_err, route_hash, route_upsert,
  partition_docs, upsert_by_partitions,
}
use vearch.Router.Split.Groups.{
  items_of, IsMap, routed_to, Routes, split_loop-groups, split_loop-failed,
}

-- The map holds the documents of the request by their partitions.
pub record Groups (route : Document → Outcome ℕ) (docs : List Document) (m : SendMap) : Type 0 where
  pub is_map : IsMap m
  pub items : (k : ℕ) → items_of k m ≡ routed_to route k docs

unless_err-Groups :
    (route : Document → Outcome ℕ) (r : RouterRequest)
    → r.err ≡ none
    → All (Routes route) r.docs
    → (m : SendMap) × (unless_err r (split_loop route r.docs []) ≡ done (record r { send_map = m }))
      × Groups route r.docs m
unfolding unless_err
unless_err-Groups route r e h =
    let (m, f, w, g) = split_loop-groups route r.docs [] h tt in
    (m, rw (e, f) refl, record { is_map = w; items = g })

module _ (hash : String → ℕ) (cast : Cast) where
  -- Where a request has no error yet and each of its documents goes to some partition (by the space's
  -- rule, by the hash of its key, or to one of the partitions that the caller names),
  -- UpsertByPartitions sets no error and stores a map with one entry for each partition that gets a
  -- document, which holds that partition's documents in the order of the request.
  pub upsert_by_partitions-Groups :
      (pids : List ℕ) (r : RouterRequest)
      → r.err ≡ none
      → All (Routes (route_upsert hash cast r.space pids)) r.docs
      → (m : SendMap) × (upsert_by_partitions hash cast pids r ≡ done (record r { send_map = m }))
        × Groups (route_upsert hash cast r.space pids) r.docs m
  unfolding upsert_by_partitions
  upsert_by_partitions-Groups pids r e h =
      unless_err-Groups (route_upsert hash cast r.space pids) r e h

  -- Where a document of the request goes to no partition, with an error, and all before it do,
  -- UpsertByPartitions stores that error and leaves the rest of the request as it was: no document
  -- is sent.
  pub upsert_by_partitions_error :
      (pids : List ℕ) (r : RouterRequest) (before after : List Document) (doc : Document)
      (x : ErrorEnum)
      → r.err ≡ none
      → r.docs ≡ before ++ doc ∷ after
      → All (Routes (route_upsert hash cast r.space pids)) before
      → route_upsert hash cast r.space pids doc ≡ failed x
      → upsert_by_partitions hash cast pids r ≡ done (record r { err = some x })
  unfolding upsert_by_partitions unless_err
  upsert_by_partitions_error pids r before after doc x e d h f =
      let stop =
        split_loop-failed (route_upsert hash cast r.space pids) before doc after [] x h f in
      let stop' : split_loop (route_upsert hash cast r.space pids) r.docs [] ≡ failed x =
        ap (λ ds. split_loop (route_upsert hash cast r.space pids) ds []) d ∙ stop in
      rw (e, stop') refl

-- Every document goes where the function says.
All-Routes :
    (route : Document → Outcome ℕ) (k : Document → ℕ) (docs : List Document)
    → ((d : Document) → route d ≡ done (k d))
    → All (Routes route) docs
All-Routes route k [] h = tt
All-Routes route k (d ∷ docs) h = ((k d, h d), All-Routes route k docs h)

-- In a space that CreateSpace partitions (NewIDGenerate answers `ids i` in round i, every range name
-- is found, the total is between 1 and 2^32 - 1), PartitionDocs sets no error on a request that has
-- none: every document is sent to the partition made in round `owner_index` of the hash of its key, whose id is that
-- answer in 32 bits,
-- together with the other documents of that partition in the order of the request.
pub partition_docs-Groups :
    (hash : String → ℕ) (ids : ℕ → ℕ) (rule : Option PartitionRule) (space_id db_id num : ℕ)
    (r : RouterRequest)
    → HasNames rule num
    → 0 < total_partitions rule num
    → total_partitions rule num ≤ max_uint32
    → r.err ≡ none
    → (ps : List Partition) × (create_partitions (λ i. ok (ids i)) rule space_id db_id num
        ≡ done ps)
      × (m : SendMap) × (let placed = record r { space = record r.space { partitions = ps } } in
          partition_docs hash placed ≡ done (record placed { send_map = m }))
      × Groups
          (λ d. done (ids (owner_index (total_partitions rule num) (hash d.pkey)) % 2 ^ 32))
          r.docs
          m
unfolding partition_docs route_hash
partition_docs-Groups hash ids rule space_id db_id num r names pos fits e =
    let (ps, made, routes) = create_partitions-routes ids rule space_id db_id num names pos fits in
    let placed : RouterRequest = record r { space = record r.space { partitions = ps } } in
    let owner : Document → ℕ =
      λ d. ids (owner_index (total_partitions rule num) (hash d.pkey)) % 2 ^ 32 in
    let goes : (d : Document) → route_hash hash placed.space d ≡ done (owner d) =
      λ d. routes (hash d.pkey) in
    let (m, f, g) =
      unless_err-Groups (route_hash hash placed.space) placed e
        (All-Routes (route_hash hash placed.space) owner r.docs goes) in
    (ps, made, m, f, subst (λ route. Groups route r.docs m) (fun_ext goes) g)
