-- ===== src/Space/Slots/Routing.antt =====
-- PartitionId on the slots that the master assigns: every hash has an owner, by one division.
use Prim.Native.Nat.{min}
use native.Mathlib.Nat.{le-div_iff_mul-le, div-lt_iff_lt-mul}
use vearch.Prelude.{
  ℕ, ◌+◌, ◌-◌, ◌*◌, ◌/◌, ◌%◌, ◌^◌, ◌≤◌, ◌<◌, ◌≡◌, refl, List, Option, some, String, length,
  get_elem?, get_elem?-lt, lt-get_elem?, done, ok, ◌==◌, arith, ltb, Bool-cases, inl, inr, ap,
  false, ltb→lt, sym, ◌∙◌,
}
use vearch.Space.Model.{Partition, PartitionRule}
use vearch.Space.Lookup.{partition_id}
use vearch.Space.Lookup.Search.{IsSorted, Owns, partition_id-Owns}
use vearch.Space.Slots.{
  max_uint32, slot_of, name_of, total_partitions, rounds, create_partitions, reslot,
}
use vearch.Space.Slots.Assigned.{
  AtEach, Slotted, create_loop-Made, reslot_loop-Slotted, reslot_loop-id,
}

-- With the width that the code computes, no slot wraps.
slot_of_exact : (n j : ℕ) → 0 < n → j < n → slot_of (max_uint32 / n) j ≡ j * (max_uint32 / n)
unfolding slot_of
slot_of_exact n j z h =
    let w = max_uint32 / n in
    let a : n * w ≤ max_uint32 = grind arith in
    let b : j * w ≤ n * w = grind arith in let c : j * w < 2 ^ 32 = omega arith in grind arith

width-pos : (n : ℕ) → 0 < n → n ≤ max_uint32 → 0 < max_uint32 / n
width-pos n z h = grind arith

-- The index of the partition that a hash belongs to, of n partitions: the hash divided by the width
-- of a slot range, and the last one for what is left over.
abbrev pub owner_index : ℕ → ℕ → ℕ
owner_index n slot_id = min (slot_id / (max_uint32 / n)) (n - 1)

module _ (n : ℕ) (ps : List Partition) (pos : 0 < n) (fits : n ≤ max_uint32)
    (slots : AtEach (Slotted (max_uint32 / n)) 0 n ps) where
  exact : (j : ℕ) (p : Partition) → get_elem? ps j ≡ some p → p.slot ≡ j * (max_uint32 / n)
  exact j p e =
      let z : 0 + j ≡ j = omega arith in
      let s : p.slot ≡ slot_of (max_uint32 / n) j = rw z at (slots.at j p e) in
      omega (arith, s, slot_of_exact n j pos (omega (arith, lt-get_elem? ps j e, slots.count)))

  slots-IsSorted : IsSorted ps
  slots-IsSorted = record {
    lt = λ i j p q l e f.
        let a = exact i p e in let b = exact j q f in let c = width-pos n pos fits in grind arith;
  }

  -- The owner stands at the index that the division gives.
  owner-eq : (slot_id i : ℕ) (p : Partition) → Owns ps slot_id i p → owner_index n slot_id ≡ i
  owner-eq slot_id i p own =
      let w = max_uint32 / n in
      let wide : 0 < w = width-pos n pos fits in
      let inside : i < n = omega (arith, lt-get_elem? ps i own.here, slots.count) in
      let low : i * w ≤ slot_id = omega (arith, exact i p own.here, own.below) in
      let above : i ≤ slot_id / w = (le-div_iff_mul-le wide).1 low in
      elim (Bool-cases (ltb (i + 1) n)) [
        | inl more ↦
            let (q, e) = get_elem?-lt ps (i + 1) (omega (arith, slots.count, ltb→lt _ _ more)) in
            let high : slot_id < (i + 1) * w =
              omega (arith, exact (i + 1) q e, own.above (i + 1) q (omega arith) e) in
            let below : slot_id / w < i + 1 = (div-lt_iff_lt-mul wide).1 high in omega arith
        | inr last ↦ let end : n ≤ i + 1 = ground arith in omega arith
      ]

  -- Every 32-bit hash is routed to the partition at `owner_index`.
  pub routed :
      (slot_id : ℕ)
      → (p : Partition) × (get_elem? ps (owner_index n slot_id) ≡ some p)
        × (partition_id ps slot_id ≡ done p.id)
  routed slot_id =
      let (i, p, own, found) =
        partition_id-Owns ps slot_id slots-IsSorted (omega (arith, slots.count))
          (λ q e. omega (arith, exact 0 q e)) in
      (p, rw (owner-eq slot_id i p own) own.here, found)

-- In round k the loop that CreateSpace runs finds the name that the partition gets.
abbrev pub HasNames : Option PartitionRule → ℕ → Type 0
HasNames rule num =
    (k : ℕ) → k < total_partitions rule num → (s : String) × (name_of rule num k ≡ done s)

ok→done : (a b : ℕ) → ok a ≡ ok b → done a ≡ done b
ok→done a b h = cc

-- Where NewIDGenerate answers `ids i` in round i, every range name is found and the total is between
-- 1 and 2^32 - 1, CreateSpace makes its partitions without an error, and PartitionId then routes
-- every slot id to the partition that was made in round `owner_index`, whose id is that answer in 32 bits.
pub create_partitions-routes :
    (ids : ℕ → ℕ) (rule : Option PartitionRule) (space_id db_id num : ℕ)
    → HasNames rule num
    → 0 < total_partitions rule num
    → total_partitions rule num ≤ max_uint32
    → (ps : List Partition) × (create_partitions (λ i. ok (ids i)) rule space_id db_id num
        ≡ done ps)
      × ((slot_id : ℕ)
          → partition_id ps slot_id
            ≡ done (ids (owner_index (total_partitions rule num) slot_id) % 2 ^ 32))
unfolding create_partitions
create_partitions-routes ids rule space_id db_id num names pos fits =
    let n = total_partitions rule num in
    let (ps, made, each) =
      create_loop-Made (λ i. ok (ids i)) rule space_id db_id num (max_uint32 / n) (rounds n) 0
        (λ k l. (ids k, refl)) (λ k l. names k (ground arith)) in
    let some_rounds : (n == 0) ≡ false = ground (arith, pos) in
    let slots : AtEach (Slotted (max_uint32 / n)) 0 n ps = record {
      count = each.count ∙ ground arith;
      at = λ j p e. (each.at j p e).2;
    } in
    (
      ps,
      rw some_rounds made,
      λ slot_id.
          let (p, e, found) = routed n ps pos fits slots slot_id in
          let same = (each.at (owner_index n slot_id) p e).0 in
          let start : 0 + owner_index n slot_id ≡ owner_index n slot_id = omega arith in
          found ∙ sym (ok→done (ids (owner_index n slot_id) % 2 ^ 32) p.id (rw start at same)),
    )

-- Where the space has as many partitions as the new total, which lies between 1 and 2^32 - 1, the
-- slot update of expandPartitions and updateSpacePartitonRule succeeds, and PartitionId then routes
-- every slot id to the partition at `owner_index` of the list, whose id did not change.
pub reslot-routes :
    (total : ℕ) (ps : List Partition)
    → length ps ≡ total
    → 0 < total
    → total ≤ max_uint32
    → (qs : List Partition) × (reslot total ps ≡ done qs)
      × ((slot_id : ℕ)
          → (p : Partition) × (get_elem? ps (owner_index total slot_id) ≡ some p)
            × (partition_id qs slot_id ≡ done p.id))
unfolding reslot
reslot-routes total ps count pos fits =
    let (qs, made, slots) = reslot_loop-Slotted (max_uint32 / total) total 0 ps count in
    let some_rounds : (total == 0) ≡ false = ground arith in
    (
      qs,
      rw some_rounds made,
      λ slot_id.
          let (q, e, found) = routed total qs pos fits slots slot_id in
          let (p, e', same) = reslot_loop-id (max_uint32 / total) total 0 ps qs made _ q e in
          (p, e', found ∙ ap done (sym same)),
    )
