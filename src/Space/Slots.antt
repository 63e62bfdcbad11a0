-- ===== src/Space/Slots.antt =====
-- The slots that internal/master/services/space_service.go gives to the partitions of a space, when
-- it creates them (CreateSpace) and after the number of partitions changed (expandPartitions,
-- updateSpacePartitonRule).
pub mod Assigned
pub mod Routing
use vearch.Prelude.{
  ℕ, zero, suc, String, ◌+◌, ◌-◌, ◌*◌, ◌/◌, ◌%◌, ◌^◌, List, [], ◌∷◌, Option, none, some, ltb,
  if◌then◌else◌, get_elem?, Outcome, done, failed, panic, and_then, Result, ok, err, ◌==◌, mul64,
}
use vearch.Space.Model.{Partition, PartitionRule, Range, pa_unknow}

abbrev pub max_uint32 : ℕ
max_uint32 = 2 ^ 32 - 1

-- entity.SlotID(i * slotWidth)
unfoldable pub slot_of : ℕ → ℕ → ℕ
slot_of width i = (i * width) % 2 ^ 32

-- A call of masterClient.NewIDGenerate that fails ends the handler.
abbrev pub with_id {ℓ} : {A : Type ℓ} → Result ℕ → (ℕ → Outcome A) → Outcome A
with_id (ok id) f = f id
with_id (err e) f = failed e

-- space.PartitionRule.Ranges[i/space.PartitionNum].Name, and "" where there is no rule
unfoldable pub name_of : Option PartitionRule → ℕ → ℕ → Outcome String
name_of none num i = done ""
name_of (some rule) num i = elim (get_elem? rule.ranges (i / num)) [
  | none ↦ panic
  | some r ↦ done r.name
]

-- What CreateSpace fills in of a new partition. entity.PartitionID(partitionID) keeps 32 bits of the id.
unfoldable pub new_partition : ℕ → ℕ → ℕ → String → ℕ → Partition
new_partition space_id db_id id name slot = record {
  id = id % 2 ^ 32;
  name = name;
  space_id = space_id;
  db_id = db_id;
  slot = slot;
  leader_id = 0;
  replicas = [];
  status = pa_unknow;
}

-- `new_id i` is the answer of the call of NewIDGenerate in round i.
module _ (new_id : ℕ → Result ℕ) (rule : Option PartitionRule) (space_id db_id num width : ℕ) where
  -- the rounds i, i + 1, ... of the loop `for i := range n`, with the rounds that are left
  unfoldable pub create_loop : ℕ → ℕ → Outcome (List Partition)
  unfolding name_of
  create_loop zero i = done []
  create_loop (suc left) i =
      let rest = create_loop left (i + 1) in
      with_id (new_id i) λ id. and_then (name_of rule num i) λ name.
        and_then rest λ ps. done (new_partition space_id db_id id name (slot_of width i) ∷ ps)

-- The product of two ints, which wraps. It is the divisor of the slot width and the bound of the loop.
abbrev pub total_partitions : Option PartitionRule → ℕ → ℕ
total_partitions none num = num
total_partitions (some rule) num = mul64 num rule.partitions

-- for i := range n: a negative int has no rounds.
abbrev pub rounds : ℕ → ℕ
rounds n = if ltb n (2 ^ 63) then n else 0

-- The partitions of a new space. The division by a total of 0 is a panic.
unfoldable pub create_partitions :
    (ℕ → Result ℕ) → Option PartitionRule → ℕ → ℕ → ℕ → Outcome (List Partition)
unfolding create_loop
create_partitions new_id rule space_id db_id num =
    let total = total_partitions rule num in
    let parts = create_loop new_id rule space_id db_id num (max_uint32 / total) (rounds total) 0 in
    if total == 0 then panic else parts

-- the loop that gives slots anew to the first `left` partitions, a panic where one is missing
unfoldable pub reslot_loop : ℕ → ℕ → ℕ → List Partition → Outcome (List Partition)
unfolding slot_of
reslot_loop width i zero ps = done ps
reslot_loop width i (suc left) [] = panic
reslot_loop width i (suc left) (p ∷ ps) =
    and_then (reslot_loop width (i + 1) left ps)
      λ rest. done (record p { slot = slot_of width i } ∷ rest)

-- "Update slot assignments": `total` is the new number of partitions.
unfoldable pub reslot : ℕ → List Partition → Outcome (List Partition)
unfolding reslot_loop
reslot total ps =
    let slotted = reslot_loop (max_uint32 / total) 0 total ps in
    if total == 0 then panic else slotted
