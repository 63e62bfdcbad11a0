-- ===== src/Space/Lookup.antt =====
-- Space.PartitionId of internal/entity/space.go: the partition that owns a slot.
pub mod Search
use vearch.Prelude.{
  ℕ, zero, suc, ◌+◌, ◌-◌, ◌/◌, List, [], ◌∷◌, Option, none, some, ltb, if◌then◌else◌, length,
  get_elem?, Outcome, done, panic, out_of_fuel,
}
use vearch.Space.Model.{Partition}

-- arr[low-1].Id, a panic where `low` is 0 or past the end
last_id : List Partition → ℕ → Outcome ℕ
last_id arr zero = panic
last_id arr (suc k) = elim (get_elem? arr k) [ none ↦ panic | some p ↦ done p.id ]

-- The loop `for low <= high`. Go's `high` may come to -1, so `hi` stands for high + 1: the test is
-- low < hi, `mid = (low + high) >> 1` is (low + hi - 1) / 2, and `high = mid - 1` is hi = mid.
lookup_loop : ℕ → List Partition → ℕ → ℕ → ℕ → Outcome ℕ
unfolding last_id
lookup_loop zero arr slot_id low hi = out_of_fuel
lookup_loop (suc fuel) arr slot_id low hi =
    let mid = (low + hi - 1) / 2 in
    let down = lookup_loop fuel arr slot_id low mid in
    let up = lookup_loop fuel arr slot_id (mid + 1) hi in
    if ltb low hi
    then (elim (get_elem? arr mid) [
      | none ↦ panic
      | some p ↦ if ltb slot_id p.slot then down else if ltb p.slot slot_id then up else done p.id
    ])
    else last_id arr low

-- The fuel is one more than the partitions: each round shrinks hi - low.
unfoldable pub partition_id : List Partition → ℕ → Outcome ℕ
unfolding lookup_loop
partition_id (p ∷ []) slot_id = done p.id
partition_id arr slot_id = lookup_loop (suc (length arr)) arr slot_id 0 (length arr)
