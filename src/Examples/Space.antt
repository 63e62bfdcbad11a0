-- ===== src/Examples/Space.antt =====
-- The theorems on spaces and partitions, at small inputs.
use mathlib.Core.List.{Perm}
use vearch.Prelude.{
  fail_if, lt64, mul64, ◌^◌, ◌%◌, ℕ, zero, suc, ◌*◌, ◌<◌, ◌≡◌, ◌⊎◌, ◌↔◌, if◌then◌else◌, str_eq,
  refl, ok, List, [], ◌∷◌, ◌++◌, none, some, get_elem?, done, arith, All, eq_iff, failed,
  param_error, minus_one64,
}
use vearch.Space.Model.{Partition, Range}
use vearch.Space.Lookup.{partition_id}
use vearch.Space.Lookup.Search.{IsSorted, Owns, partition_id-Owns}
use vearch.Space.Slots.{name_of, create_partitions}
use vearch.Space.Slots.Routing.{owner_index, HasNames, create_partitions-routes}
use vearch.Space.Ranges.{
  max_total_partitions, add_ranges, insert_into_ranges, insert_loop, to_timestamp, validate_range,
  range_partition,
}
use vearch.Space.Ranges.Valid.{Increasing, IsValid, validate_range_iff}
use vearch.Space.Ranges.Insert.{Ordered, Parses, add_ranges-Ordered}
use vearch.Space.ByRange.{bytes_to_int, ids_named, partition_ids_by_range_field}
use vearch.Space.ByRange.Chosen.{Holds, Passed, partition_ids_by_range_field_cases}
use vearch.Space.ByRange.Created.{span, create_partitions-ids_named}
use vearch.Examples.Data.{digit_cast, early, middle, late, two_ranges, ids_from_10, partition}

abbrev three : List Partition
three = partition 7 0 "" ∷ partition 8 100 "" ∷ partition 9 200 "" ∷ []

three-IsSorted : IsSorted three
three-IsSorted = record { lt = grows }
  where
    grows :
        (i j : ℕ) (p q : Partition)
        → i < j
        → get_elem? three i ≡ some p
        → get_elem? three j ≡ some q
        → p.slot < q.slot
    grows zero zero p q l a b = absurd (omega arith)
    grows zero (suc zero) p q l a b = ground arith
    grows zero (suc (suc zero)) p q l a b = ground arith
    grows zero (suc (suc (suc j))) p q l a b = absurd (ground arith)
    grows (suc zero) zero p q l a b = absurd (omega arith)
    grows (suc zero) (suc zero) p q l a b = absurd (omega arith)
    grows (suc zero) (suc (suc zero)) p q l a b = ground arith
    grows (suc zero) (suc (suc (suc j))) p q l a b = absurd (ground arith)
    grows (suc (suc zero)) zero p q l a b = absurd (omega arith)
    grows (suc (suc zero)) (suc zero) p q l a b = absurd (omega arith)
    grows (suc (suc zero)) (suc (suc zero)) p q l a b = absurd (omega arith)
    grows (suc (suc zero)) (suc (suc (suc j))) p q l a b = absurd (ground arith)
    grows (suc (suc (suc i))) j p q l a b = absurd (ground arith)

partition_id-Owns_example :
    (i : ℕ) × (p : Partition) × Owns three 150 i p × (partition_id three 150 ≡ done p.id)
partition_id-Owns_example =
    partition_id-Owns three 150 three-IsSorted (omega arith) (λ p e. ground arith)

-- the middle of three partitions owns slot 150
partition_id-three : partition_id three 150 ≡ done 8
unfolding partition_id
partition_id-three = refl

no_rule : HasNames none 3
no_rule k l = ("", unfold name_of in refl)

create_partitions-routes_example :
    (ps : List Partition) × (create_partitions (λ i. ok (ids_from_10 i)) none 1 1 3 ≡ done ps)
    × ((slot_id : ℕ)
        → partition_id ps slot_id ≡ done (ids_from_10 (owner_index 3 slot_id) % 2 ^ 32))
create_partitions-routes_example =
    create_partitions-routes ids_from_10 none 1 1 3 no_rule (omega arith) (omega arith)

add_ranges-Ordered_example :
    (out : List Range) × (add_ranges digit_cast (early ∷ late ∷ []) (middle ∷ []) ≡ done out)
    × Ordered digit_cast out
    × All (Parses digit_cast) out
    × Perm out ((middle ∷ []) ++ (early ∷ late ∷ []))
unfolding to_timestamp
add_ranges-Ordered_example =
    add_ranges-Ordered digit_cast (early ∷ late ∷ []) (middle ∷ [])
      ((1000000000, refl), ((3000000000, refl), tt)) ((omega arith, tt), (tt, tt))
      ((2000000000, refl), tt)

add_ranges-run :
    add_ranges digit_cast (early ∷ late ∷ []) (middle ∷ []) ≡ done (early ∷ middle ∷ late ∷ [])
unfolding add_ranges insert_into_ranges insert_loop to_timestamp
add_ranges-run = refl

increasing : Increasing digit_cast minus_one64 two_ranges.ranges
unfolding to_timestamp
increasing = (1000000000, refl, omega arith, (3000000000, refl, omega arith, tt))

abbrev at_two : List ℕ
at_two = 0 ∷ 148 ∷ 53 ∷ 119 ∷ 0 ∷ 0 ∷ 0 ∷ 0 ∷ []

abbrev first : Partition
first = partition 10 0 "early"

abbrev second : Partition
second = partition 11 100 "late"

partition_ids_by_range_field_example :
    ((i : ℕ) × (r : Range) × Holds digit_cast 2000000000 two_ranges.ranges i r
      × (partition_ids_by_range_field digit_cast (first ∷ second ∷ []) two_ranges.ranges at_two
          ≡ done (ids_named r.name (first ∷ second ∷ []))))
    ⊎ (Passed digit_cast 2000000000 two_ranges.ranges
        × (partition_ids_by_range_field digit_cast (first ∷ second ∷ []) two_ranges.ranges at_two
            ≡ failed param_error))
unfolding bytes_to_int
partition_ids_by_range_field_example =
    partition_ids_by_range_field_cases digit_cast first second [] two_ranges.ranges at_two
      minus_one64 2000000000 increasing refl

create_partitions-ids_named_example :
    (ps : List Partition) × (create_partitions (λ k. ok (ids_from_10 k)) (some two_ranges) 1 1 2
      ≡ done ps)
    × (ids_named "late" ps ≡ span (λ k. ids_from_10 k % 2 ^ 32) (1 * 2) 2)
create_partitions-ids_named_example =
    create_partitions-ids_named ids_from_10 two_ranges 1 1 2 1 late
      ((λ e. ground (arith, eq_iff "late" "early"), tt), (tt, tt)) refl refl (omega arith)
      (omega arith)

validate_range_iff_example :
    (((validate_range digit_cast two_ranges two_ranges 2).0 ≡ ok tt)
      ↔ (two_ranges.type ≡ range_partition) × IsValid digit_cast two_ranges 2)
    × ((validate_range digit_cast two_ranges two_ranges 2).1 ≡ (
        if str_eq two_ranges.type range_partition
        then record two_ranges { partitions = 2 }
        else two_ranges))
validate_range_iff_example = validate_range_iff digit_cast two_ranges two_ranges 2

-- Four ranges with 2^62 partitions each: the product wraps to 0 and is accepted.
wrapped_total : fail_if (lt64 max_total_partitions (mul64 4 (2 ^ 62))) param_error ≡ ok tt
wrapped_total = refl
