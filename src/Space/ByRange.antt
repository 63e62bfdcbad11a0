-- ===== src/Space/ByRange.antt =====
-- Space.PartitionIdsByRangeField of internal/entity/space.go, with Bytes2Int of
-- internal/pkg/cbbytes/bytes.go, by which it reads the value of the field.
pub mod Chosen
pub mod Created
use vearch.Prelude.{
  ℕ, zero, suc, String, ◌+◌, ◌*◌, List, [], ◌∷◌, Option, none, some, if◌then◌else◌, Outcome, done,
  failed, panic, Result, ok, err, param_error, str_eq, lt64,
}
use vearch.Space.Model.{Range, Partition}
use vearch.Space.Ranges.{Cast, to_timestamp}

-- binary.LittleEndian.Uint64 of the bytes, `none` for the panic on fewer than eight
unfoldable pub bytes_to_int : List ℕ → Option ℕ
bytes_to_int (a ∷ b ∷ c ∷ d ∷ e ∷ f ∷ g ∷ h ∷ _) =
    some (a + 256 * (b + 256 * (c + 256 * (d + 256 * (e + 256 * (f + 256 * (g + 256 * h)))))))
bytes_to_int _ = none

-- the ids of the partitions of a name
unfoldable pub ids_named : String → List Partition → List ℕ
ids_named name [] = []
ids_named name (p ∷ ps) =
    let rest = ids_named name ps in if str_eq p.name name then p.id ∷ rest else rest

module _ (cast : Cast) where
  -- `value, _ := ToTimestamp(r.Value)`: the error is dropped, and the value is then 0
  unfoldable pub timestamp_or_zero : String → ℕ
  timestamp_or_zero s = elim (to_timestamp cast s) [ ok t ↦ t | err _ ↦ 0 ]

  -- the name of the first range that ends after `ts`
  unfoldable pub first_range : ℕ → List Range → Option String
  first_range ts [] = none
  first_range ts (r ∷ rs) =
      if lt64 ts (timestamp_or_zero r.value) then some r.name else first_range ts rs

  unfoldable pub partition_ids_by_range_field :
      List Partition → List Range → List ℕ → Outcome (List ℕ)
  unfolding bytes_to_int timestamp_or_zero first_range ids_named
  partition_ids_by_range_field (p ∷ []) ranges value = done (p.id ∷ [])
  partition_ids_by_range_field arr ranges value = elim (bytes_to_int value) [
    | none ↦ panic
    | some ts ↦ elim (first_range ts ranges) [
      | none ↦ failed param_error
      | some name ↦ done (ids_named name arr)
    ]
  ]
