-- ===== src/Space/Ranges.antt =====
-- Range partitioning, of internal/entity/partition.go: ToTimestamp, insertIntoRanges, AddRanges,
-- RangeIsSame, ValidateRange and Validate.
pub mod Insert
pub mod Valid
use vearch.Prelude.{
  ℕ, zero, suc, String, ◌+◌, ◌-◌, ◌*◌, ◌/◌, ◌%◌, ◌^◌, List, [], ◌∷◌, ◌++◌, Option, none, some, ltb,
  if◌then◌else◌, get_elem?, Outcome, done, failed, panic, out_of_fuel, and_then, Result, ok, err,
  ◌==◌, Bool, true, false, ◌||◌, not, param_error, str_eq, has_str, length, take, drop, mul64, lt64,
  le64, minus_one64, ◌>>=◌, ◌>>◌, fail_if, ◌≡◌, ◌≤◌, ◌<◌, key64, arith,
}
use vearch.Prelude.Assoc.{lookup}
use vearch.Space.Model.{Range, PartitionRule, FieldType, date}

abbrev pub max_partitions : ℕ
max_partitions = 1024

abbrev pub max_total_partitions : ℕ
max_total_partitions = 1024 * 16

abbrev pub range_partition : String
range_partition = "RANGE"

-- github.com/spf13/cast: ToInt64E, and ToTimeE followed by UnixNano. `none` is an error; a number is
-- the bit pattern of an int64.
pub record Cast : Type 0 where
  pub to_int64 : String → Option ℕ
  pub to_time : String → Option ℕ

module _ (cast : Cast) where
  -- a time that does not parse is a PARAM_ERROR, and a number counts seconds
  unfoldable pub to_timestamp : String → Result ℕ
  to_timestamp value = elim (cast.to_int64 value) [
    | some i ↦ ok (mul64 i 1_000_000_000)
    | none ↦ elim (cast.to_time value) [ some f ↦ ok f | none ↦ err param_error ]
  ]

  -- The loop `for left < right` of insertIntoRanges.
  unfoldable pub insert_loop : ℕ → List Range → ℕ → ℕ → ℕ → Outcome ℕ
  insert_loop zero arr ts left right = out_of_fuel
  insert_loop (suc fuel) arr ts left right =
      let mid = (left + right) / 2 in
      let up = insert_loop fuel arr ts (mid + 1) right in
      let down = insert_loop fuel arr ts left mid in
      if ltb left right
      then (elim (get_elem? arr mid) [
        | none ↦ panic
        | some r ↦ elim (to_timestamp r.value) [
          | err e ↦ failed e
          | ok mid_value ↦ if lt64 mid_value ts then up else down
        ]
      ])
      else done left

  -- The append and the copy move the ranges from `left` on up by one. The fuel is one more than the
  -- ranges: each round shrinks right - left.
  unfoldable pub insert_into_ranges : List Range → Range → Outcome (List Range)
  insert_into_ranges arr r = elim (to_timestamp r.value) [
    | err e ↦ failed e
    | ok ts ↦
        and_then (insert_loop (suc (length arr)) arr ts 0 (length arr))
          λ left. done (take left arr ++ (r ∷ drop left arr))
  ]

  -- the loop of AddRanges; pr.Ranges is the first `arr`
  unfoldable pub add_ranges : List Range → List Range → Outcome (List Range)
  add_ranges arr [] = done arr
  add_ranges arr (r ∷ rs) = and_then (insert_into_ranges arr r) λ next. add_ranges next rs

  -- The loop over the ranges of ValidateRange, with the names and values seen and `before`.
  unfoldable pub check_ranges : ℕ → List String → List String → List Range → Result (Unit {0})
  check_ranges before names values [] = ok tt
  check_ranges before names values (r ∷ rs) = do
    fail_if (str_eq r.name "") param_error
    fail_if (has_str r.name names) param_error
    fail_if (has_str r.value values) param_error
    fail_if (str_eq r.value "") param_error
    time_num ← to_timestamp r.value
    fail_if (le64 time_num before) param_error
    check_ranges time_num (r.name ∷ names) (r.value ∷ values) rs

  -- The product of two ints wraps. `rule` is space.PartitionRule, whose count of partitions is set before the checks that read it.
  unfoldable pub validate_range :
      PartitionRule → PartitionRule → ℕ → Result (Unit {0}) × PartitionRule
  validate_range pr rule partition_num =
      let n = length rule.ranges in
      let counted = record rule { partitions = n } in
      let checked =
        fail_if (n == 0) param_error
        >> (fail_if (ltb max_partitions n) param_error
            >> (fail_if (lt64 max_total_partitions (mul64 n partition_num)) param_error
                >> check_ranges minus_one64 [] [] rule.ranges)) in
      if str_eq pr.type range_partition then (checked, counted) else (err param_error, rule)

  -- `fields` are the types of space.SpaceProperties
  check_field : PartitionRule → List (String × FieldType) → Result (Unit {0})
  check_field rule fields =
      if str_eq rule.field "" then err param_error else elim (lookup rule.field fields) [
        | none ↦ err param_error
        | some type ↦ elim type [ date ↦ ok tt | _ ↦ err param_error ]
      ]

  unfoldable pub validate :
      PartitionRule
      → PartitionRule
      → ℕ
      → List (String × FieldType)
      → Bool
      → Result (Unit {0}) × PartitionRule
  unfolding check_field
  validate pr rule partition_num fields check =
      let checked = validate_range pr rule partition_num in
      if check
      then (elim (check_field rule fields) [ err e ↦ (err e, rule) | ok _ ↦ checked ])
      else checked

-- The first loop of RangeIsSame: the names and values of the space's ranges, which must differ.
same_own : List String → List String → List Range → Result (List String × List String)
same_own names values [] = ok (names, values)
same_own names values (r ∷ rs) = do
  fail_if (has_str r.name names) param_error
  fail_if (has_str r.value values) param_error
  same_own (r.name ∷ names) (r.value ∷ values) rs

-- The second loop, over the ranges to add. It adds nothing to the maps.
same_new : List String → List String → List Range → Result (Unit {0})
same_new names values [] = ok tt
same_new names values (r ∷ rs) = do
  fail_if (has_str r.name names) param_error
  fail_if (has_str r.value values) param_error
  same_new names values rs

-- The returned bool is true exactly where there is an error, so the result has the error alone.
unfoldable pub range_is_same : List Range → List Range → Result (Unit {0})
unfolding same_own same_new
range_is_same own ranges = do seen ← same_own [] [] own; same_new seen.0 seen.1 ranges
