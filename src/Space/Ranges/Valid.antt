-- ===== src/Space/Ranges/Valid.antt =====
-- ValidateRange accepts exactly the range rules that are well formed.
use vearch.Prelude.{
  ℕ, String, List, [], ◌∷◌, if◌then◌else◌, inl, inr, ◌⊎◌, ok, false, mul64, lt64, ltb, Bool-cases,
  ◌^◌, Result-cases, eq_iff, refl, str_eq, has_str, length, minus_one64, ◌≡◌, ◌≢◌, ◌↔◌, ◌≤◌, ◌<◌,
  key64, arith, All,
}
use vearch.Space.Model.{Range, PartitionRule}
use vearch.Space.Ranges.{
  Cast, to_timestamp, check_ranges, validate_range, range_partition, max_partitions,
  max_total_partitions,
}

-- No two ranges have one name.
abbrev pub Differ : List Range → Type 0
Differ [] = Unit
Differ (r ∷ rs) = All (λ q. q.name ≢ r.name) rs × Differ rs

-- An int that is at most 16384: small or negative
abbrev pub IsFew : ℕ → Type 0
IsFew total = (total ≤ max_total_partitions) ⊎ (2 ^ 63 ≤ total)

module _ (cast : Cast) where
  -- The values are times, each later than the one before it and the first later than `before`.
  abbrev pub Increasing : ℕ → List Range → Type 0
  Increasing before [] = Unit
  Increasing before (r ∷ rs) =
      (t : ℕ) × (to_timestamp cast r.value ≡ ok t) × (key64 before < key64 t) × Increasing t rs

  -- A well-formed rule: at least one and at most 1024 ranges, a product of the
  -- numbers of ranges and of partitions that, as an int, is at most 16384, names and values that are there, no name twice, and times that increase from 0.
  pub record IsValid (rule : PartitionRule) (partition_num : ℕ) : Type 0 where
    pub some_range : 0 < length rule.ranges
    pub few_ranges : length rule.ranges ≤ max_partitions
    pub few_partitions : IsFew (mul64 (length rule.ranges) partition_num)
    pub named : All (λ r. r.name ≢ "") rule.ranges
    pub valued : All (λ r. r.value ≢ "") rule.ranges
    pub distinct : Differ rule.ranges
    pub increasing : Increasing minus_one64 rule.ranges

  -- One round of the loop, taken apart.
  abbrev Round : ℕ → List String → List String → Range → List Range → Type 0
  Round before names values r rs =
      (t : ℕ) × (to_timestamp cast r.value ≡ ok t)
      × (key64 before < key64 t)
      × (r.name ≢ "")
      × (r.value ≢ "")
      × (has_str r.name names ≡ false)
      × (has_str r.value values ≡ false)
      × (check_ranges cast t (r.name ∷ names) (r.value ∷ values) rs ≡ ok tt)

  check_ranges-Round :
      (before : ℕ) (names values : List String) (r : Range) (rs : List Range)
      → check_ranges cast before names values (r ∷ rs) ≡ ok tt
      → Round before names values r rs
  unfolding check_ranges
  check_ranges-Round before names values r rs h = elim (Result-cases (to_timestamp cast r.value)) [
    | inl (t, e) ↦ (
      t,
      e,
      ground arith,
      ground (arith, eq_iff r.name ""),
      ground (arith, eq_iff r.value ""),
      ground arith,
      ground arith,
      ground arith,
    )
    | inr (x, e) ↦ absurd (ground arith)
  ]

  Round-check_ranges :
      (before : ℕ) (names values : List String) (r : Range) (rs : List Range)
      → Round before names values r rs
      → check_ranges cast before names values (r ∷ rs) ≡ ok tt
  unfolding check_ranges
  Round-check_ranges before names values r rs (t, e, l, n, v, fn, fv, h) =
      ground (arith, eq_iff r.name "", eq_iff r.value "")

-- No name of the list is that of the range.
abbrev Unseen : List String → Range → Type 0
Unseen names r = has_str r.name names ≡ false

Unseen-cons :
    (s : String) (names : List String) (rs : List Range)
    → All (Unseen (s ∷ names)) rs
    → All (λ q. q.name ≢ s) rs × All (Unseen names) rs
Unseen-cons s names [] h = (tt, tt)
Unseen-cons s names (r ∷ rs) h =
    let (a, b) = Unseen-cons s names rs h.1 in let (c, d) = unseen s names r h.0 in ((c, a), (d, b))
  where
    unseen :
        (s : String) (names : List String) (r : Range)
        → Unseen (s ∷ names) r
        → (r.name ≢ s) × Unseen names r
    unseen s names r h = (λ e. ground (arith, eq_iff s r.name), ground arith)

of_Unseen :
    (s : String) (names : List String) (rs : List Range)
    → All (λ q. q.name ≢ s) rs
    → All (Unseen names) rs
    → All (Unseen (s ∷ names)) rs
of_Unseen s names [] a b = tt
of_Unseen s names (r ∷ rs) a b =
    (ground (arith, eq_iff s r.name, a.0, b.0), of_Unseen s names rs a.1 b.1)

module _ (cast : Cast) where
  -- What the loop has shown when it ends without an error.
  record Sound (before : ℕ) (names : List String) (rs : List Range) : Type 0 where
    named : All (λ r. r.name ≢ "") rs
    valued : All (λ r. r.value ≢ "") rs
    distinct : Differ rs
    fresh : All (Unseen names) rs
    increasing : Increasing cast before rs

  check_ranges-Sound :
      (before : ℕ) (names values : List String) (rs : List Range)
      → check_ranges cast before names values rs ≡ ok tt
      → Sound before names rs
  check_ranges-Sound before names values [] h = record {
    named = tt;
    valued = tt;
    distinct = tt;
    fresh = tt;
    increasing = tt;
  }
  check_ranges-Sound before names values (r ∷ rs) h =
      let (t, e, l, n, v, fn, fv, rest) = check_ranges-Round cast before names values r rs h in
      let s = check_ranges-Sound t (r.name ∷ names) (r.value ∷ values) rs rest in
      let (a, b) = Unseen-cons r.name names rs s.fresh in
      record {
        named = (n, s.named);
        valued = (v, s.valued);
        distinct = (a, s.distinct);
        fresh = (fn, b);
        increasing = (t, e, l, s.increasing);
      }

  -- The values seen are times no later than `before`.
  abbrev Past : ℕ → List String → Type 0
  Past before values =
      All (λ v. (t : ℕ) × (to_timestamp cast v ≡ ok t) × (key64 t ≤ key64 before)) values

  Past-later : (b c : ℕ) (values : List String) → key64 b ≤ key64 c → Past b values → Past c values
  Past-later b c [] l h = tt
  Past-later b c (v ∷ vs) l h = ((h.0.0, h.0.1, omega (arith, h.0.2)), Past-later b c vs l h.1)

  -- A value that is later than all that were seen is not among them.
  later_unseen :
      (before t : ℕ) (v : String) (values : List String)
      → Past before values
      → to_timestamp cast v ≡ ok t
      → key64 before < key64 t
      → has_str v values ≡ false
  later_unseen before t v [] h e l = refl
  later_unseen before t v (w ∷ ws) h e l =
      ground (arith, eq_iff w v, later_unseen before t v ws h.1 e l, h.0.1, h.0.2)

  check_ranges_of_Sound :
      (before : ℕ) (names values : List String) (rs : List Range)
      → Past before values
      → Sound before names rs
      → check_ranges cast before names values rs ≡ ok tt
  check_ranges_of_Sound before names values [] p s = unfold check_ranges in refl
  check_ranges_of_Sound before names values (r ∷ rs) p s =
      let (t, e, l, inc) = s.increasing in
      Round-check_ranges cast before names values r rs (
        t,
        e,
        l,
        s.named.0,
        s.valued.0,
        s.fresh.0,
        later_unseen before t r.value values p e l,
        check_ranges_of_Sound t (r.name ∷ names) (r.value ∷ values) rs
            ((t, e, omega arith), Past-later before t values (omega arith) p)
            (record {
              named = s.named.1;
              valued = s.valued.1;
              distinct = s.distinct.1;
              fresh = of_Unseen r.name names rs s.distinct.0 s.fresh.1;
              increasing = inc;
            }),
      )

-- The names seen are none at the start.
none_seen : (rs : List Range) → All (Unseen []) rs
none_seen [] = tt
none_seen (r ∷ rs) = (refl, none_seen rs)

-- ValidateRange accepts a rule exactly where its type is RANGE and the space's rule has at least one
-- and at most 1024 ranges, a product of their number and the number of partitions that, wrapped to an int, is
-- at most 16384, a name and a value for each range, no name twice, and values whose times increase strictly from above -1. Whatever the
-- verdict, the rule's count of partitions becomes its number of ranges where the type is RANGE, and
-- nothing else of the rule changes.
pub validate_range_iff :
    (cast : Cast) (pr rule : PartitionRule) (num : ℕ)
    → (((validate_range cast pr rule num).0 ≡ ok tt)
        ↔ (pr.type ≡ range_partition) × IsValid cast rule num)
      × ((validate_range cast pr rule num).1 ≡ (
          if str_eq pr.type range_partition
          then record rule { partitions = length rule.ranges }
          else rule))
unfolding validate_range
validate_range_iff cast pr rule num = ((to, from), ground arith)
  where
    n : ℕ
    n = length rule.ranges

    to :
        (validate_range cast pr rule num).0 ≡ ok tt
        → (pr.type ≡ range_partition) × IsValid cast rule num
    to h =
        let s = check_ranges-Sound cast minus_one64 [] [] rule.ranges (ground arith) in
        (
          ground (arith, eq_iff pr.type range_partition),
          record {
            some_range = ground arith;
            few_ranges = ground arith;
            few_partitions = elim (Bool-cases (ltb max_total_partitions (mul64 n num))) [
              | inl more ↦ inr (ground arith)
              | inr less ↦ inl (ground arith)
            ];
            named = s.named;
            valued = s.valued;
            distinct = s.distinct;
            increasing = s.increasing;
          },
        )

    few : IsFew (mul64 n num) → lt64 max_total_partitions (mul64 n num) ≡ false
    few (inl small) = ground arith
    few (inr negative) = ground arith

    from :
        (pr.type ≡ range_partition) × IsValid cast rule num
        → (validate_range cast pr rule num).0 ≡ ok tt
    from (e, v) =
        let c = check_ranges_of_Sound cast minus_one64 [] [] rule.ranges tt (record {
          named = v.named;
          valued = v.valued;
          distinct = v.distinct;
          fresh = none_seen rule.ranges;
          increasing = v.increasing;
        }) in
        ground (
          arith,
          eq_iff pr.type range_partition,
          c,
          v.some_range,
          v.few_ranges,
          few v.few_partitions,
        )
