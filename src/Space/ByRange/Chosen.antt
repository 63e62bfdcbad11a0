-- ===== src/Space/ByRange/Chosen.antt =====
-- The partitions that a value of the partition field is sent to.
use vearch.Prelude.{
  ℕ, zero, suc, ◌<◌, ◌≤◌, List, [], ◌∷◌, none, some, ◌≡◌, refl, ◌⊎◌, inl, inr, done, failed, ok,
  param_error, lt64, key64, All, arith, Bool-cases, get_elem?,
}
use vearch.Space.Model.{Range, Partition}
use vearch.Space.Ranges.{Cast, to_timestamp}
use vearch.Space.Ranges.Valid.{Increasing}
use vearch.Space.ByRange.{
  bytes_to_int, timestamp_or_zero, first_range, ids_named, partition_ids_by_range_field,
}

module _ (cast : Cast) where
  -- The range at index i is the one whose half-open interval of times holds `ts`: it ends after `ts`,
  -- and every range before it ends at or before `ts`.
  pub record Holds (ts : ℕ) (ranges : List Range) (i : ℕ) (r : Range) : Type 0 where
    pub here : get_elem? ranges i ≡ some r
    pub ends : (t : ℕ) × (to_timestamp cast r.value ≡ ok t) × (key64 ts < key64 t)
    pub starts :
        (j : ℕ) (q : Range)
        → j < i
        → get_elem? ranges j ≡ some q
        → (t : ℕ) × (to_timestamp cast q.value ≡ ok t) × (key64 t ≤ key64 ts)

  Holds-suc :
      (ts i : ℕ) (x r : Range) (xs : List Range) (t : ℕ)
      → to_timestamp cast x.value ≡ ok t
      → key64 t ≤ key64 ts
      → Holds ts xs i r
      → Holds ts (x ∷ xs) (suc i) r
  Holds-suc ts i x r xs t e l h = record { here = h.here; ends = h.ends; starts = early }
    where
      early :
          (j : ℕ) (q : Range)
          → j < suc i
          → get_elem? (x ∷ xs) j ≡ some q
          → (t : ℕ) × (to_timestamp cast q.value ≡ ok t) × (key64 t ≤ key64 ts)
      early zero q k g = let s : x ≡ q = cc in (t, rw (← s) e, l)
      early (suc j) q k g = h.starts j q (omega arith) g

  -- Every range ends at or before `ts`.
  abbrev pub Passed : ℕ → List Range → Type 0
  Passed ts = All (λ r. (t : ℕ) × (to_timestamp cast r.value ≡ ok t) × (key64 t ≤ key64 ts))

  first_range_cases :
      (ts before : ℕ) (ranges : List Range)
      → Increasing cast before ranges
      → ((i : ℕ) × (r : Range) × Holds ts ranges i r × (first_range cast ts ranges ≡ some r.name))
        ⊎ (Passed ts ranges × (first_range cast ts ranges ≡ none))
  unfolding first_range timestamp_or_zero
  first_range_cases ts before [] h = inr (tt, refl)
  first_range_cases ts before (x ∷ xs) (t, e, l, inc) = elim (Bool-cases (lt64 ts t)) [
    | inl c ↦ inl (
      0,
      x,
      record { here = refl; ends = (t, e, ground arith); starts = λ j q k g. elim k [ ] },
      rw (e, timestamp_or_zero, c) refl,
    )
    | inr c ↦
        let past : key64 t ≤ key64 ts = ground arith in
        elim (first_range_cases ts t xs inc) [
          | inl (i, r, h, f) ↦
              inl (suc i, r, Holds-suc ts i x r xs t e past h, rw (e, timestamp_or_zero, c) f)
          | inr (p, f) ↦ inr (((t, e, past), p), rw (e, timestamp_or_zero, c) f)
        ]
  ]

  -- In a space of two partitions or more whose range values are times that increase, a field value of
  -- eight bytes or more is sent to the partitions named after the one range whose interval holds it,
  -- the range that ends after it while all before it have ended; where every range has ended, the
  -- answer is a PARAM_ERROR.
  pub partition_ids_by_range_field_cases :
      (p q : Partition) (ps : List Partition) (ranges : List Range) (value : List ℕ) (before ts : ℕ)
      → Increasing cast before ranges
      → bytes_to_int value ≡ some ts
      → ((i : ℕ) × (r : Range) × Holds ts ranges i r
          × (partition_ids_by_range_field cast (p ∷ q ∷ ps) ranges value
              ≡ done (ids_named r.name (p ∷ q ∷ ps))))
        ⊎ (Passed ts ranges
            × (partition_ids_by_range_field cast (p ∷ q ∷ ps) ranges value ≡ failed param_error))
  unfolding partition_ids_by_range_field
  partition_ids_by_range_field_cases p q ps ranges value before ts inc e =
      elim (first_range_cases ts before ranges inc) [
        | inl (i, r, h, f) ↦ inl (i, r, h, rw (e, f, partition_ids_by_range_field) refl)
        | inr (h, f) ↦ inr (h, rw (e, f, partition_ids_by_range_field) refl)
      ]
