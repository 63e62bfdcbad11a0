-- ===== src/Space/Lookup/Search.antt =====
-- The binary search of Space.PartitionId ends at the one owner of the slot.
use vearch.Prelude.{
  ℕ, zero, suc, ◌+◌, ◌-◌, ◌/◌, ◌≤◌, ◌<◌, ◌≡◌, refl, inl, inr, List, [], ◌∷◌, some, ltb, length,
  Bool-cases, get_elem?, get_elem?-lt, lt-get_elem?, Outcome, done, arith, ltb→lt,
}
use vearch.Space.Model.{Partition}
use vearch.Space.Lookup.{last_id, lookup_loop, partition_id}

-- The slots grow along the list.
pub record IsSorted (arr : List Partition) : Type 0 where
  pub lt :
      (i j : ℕ) (p q : Partition)
      → i < j
      → get_elem? arr i ≡ some p
      → get_elem? arr j ≡ some q
      → p.slot < q.slot

-- The partition `p` at index `i` is the last whose slot is at most `slot_id`.
pub record Owns (arr : List Partition) (slot_id i : ℕ) (p : Partition) : Type 0 where
  pub here : get_elem? arr i ≡ some p
  pub below : p.slot ≤ slot_id
  pub above : (j : ℕ) (q : Partition) → i < j → get_elem? arr j ≡ some q → slot_id < q.slot

-- What the loop knows of the indices that it has left behind.
record Inv (arr : List Partition) (slot_id low hi : ℕ) : Type 0 where
  ordered : low ≤ hi
  inside : hi ≤ length arr
  left : (j : ℕ) (q : Partition) → j < low → get_elem? arr j ≡ some q → q.slot ≤ slot_id
  right : (j : ℕ) (q : Partition) → hi ≤ j → get_elem? arr j ≡ some q → slot_id < q.slot

module _ (arr : List Partition) (slot_id : ℕ) (sorted : IsSorted arr) where
  down_Inv :
      (low hi mid : ℕ) (p : Partition)
      → Inv arr slot_id low hi
      → low ≤ mid
      → mid < hi
      → get_elem? arr mid ≡ some p
      → slot_id < p.slot
      → Inv arr slot_id low mid
  down_Inv low hi mid p inv a b e h = record {
    ordered = a;
    inside = omega arith;
    left = inv.left;
    right = λ j q k r. elim (Bool-cases (ltb mid j)) [
      | inl t ↦ omega (arith, sorted.lt mid j p q (ltb→lt mid j t) e r)
      | inr t ↦ let same : j ≡ mid = ground arith in ground (arith, (rw same at r))
    ];
  }

  up_Inv :
      (low hi mid : ℕ) (p : Partition)
      → Inv arr slot_id low hi
      → low ≤ mid
      → mid < hi
      → get_elem? arr mid ≡ some p
      → p.slot < slot_id
      → Inv arr slot_id (mid + 1) hi
  up_Inv low hi mid p inv a b e h = record {
    ordered = omega arith;
    inside = inv.inside;
    left = λ j q k r. elim (Bool-cases (ltb j mid)) [
      | inl t ↦ omega (arith, sorted.lt j mid q p (ltb→lt j mid t) r e)
      | inr t ↦ let same : j ≡ mid = ground arith in ground (arith, (rw same at r))
    ];
    right = inv.right;
  }

  abbrev Finds : Outcome ℕ → Type 0
  Finds r = (i : ℕ) × (p : Partition) × Owns arr slot_id i p × (r ≡ done p.id)

  -- Where the loop ends by its test, the partition before `low` is the owner.
  last_id-Finds :
      (low : ℕ)
      → Inv arr slot_id low low
      → 0 < length arr
      → ((p : Partition) → get_elem? arr 0 ≡ some p → p.slot ≤ slot_id)
      → Finds (last_id arr low)
  unfolding last_id
  last_id-Finds zero inv n z =
      let (p, e) = get_elem?-lt arr 0 n in
      absurd (omega (arith, z p e, inv.right 0 p (omega arith) e))
  last_id-Finds (suc k) inv n z =
      let (p, e) = get_elem?-lt arr k (omega (arith, inv.inside)) in
      (
        k,
        p,
        record { here = e; below = inv.left k p (omega arith) e; above = inv.right },
        rw (e, last_id),
      )

  -- The loop ends with the owner, given that the first slot is at most `slot_id`.
  lookup_loop-Finds :
      (fuel low hi : ℕ)
      → hi - low < fuel
      → Inv arr slot_id low hi
      → 0 < length arr
      → ((p : Partition) → get_elem? arr 0 ≡ some p → p.slot ≤ slot_id)
      → Finds (lookup_loop fuel arr slot_id low hi)
  unfolding lookup_loop
  lookup_loop-Finds zero low hi f inv n z = absurd (omega arith)
  lookup_loop-Finds (suc fuel) low hi f inv n z = elim (Bool-cases (ltb low hi)) [
    | inl more ↦
        let lt : low < hi = ltb→lt low hi more in
        let mid = (low + hi - 1) / 2 in
        let (p, e) = get_elem?-lt arr mid (omega (arith, inv.inside)) in
        elim (Bool-cases (ltb slot_id p.slot)) [
          | inl t ↦
              rw (more, e, t)
                (lookup_loop-Finds fuel low mid (omega arith)
                  (down_Inv low hi mid p inv (omega arith) (omega arith) e (ltb→lt _ _ t)) n z)
          | inr t ↦ elim (Bool-cases (ltb p.slot slot_id)) [
            | inl u ↦
                rw (more, e, t, u)
                  (lookup_loop-Finds fuel (mid + 1) hi (omega arith)
                    (up_Inv low hi mid p inv (omega arith) (omega arith) e (ltb→lt _ _ u)) n z)
            | inr u ↦ (
              mid,
              p,
              record {
                here = e;
                below = ground arith;
                above = λ j q k r.
                    let s : p.slot ≡ slot_id = ground arith in
                    omega (arith, sorted.lt mid j p q k e r);
              },
              rw (more, e, t, u),
            )
          ]
        ]
    | inr stop ↦
        let same : hi ≡ low = ground (arith, inv.ordered) in
        rw (stop) (last_id-Finds low (rw same at inv) n z)
  ]

-- In a space whose slots grow along the partitions and whose first slot is at most `slot_id`,
-- PartitionId returns, without a panic and within its fuel, the id of the last partition whose slot
-- is at most `slot_id`: that partition's slot is at most `slot_id`, and every later one's is above.
pub partition_id-Owns :
    (arr : List Partition) (slot_id : ℕ)
    → IsSorted arr
    → 0 < length arr
    → ((p : Partition) → get_elem? arr 0 ≡ some p → p.slot ≤ slot_id)
    → (i : ℕ) × (p : Partition) × Owns arr slot_id i p × (partition_id arr slot_id ≡ done p.id)
unfolding partition_id
partition_id-Owns [] slot_id s n z = absurd (omega arith)
partition_id-Owns (p ∷ []) slot_id s n z = (
  0,
  p,
  record {
    here = refl;
    below = z p refl;
    above = λ j q k r. absurd (omega (arith, lt-get_elem? (p ∷ []) j r));
  },
  refl,
)
partition_id-Owns (p ∷ q ∷ rest) slot_id s n z =
    let arr = p ∷ q ∷ rest in
    lookup_loop-Finds arr slot_id s (suc (length arr)) 0 (length arr) (omega arith)
      (record {
        ordered = omega arith;
        inside = omega arith;
        left = λ j x k r. elim k [ ];
        right = λ j x k r. absurd (omega (arith, lt-get_elem? arr j r));
      })
      n z
