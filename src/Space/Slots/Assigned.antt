-- ===== src/Space/Slots/Assigned.antt =====
-- The partitions that the two slot loops leave: one for each index, made for that index.
use vearch.Prelude.{
  ℕ, zero, suc, ◌+◌, ◌<◌, ◌≡◌, refl, List, [], ◌∷◌, Option, some, String, length, get_elem?, done,
  Result, ok, arith, ◌>>=◌, ◌%◌, ◌^◌,
}
use vearch.Space.Model.{Partition, PartitionRule}
use vearch.Space.Slots.{slot_of, name_of, new_partition, create_loop, reslot_loop}

-- The list has `n` partitions, and the one at index j fits the index i + j.
pub record AtEach (P : ℕ → Partition → Type 0) (i n : ℕ) (ps : List Partition) : Type 0 where
  pub count : length ps ≡ n
  pub at : (j : ℕ) (p : Partition) → get_elem? ps j ≡ some p → P (i + j) p

module _ (P : ℕ → Partition → Type 0) where
  AtEach-nil : (i : ℕ) → AtEach P i 0 []
  AtEach-nil i = record { count = refl; at = λ j p h. absurd (ground arith) }

  AtEach-cons :
      (i n : ℕ) (p : Partition) (ps : List Partition)
      → P i p
      → AtEach P (i + 1) n ps
      → AtEach P i (suc n) (p ∷ ps)
  AtEach-cons i n p ps e h = record { count = omega (arith, h.count); at = found }
    where
      found : (j : ℕ) (q : Partition) → get_elem? (p ∷ ps) j ≡ some q → P (i + j) q
      found zero q r = let z : i + 0 ≡ i = omega arith in let s : p ≡ q = cc in rw (z, ← s) e
      found (suc j) q r = let z : i + suc j ≡ i + 1 + j = omega arith in rw z (h.at j q r)

module _ (new_id : ℕ → Result ℕ) (rule : Option PartitionRule) (space_id db_id num width : ℕ) where
  -- The partition of round k: its id is the answer of the k-th call in 32 bits, its name that of its range.
  abbrev pub Made : ℕ → Partition → Type 0
  Made k p =
      ((new_id k >>= λ id. ok (id % 2 ^ 32)) ≡ ok p.id)
      × (name_of rule num k ≡ done p.name)
      × (p.slot ≡ slot_of width k)

  -- Where every call answers and every range is there, the loop makes all its partitions.
  pub create_loop-Made :
      (left i : ℕ)
      → ((k : ℕ) → k < i + left → (id : ℕ) × (new_id k ≡ ok id))
      → ((k : ℕ) → k < i + left → (s : String) × (name_of rule num k ≡ done s))
      → (ps : List Partition) × (create_loop new_id rule space_id db_id num width left i ≡ done ps)
        × AtEach Made i left ps
  unfolding create_loop new_partition
  create_loop-Made zero i a b = ([], refl, AtEach-nil Made i)
  create_loop-Made (suc left) i a b =
      let (id, e) = a i (omega arith) in
      let (s, f) = b i (omega arith) in
      let (ps, g, h) =
        create_loop-Made left (i + 1) (λ k l. a k (omega arith)) (λ k l. b k (omega arith)) in
      let p : Partition = new_partition space_id db_id id s (slot_of width i) in
      (p ∷ ps, rw (e, f, g) refl, AtEach-cons Made i left p ps (rw e refl, f, refl) h)

-- The partition has the slot of its index.
abbrev pub Slotted : ℕ → ℕ → Partition → Type 0
Slotted width k p = p.slot ≡ slot_of width k

-- The loop ends, with the ids and names as they were, exactly one new slot to each partition.
pub reslot_loop-Slotted :
    (width left i : ℕ) (ps : List Partition)
    → length ps ≡ left
    → (qs : List Partition) × (reslot_loop width i left ps ≡ done qs)
      × AtEach (Slotted width) i left qs
unfolding reslot_loop
reslot_loop-Slotted width zero i [] n = ([], refl, AtEach-nil (Slotted width) i)
reslot_loop-Slotted width zero i (p ∷ ps) n = absurd (omega arith)
reslot_loop-Slotted width (suc left) i [] n = absurd (omega arith)
reslot_loop-Slotted width (suc left) i (p ∷ ps) n =
    let (qs, g, h) = reslot_loop-Slotted width left (i + 1) ps (omega arith) in
    let q : Partition = record p { slot = slot_of width i } in
    (q ∷ qs, rw g refl, AtEach-cons (Slotted width) i left q qs refl h)

-- The loop changes no partition's id.
pub reslot_loop-id :
    (width left i : ℕ) (ps qs : List Partition)
    → reslot_loop width i left ps ≡ done qs
    → (j : ℕ) (q : Partition) → get_elem? qs j ≡ some q
    → (p : Partition) × (get_elem? ps j ≡ some p) × (p.id ≡ q.id)
unfolding reslot_loop
reslot_loop-id width zero i ps qs h j q e = (q, ground arith, refl)
reslot_loop-id width (suc left) i [] qs h j q e = absurd (ground arith)
reslot_loop-id width (suc left) i (p ∷ ps) [] h j q e = absurd (ground arith)
reslot_loop-id width (suc left) i (p ∷ ps) (r ∷ qs) h zero q e = (p, refl, ground arith)
reslot_loop-id width (suc left) i (p ∷ ps) (r ∷ qs) h (suc j) q e =
    reslot_loop-id width left (i + 1) ps qs (ground arith) j q e
