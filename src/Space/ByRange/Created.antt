-- ===== src/Space/ByRange/Created.antt =====
-- In a new space each range has the partitions that were made for it, and no others.
use native.Mathlib.Nat.{le-div_iff_mul-le, div-lt_iff_lt-mul}
use mathlib.Core.List.{append-nil}
use vearch.Prelude.{
  ℕ, zero, suc, String, ◌+◌, ◌*◌, ◌-◌, ◌/◌, ◌%◌, ◌^◌, ◌<◌, mul64, ◌≤◌, List, [], ◌∷◌, ◌++◌, some,
  if◌then◌else◌, ◌≡◌, ◌≢◌, refl, inl, inr, Outcome, done, panic, ok, str_eq, eq_iff, arith, Bool,
  true, false, Bool-cases, length, get_elem?, get_elem?-lt, All-get_elem?, sym, ap, ◌∙◌, ◌==◌,
  lt-get_elem?, Option-cases,
}
use vearch.Space.Model.{Range, Partition, PartitionRule}
use vearch.Space.Slots.{name_of, create_loop, create_partitions, max_uint32, rounds}
use vearch.Space.Slots.Assigned.{AtEach, create_loop-Made}
use vearch.Space.Ranges.Valid.{Differ}
use vearch.Space.ByRange.{ids_named}

-- The items of the indices from i on, n of them.
abbrev pub span : (ℕ → ℕ) → ℕ → ℕ → List ℕ
span ids i zero = []
span ids i (suc n) = ids i ∷ span ids (i + 1) n

-- Those of them whose index passes a test.
select : (ℕ → Bool) → (ℕ → ℕ) → ℕ → ℕ → List ℕ
select test ids i zero = []
select test ids i (suc n) =
    let rest = select test ids (i + 1) n in if test i then ids i ∷ rest else rest

module _ (test : ℕ → Bool) (ids : ℕ → ℕ) where
  select-append :
      (a b i : ℕ) → select test ids i (a + b) ≡ select test ids i a ++ select test ids (i + a) b
  unfolding select
  select-append zero b i =
      let z : i + 0 ≡ i = omega arith in rw z (let y : 0 + b ≡ b = omega arith in rw y refl)
  select-append (suc a) b i =
      let z : suc a + b ≡ suc (a + b) = omega arith in
      let y : i + suc a ≡ i + 1 + a = omega arith in
      rw (z, y) (ground (arith, select-append a b (i + 1)))

  select_none :
      (n i : ℕ) → ((k : ℕ) → i ≤ k → k < i + n → test k ≡ false) → select test ids i n ≡ []
  unfolding select
  select_none zero i h = refl
  select_none (suc n) i h =
      rw (h i (omega arith) (omega arith))
        (select_none n (i + 1) (λ k a b. h k (omega arith) (omega arith)))

  select_all :
      (n i : ℕ) → ((k : ℕ) → i ≤ k → k < i + n → test k ≡ true) → select test ids i n ≡ span ids i n
  unfolding select
  select_all zero i h = refl
  select_all (suc n) i h =
      rw (h i (omega arith) (omega arith))
        (ap (◌∷◌ (ids i)) (select_all n (i + 1) (λ k a b. h k (omega arith) (omega arith))))

  -- Only the indices from lo on, n of them, pass.
  select_middle :
      (lo n rest : ℕ)
      → ((k : ℕ) → k < lo → test k ≡ false)
      → ((k : ℕ) → lo ≤ k → k < lo + n → test k ≡ true)
      → ((k : ℕ) → lo + n ≤ k → test k ≡ false)
      → select test ids 0 (lo + (n + rest)) ≡ span ids lo n
  select_middle lo n rest a b c =
      let z : 0 + lo ≡ lo = omega arith in
      rw
        (
          select-append lo (n + rest) 0,
          z,
          select-append n rest lo,
          select_none lo 0 (λ k _ l. a k (omega arith)),
          select_all n lo b,
          select_none rest (lo + n) (λ k l _. c k l),
        )
        (append-nil (span ids lo n))

  -- The ids under a name are those of the indices that have the name.
  ids_named-select :
      (name : String) (ps : List Partition) (i n : ℕ)
      → AtEach (λ k p. (p.id ≡ ids k) × (str_eq p.name name ≡ test k)) i n ps
      → ids_named name ps ≡ select test ids i n
  unfolding ids_named select
  ids_named-select name [] i zero h = refl
  ids_named-select name [] i (suc n) h = absurd (omega (arith, h.count))
  ids_named-select name (p ∷ ps) i zero h = absurd (omega (arith, h.count))
  ids_named-select name (p ∷ ps) i (suc n) h =
      let z : i + 0 ≡ i = omega arith in
      let (e, f) = h.at 0 p refl in
      let g : str_eq p.name name ≡ test i = rw z at f in
      let g' : p.id ≡ ids i = rw z at e in
      let rest = ids_named-select name ps (i + 1) n (record {
        count = omega (arith, h.count);
        at = λ j q k. let y : i + 1 + j ≡ i + suc j = omega arith in rw y (h.at (suc j) q k);
      }) in
      ground arith

-- Where no name stands twice, a name says which range it is.
Differ-eq :
    (rs : List Range) (i j : ℕ) (p q : Range)
    → Differ rs
    → get_elem? rs i ≡ some p
    → get_elem? rs j ≡ some q
    → p.name ≡ q.name
    → i ≡ j
Differ-eq [] i j p q d a b e = absurd (ground arith)
Differ-eq (x ∷ rs) zero zero p q d a b e = refl
Differ-eq (x ∷ rs) zero (suc j) p q d a b e =
    let s : x ≡ p = cc in absurd (All-get_elem? (λ q. q.name ≢ x.name) rs j d.0 b (rw s (sym e)))
Differ-eq (x ∷ rs) (suc i) zero p q d a b e =
    let s : x ≡ q = cc in absurd (All-get_elem? (λ q. q.name ≢ x.name) rs i d.0 a (rw s e))
Differ-eq (x ∷ rs) (suc i) (suc j) p q d a b e = ap suc (Differ-eq rs i j p q d.1 a b e)

module _ (rule : PartitionRule) (num : ℕ) (distinct : Differ rule.ranges) (pos : 0 < num) where
  -- The range of index k of a partition.
  name_of_range :
      (k : ℕ) (s : String)
      → name_of (some rule) num k ≡ done s
      → (r : Range) × (get_elem? rule.ranges (k / num) ≡ some r) × (r.name ≡ s)
  unfolding name_of
  name_of_range k s h = elim (Option-cases (get_elem? rule.ranges (k / num))) [
    | inl e ↦ absurd (ground arith)
    | inr (r, e) ↦ (r, e, ground arith)
  ]

  has_name :
      (k : ℕ) → k < num * length rule.ranges → (s : String) × (name_of (some rule) num k ≡ done s)
  unfolding name_of
  has_name k l =
      let (r, e) = get_elem?-lt rule.ranges (k / num) (grind arith) in
      (r.name, rw (e, name_of) refl)

  -- A partition has the name of range c exactly if it stands in the rounds of that range.
  same_name :
      (c k : ℕ) (r : Range) (s : String)
      → get_elem? rule.ranges c ≡ some r
      → name_of (some rule) num k ≡ done s
      → str_eq s r.name ≡ (k / num == c)
  same_name c k r s e h =
      let (q, f, g) = name_of_range k s h in
      elim (Bool-cases (k / num == c)) [
        | inl t ↦
            let z : k / num ≡ c = ground arith in
            let y : some q ≡ some r = rw z at (sym f) ∙ e in ground (arith, eq_iff s r.name)
        | inr t ↦
            ground (arith, eq_iff s r.name, Differ-eq rule.ranges (k / num) c q r distinct f e)
      ]

-- The quotient by `num` in, before and after the rounds of a range.
div_before : (num c k : ℕ) → 0 < num → k < c * num → (k / num == c) ≡ false
div_before num c k pos l = let q : k / num < c = (div-lt_iff_lt-mul pos).1 l in ground arith

div_within : (num c k : ℕ) → 0 < num → c * num ≤ k → k < c * num + num → (k / num == c) ≡ true
div_within num c k pos a b =
    let p : c ≤ k / num = (le-div_iff_mul-le pos).1 a in
    let q : k / num < c + 1 = (div-lt_iff_lt-mul pos).1 (grind arith) in ground arith

div_after : (num c k : ℕ) → 0 < num → c * num + num ≤ k → (k / num == c) ≡ false
div_after num c k pos a =
    let p : c + 1 ≤ k / num = (le-div_iff_mul-le pos).1 (grind arith) in ground arith

-- Where a rule's range names differ, its count of partitions is that of its ranges, it has a range at
-- index c, the space asks for at least one partition for each range and NewIDGenerate answers `ids k`
-- in round k, CreateSpace makes the partitions of the space; the ids under the name of range c are
-- those of the `num` rounds from c * num on, in 32 bits and in order, and no others. Condition: the number of all
-- partitions is below 2^63.
pub create_partitions-ids_named :
    (ids : ℕ → ℕ) (rule : PartitionRule) (space_id db_id num c : ℕ) (r : Range)
    → Differ rule.ranges
    → rule.partitions ≡ length rule.ranges
    → get_elem? rule.ranges c ≡ some r
    → 0 < num
    → num * rule.partitions < 2 ^ 63
    → (ps : List Partition) × (create_partitions (λ k. ok (ids k)) (some rule) space_id db_id num
        ≡ done ps)
      × (ids_named r.name ps ≡ span (λ k. ids k % 2 ^ 32) (c * num) num)
unfolding create_partitions
create_partitions-ids_named ids rule space_id db_id num c r distinct counted e pos few =
    let inside : c < length rule.ranges = lt-get_elem? rule.ranges c e in
    let m = length rule.ranges in
    let total = num * rule.partitions in
    let id32 : ℕ → ℕ = λ k. ids k % 2 ^ 32 in
    let exact : mul64 num rule.partitions ≡ total = omega (arith, few) in
    let run : ℕ → ℕ → Outcome (List Partition) = λ t left.
      if t == 0
      then panic
      else create_loop (λ k. ok (ids k)) (some rule) space_id db_id num (max_uint32 / t) left 0 in
    let every : rounds total ≡ total = ground (arith, few) in
    let (ps, made, each) =
      create_loop-Made (λ k. ok (ids k)) (some rule) space_id db_id num (max_uint32 / total) total 0
        (λ k l. (ids k, refl))
        (λ k l. has_name rule num distinct pos k (rw (← counted) (omega arith))) in
    let some_rounds : (total == 0) ≡ false = grind arith in
    (
      ps,
      ap (λ t. run t (rounds t)) exact ∙ ap (run total) every ∙ rw some_rounds made,
      let rest = total - (c * num + num) in
          let all : total ≡ c * num + (num + rest) = grind (arith, counted) in
          let test : ℕ → Bool = λ k. k / num == c in
          let selected : ids_named r.name ps ≡ select test id32 0 total =
            ids_named-select test id32 r.name ps 0 total (record {
              count = each.count;
              at = λ j p g.
                  let (a, b, _) = each.at j p g in
                  (ground arith, same_name rule num distinct pos c (0 + j) r p.name e b);
            }) in
          selected
          ∙ (rw all (
              select_middle test id32 (c * num) num rest (λ k l. div_before num c k pos l)
                (λ k a b. div_within num c k pos a b) (λ k a. div_after num c k pos a))),
    )
