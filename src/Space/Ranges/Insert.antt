-- ===== src/Space/Ranges/Insert.antt =====
-- insertIntoRanges and AddRanges keep the ranges of a rule in the order of their times.
use mathlib.Core.List.{Perm, perm_middle}
use mathlib.Core.List.Perm
use vearch.Prelude.{
  ℕ, zero, suc, ◌+◌, ◌-◌, ◌/◌, List, [], ◌∷◌, ◌++◌, some, ltb, if◌then◌else◌, inl, inr, ltb→lt,
  get_elem?, get_elem?-lt, lt-get_elem?, take, drop, ok, err, Bool-cases, refl, done, length, lt64,
  ◌≡◌, ◌≤◌, ◌<◌, key64, arith, All, All-get_elem?, ap,
}
use vearch.Space.Model.{Range}
use vearch.Space.Ranges.{Cast, to_timestamp, insert_loop, insert_into_ranges, add_ranges}

module _ (cast : Cast) where
  -- The value is a time.
  abbrev pub Parses : Range → Type 0
  Parses r = (t : ℕ) × (to_timestamp cast r.value ≡ ok t)

  -- The place of a range in the order of times, 0 where the value is no time.
  abbrev pub key_of : Range → ℕ
  key_of r = elim (to_timestamp cast r.value) [ ok t ↦ key64 t | err _ ↦ 0 ]

  -- The times do not decrease.
  abbrev pub Ordered : List Range → Type 0
  Ordered [] = Unit
  Ordered (r ∷ rs) = All (λ q. key_of r ≤ key_of q) rs × Ordered rs

  Ordered-le :
      (rs : List Range) (i j : ℕ) (p q : Range)
      → Ordered rs
      → i ≤ j
      → get_elem? rs i ≡ some p
      → get_elem? rs j ≡ some q
      → key_of p ≤ key_of q
  Ordered-le [] i j p q o l a b = absurd (ground arith)
  Ordered-le (x ∷ rs) zero zero p q o l a b = let s : p ≡ q = cc in rw s (omega arith)
  Ordered-le (x ∷ rs) zero (suc j) p q o l a b =
      let s : x ≡ p = cc in rw (← s) (All-get_elem? (λ q. key_of x ≤ key_of q) rs j o.0 b)
  Ordered-le (x ∷ rs) (suc i) zero p q o l a b = absurd (omega arith)
  Ordered-le (x ∷ rs) (suc i) (suc j) p q o l a b = Ordered-le rs i j p q o.1 (omega arith) a b

  -- The place that the binary search finds: before it the times are earlier, from it on they are not.
  record Place (arr : List Range) (key k : ℕ) : Type 0 where
    inside : k ≤ length arr
    before : (i : ℕ) (p : Range) → i < k → get_elem? arr i ≡ some p → key_of p < key
    after : (i : ℕ) (p : Range) → k ≤ i → get_elem? arr i ≡ some p → key ≤ key_of p

  insert_loop-Place :
      (fuel : ℕ) (arr : List Range) (ts left right : ℕ)
      → All Parses arr
      → Ordered arr
      → right - left < fuel
      → left ≤ right
      → right ≤ length arr
      → ((i : ℕ) (p : Range) → i < left → get_elem? arr i ≡ some p → key_of p < key64 ts)
      → ((i : ℕ) (p : Range) → right ≤ i → get_elem? arr i ≡ some p → key64 ts ≤ key_of p)
      → (k : ℕ) × (insert_loop cast fuel arr ts left right ≡ done k) × Place arr (key64 ts) k
  unfolding insert_loop
  insert_loop-Place zero arr ts left right ps o f l n a b = absurd (omega arith)
  insert_loop-Place (suc fuel) arr ts left right ps o f l n a b =
      elim (Bool-cases (ltb left right)) [
        | inl more ↦
            let lt : left < right = ltb→lt left right more in
            let mid = (left + right) / 2 in
            let (r, e) = get_elem?-lt arr mid (omega arith) in
            let (t, parsed) = All-get_elem? Parses arr mid ps e in
            let key : key_of r ≡ key64 t = rw (parsed, key_of) refl in
            elim (Bool-cases (lt64 t ts)) [
              | inl c ↦
                  rw (more, e, parsed, c)
                    (insert_loop-Place fuel arr ts (mid + 1) right ps o (omega arith) (omega arith)
                      n
                      (λ i p h g.
                        omega
                          (arith, key, Ordered-le arr i mid p r o (omega arith) g e, ltb→lt _ _ c))
                      b)
              | inr c ↦
                  let late : key64 ts ≤ key64 t = ground arith in
                  rw (more, e, parsed, c)
                    (insert_loop-Place fuel arr ts left mid ps o (omega arith) (omega arith)
                      (omega arith) a
                      (λ i p h g. omega (arith, key, late, Ordered-le arr mid i r p o h e g)))
            ]
        | inr stop ↦
            let same : right ≡ left = ground arith in
            (left, rw stop refl, record { inside = omega arith; before = a; after = rw same at b })
      ]

  -- The list with the range put in before the first that is not earlier.
  abbrev pub placed : Range → List Range → List Range
  placed r [] = r ∷ []
  placed r (x ∷ xs) = if ltb (key_of x) (key_of r) then x ∷ placed r xs else r ∷ x ∷ xs

  take-drop-placed :
      (arr : List Range) (r : Range) (k : ℕ)
      → Place arr (key_of r) k
      → take k arr ++ (r ∷ drop k arr) ≡ placed r arr
  take-drop-placed [] r zero p = refl
  take-drop-placed [] r (suc k) p = refl
  take-drop-placed (x ∷ xs) r zero p = let late = p.after 0 x (omega arith) refl in ground arith
  take-drop-placed (x ∷ xs) r (suc k) p =
      let early = p.before 0 x (omega arith) refl in
      let rest = take-drop-placed xs r k (record {
        inside = omega (arith, p.inside);
        before = λ i q l e. p.before (suc i) q (omega arith) e;
        after = λ i q l e. p.after (suc i) q (omega arith) e;
      }) in
      ground arith

  placed-perm : (r : Range) (arr : List Range) → Perm (placed r arr) (r ∷ arr)
  placed-perm r [] = Perm.refl (r ∷ [])
  placed-perm r (x ∷ xs) = elim (Bool-cases (ltb (key_of x) (key_of r))) [
    | inl e ↦ rw e (Perm.trans (Perm.cons x (placed-perm r xs)) (Perm.swap r x xs))
    | inr e ↦ rw e (Perm.refl (r ∷ x ∷ xs))
  ]

  All-placed {ℓ} :
      (P : Range → Type ℓ) (r : Range) (arr : List Range) → P r → All P arr → All P (placed r arr)
  All-placed P r [] p h = (p, tt)
  All-placed P r (x ∷ xs) p h = elim (Bool-cases (ltb (key_of x) (key_of r))) [
    | inl e ↦ rw e (h.0, All-placed P r xs p h.1)
    | inr e ↦ rw e (p, h)
  ]

  All-le :
      (a b : ℕ) (xs : List Range) → a ≤ b → All (λ q. b ≤ key_of q) xs → All (λ q. a ≤ key_of q) xs
  All-le a b [] l h = tt
  All-le a b (x ∷ xs) l h = (omega (arith, h.0), All-le a b xs l h.1)

  placed-Ordered : (r : Range) (arr : List Range) → Ordered arr → Ordered (placed r arr)
  placed-Ordered r [] o = (tt, tt)
  placed-Ordered r (x ∷ xs) o = elim (Bool-cases (ltb (key_of x) (key_of r))) [
    | inl e ↦
        rw e
          (All-placed (λ q. key_of x ≤ key_of q) r xs (ground arith) o.0, placed-Ordered r xs o.1)
    | inr e ↦
        let late : key_of r ≤ key_of x = ground arith in
        rw e ((late, All-le (key_of r) (key_of x) xs late o.0), o)
  ]

  -- Where the values of an ordered list are times, insertIntoRanges puts a range whose value is a
  -- time before the first that is not earlier; it neither fails nor panics nor runs out of fuel.
  insert_into_ranges-placed :
      (arr : List Range) (r : Range)
      → All Parses arr
      → Ordered arr
      → Parses r
      → insert_into_ranges cast arr r ≡ done (placed r arr)
  unfolding insert_into_ranges
  insert_into_ranges-placed arr r ps o (t, e) =
      let (k, found, place) =
        insert_loop-Place (suc (length arr)) arr t 0 (length arr) ps o (omega arith) (omega arith)
          (omega arith) (λ i p l g. elim l [ ])
          (λ i p l g. absurd (omega (arith, lt-get_elem? arr i g))) in
      let key : key64 t ≡ key_of r = rw (e, key_of) refl in
      let here : Place arr (key_of r) k = rw key at place in
      rw (e, found, insert_into_ranges) (ap done (take-drop-placed arr r k here))

  -- Where the values of the rule's ranges are times that do not decrease, and those of the ranges to
  -- add are times in any order, AddRanges succeeds: the result holds the ranges of both lists, each as
  -- often as before, and its times do not decrease.
  pub add_ranges-Ordered :
      (arr rs : List Range)
      → All Parses arr
      → Ordered arr
      → All Parses rs
      → (out : List Range) × (add_ranges cast arr rs ≡ done out)
        × Ordered out
        × All Parses out
        × Perm out (rs ++ arr)
  unfolding add_ranges
  add_ranges-Ordered arr [] ps o qs = (arr, refl, o, ps, Perm.refl arr)
  add_ranges-Ordered arr (r ∷ rs) ps o qs =
      let next = placed r arr in
      let (out, e, ord, pars, perm) =
        add_ranges-Ordered next rs (All-placed Parses r arr qs.0 ps) (placed-Ordered r arr o)
          qs.1 in
      (
        out,
        rw (insert_into_ranges-placed arr r ps o qs.0) e,
        ord,
        pars,
        Perm.trans perm
            (Perm.trans (Perm.append (Perm.refl rs) (placed-perm r arr)) (perm_middle rs arr)),
      )
