-- ===== src/Router/Merge/TopN.antt =====
-- mergeSortedArrays: order, contents, and what the cut at topN keeps.
use mathlib.Core.List.{Perm, perm_middle, append-nil}
use mathlib.Core.List.Perm
use vearch.Prelude.{
  ℕ, zero, suc, ◌≤◌, ◌<◌, List, [], ◌∷◌, ◌++◌, Bool, true, false, take, ◌≡◌, refl, arith, All,
  Bool-cases, inl, inr, ap, take-take, take_all,
}
use vearch.Router.Merge.{
  Scores, ResultItem, goes_first, merge_loop, cut, cut_positive, merge_sorted_arrays,
}

module _ (scores : Scores) where
  open scores use {lt, rank, lt_rank}

  -- The item `a` may stand before the item `b`.
  abbrev pub MayPrecede : Bool → ResultItem scores → ResultItem scores → Type 0
  MayPrecede true a b = rank b.score ≤ rank a.score
  MayPrecede false a b = rank a.score ≤ rank b.score

  -- Every item may stand before all later ones.
  abbrev pub InOrder : Bool → List (ResultItem scores) → Type 0
  InOrder desc [] = Unit
  InOrder desc (x ∷ xs) = All (MayPrecede desc x) xs × InOrder desc xs

  goes_first-true :
      (desc : Bool) (a b : ResultItem scores)
      → goes_first scores desc a b ≡ true
      → MayPrecede desc a b
  unfolding goes_first
  goes_first-true true a b h = ground (arith, lt_rank b.score a.score)
  goes_first-true false a b h = ground (arith, lt_rank a.score b.score)

  goes_first-false :
      (desc : Bool) (a b : ResultItem scores)
      → goes_first scores desc a b ≡ false
      → MayPrecede desc b a
  unfolding goes_first
  goes_first-false true a b h = ground (arith, lt_rank b.score a.score)
  goes_first-false false a b h = ground (arith, lt_rank a.score b.score)

  MayPrecede-trans :
      (desc : Bool) (a b c : ResultItem scores)
      → MayPrecede desc a b
      → MayPrecede desc b c
      → MayPrecede desc a c
  MayPrecede-trans true a b c h k = omega arith
  MayPrecede-trans false a b c h k = omega arith

  All-MayPrecede :
      (desc : Bool) (a b : ResultItem scores) (xs : List (ResultItem scores))
      → MayPrecede desc a b
      → All (MayPrecede desc b) xs
      → All (MayPrecede desc a) xs
  All-MayPrecede desc a b [] h k = tt
  All-MayPrecede desc a b (x ∷ xs) h k =
      (MayPrecede-trans desc a b x h k.0, All-MayPrecede desc a b xs h k.1)

  All-merge_loop :
      (P : ResultItem scores → Type 0) (desc : Bool) (xs ys : List (ResultItem scores))
      → All P xs
      → All P ys
      → All P (merge_loop scores desc xs ys)
  unfolding merge_loop
  All-merge_loop P desc [] ys h k = k
  All-merge_loop P desc (x ∷ xs) [] h k = h
  All-merge_loop P desc (x ∷ xs) (y ∷ ys) h k = elim (Bool-cases (goes_first scores desc x y)) [
    | inl e ↦ rw e (h.0, All-merge_loop P desc xs (y ∷ ys) h.1 k)
    | inr e ↦ rw e (k.0, All-merge_loop P desc (x ∷ xs) ys h k.1)
  ]

  -- Two lists in order merge into one.
  pub merge_loop-InOrder :
      (desc : Bool) (xs ys : List (ResultItem scores))
      → InOrder desc xs
      → InOrder desc ys
      → InOrder desc (merge_loop scores desc xs ys)
  unfolding merge_loop
  merge_loop-InOrder desc [] ys h k = k
  merge_loop-InOrder desc (x ∷ xs) [] h k = h
  merge_loop-InOrder desc (x ∷ xs) (y ∷ ys) h k = elim (Bool-cases (goes_first scores desc x y)) [
    | inl e ↦
        let first = goes_first-true desc x y e in
        rw e (
          All-merge_loop (MayPrecede desc x) desc xs (y ∷ ys) h.0
              (first, All-MayPrecede desc x y ys first k.0),
          merge_loop-InOrder desc xs (y ∷ ys) h.1 k,
        )
    | inr e ↦
        let first = goes_first-false desc x y e in
        rw e (
          All-merge_loop (MayPrecede desc y) desc (x ∷ xs) ys
              (first, All-MayPrecede desc y x xs first h.0) k.0,
          merge_loop-InOrder desc (x ∷ xs) ys h k.1,
        )
  ]

  pub merge_loop-perm :
      (desc : Bool) (xs ys : List (ResultItem scores))
      → Perm (merge_loop scores desc xs ys) (xs ++ ys)
  unfolding merge_loop
  merge_loop-perm desc [] ys = Perm.refl ys
  merge_loop-perm desc (x ∷ xs) [] = rw append-nil (Perm.refl (x ∷ xs))
  merge_loop-perm desc (x ∷ xs) (y ∷ ys) = elim (Bool-cases (goes_first scores desc x y)) [
    | inl e ↦ rw e (Perm.cons x (merge_loop-perm desc xs (y ∷ ys)))
    | inr e ↦ rw e (
        Perm.trans (Perm.cons y (merge_loop-perm desc (x ∷ xs) ys))
          (Perm.symm (perm_middle (x ∷ xs) ys)))
  ]

  -- The items past the first p of one list do not matter to the first n of the merge, for n at most p.
  pub take-merge_loop :
      (desc : Bool) (n p : ℕ) (xs ys : List (ResultItem scores))
      → n ≤ p
      → take n (merge_loop scores desc (take p xs) ys) ≡ take n (merge_loop scores desc xs ys)
  unfolding merge_loop
  take-merge_loop desc zero p xs ys l = refl
  take-merge_loop desc (suc n) zero xs ys l = absurd (omega arith)
  take-merge_loop desc (suc n) (suc p) [] ys l = refl
  take-merge_loop desc (suc n) (suc p) (x ∷ xs) [] l = ap (◌∷◌ x) (take-take n p xs (omega arith))
  take-merge_loop desc (suc n) (suc p) (x ∷ xs) (y ∷ ys) l =
      elim (Bool-cases (goes_first scores desc x y)) [
        | inl e ↦ rw e (ap (◌∷◌ x) (take-merge_loop desc n p xs (y ∷ ys) (omega arith)))
        | inr e ↦ rw e (ap (◌∷◌ y) (take-merge_loop desc n (suc p) (x ∷ xs) ys (omega arith)))
      ]

  cut_positive-take :
      (n : ℕ) (xs : List (ResultItem scores)) → 0 < n → cut_positive scores n xs ≡ take n xs
  unfolding cut_positive
  cut_positive-take n xs h = ground (arith, take_all n xs)

  cut-take : (n : ℕ) (xs : List (ResultItem scores)) → cut scores n xs ≡ take n xs
  unfolding cut
  cut-take n xs = ground (arith, take_all n xs)

  -- With a topN above 0 the result is the first topN items of the whole merge.
  pub merge_sorted_arrays-take :
      (desc : Bool) (n : ℕ) (xs ys : List (ResultItem scores))
      → 0 < n
      → merge_sorted_arrays scores xs ys n desc ≡ take n (merge_loop scores desc xs ys)
  unfolding merge_sorted_arrays merge_loop
  merge_sorted_arrays-take desc n [] ys h = cut_positive-take n ys h
  merge_sorted_arrays-take desc n (x ∷ xs) [] h = cut_positive-take n (x ∷ xs) h
  merge_sorted_arrays-take desc n (x ∷ xs) (y ∷ ys) h =
      cut-take n (merge_loop scores desc (x ∷ xs) (y ∷ ys))
