-- ===== src/Router/Merge/Fold.antt =====
-- The answers of all partitions merged one after the other are the best topN of all their items.
use mathlib.Core.List.{Perm}
use mathlib.Core.List.Perm
use vearch.Prelude.{
  ℕ, ◌<◌, List, [], ◌∷◌, ◌++◌, Bool, take, take-take, ◌≡◌, refl, arith, All, sym, ◌∙◌, ap,
}
use vearch.Router.Merge.{
  Scores, ResultItem, SearchResult, merge_loop, add_merge_sort, merge_answers,
}
use vearch.Router.Merge.TopN.{
  InOrder, merge_loop-InOrder, merge_loop-perm, take-merge_loop, merge_sorted_arrays-take,
}

module _ (scores : Scores) where
  -- The items of all answers, merged with no cut.
  abbrev pub whole_merge :
      Bool → List (ResultItem scores) → List (SearchResult scores) → List (ResultItem scores)
  whole_merge desc items [] = items
  whole_merge desc items (other ∷ rest) =
      whole_merge desc (merge_loop scores desc items other.result_items) rest

  -- The items of the answers, one after the other.
  abbrev pub all_items :
      List (ResultItem scores) → List (SearchResult scores) → List (ResultItem scores)
  all_items items [] = items
  all_items items (other ∷ rest) = all_items (items ++ other.result_items) rest

  all_items-perm :
      (xs ys : List (ResultItem scores)) (rest : List (SearchResult scores))
      → Perm xs ys
      → Perm (all_items xs rest) (all_items ys rest)
  all_items-perm xs ys [] h = h
  all_items-perm xs ys (other ∷ rest) h =
      all_items-perm (xs ++ other.result_items) (ys ++ other.result_items) rest
        (Perm.append h (Perm.refl other.result_items))

  whole_merge-perm :
      (desc : Bool) (items : List (ResultItem scores)) (rest : List (SearchResult scores))
      → Perm (whole_merge desc items rest) (all_items items rest)
  whole_merge-perm desc items [] = Perm.refl items
  whole_merge-perm desc items (other ∷ rest) =
      Perm.trans (whole_merge-perm desc (merge_loop scores desc items other.result_items) rest) (
        all_items-perm (merge_loop scores desc items other.result_items)
          (items ++ other.result_items) rest (merge_loop-perm scores desc items other.result_items))

  whole_merge-InOrder :
      (desc : Bool) (items : List (ResultItem scores)) (rest : List (SearchResult scores))
      → InOrder scores desc items
      → All (λ r. InOrder scores desc r.result_items) rest
      → InOrder scores desc (whole_merge desc items rest)
  whole_merge-InOrder desc items [] h k = h
  whole_merge-InOrder desc items (other ∷ rest) h k =
      whole_merge-InOrder desc (merge_loop scores desc items other.result_items) rest
        (merge_loop-InOrder scores desc items other.result_items h k.0) k.1

  -- A cut before the merge is not seen after it.
  take-whole_merge :
      (desc : Bool) (n : ℕ) (xs : List (ResultItem scores)) (rest : List (SearchResult scores))
      → take n (whole_merge desc (take n xs) rest) ≡ take n (whole_merge desc xs rest)
  take-whole_merge desc n xs [] = take-take n n xs (omega arith)
  take-whole_merge desc n xs (other ∷ rest) =
      let ys = other.result_items in
      sym (take-whole_merge desc n (merge_loop scores desc (take n xs) ys) rest)
      ∙ ap (λ zs. take n (whole_merge desc zs rest))
          (take-merge_loop scores desc n n xs ys (omega arith))
      ∙ take-whole_merge desc n (merge_loop scores desc xs ys) rest

  items-merge_answers :
      (desc : Bool) (n : ℕ) (sr : SearchResult scores) (rest : List (SearchResult scores))
      → 0 < n
      → take n (merge_answers scores sr rest n desc).result_items
        ≡ take n (whole_merge desc sr.result_items rest)
  unfolding merge_answers add_merge_sort
  items-merge_answers desc n sr [] h = refl
  items-merge_answers desc n sr (other ∷ rest) h =
      items-merge_answers desc n (add_merge_sort scores sr other n desc) rest h
      ∙ ap (λ zs. take n (whole_merge desc zs rest))
          (merge_sorted_arrays-take scores desc n sr.result_items other.result_items h)
      ∙ take-whole_merge desc n (merge_loop scores desc sr.result_items other.result_items) rest

  -- With a topN above 0, where the items of each answer are in the order of their scores, the first
  -- topN items after all answers were merged one by one, each time cut at topN, are the first topN of
  -- one list that holds all items of all answers and is in order: the cuts lose no item that counts.
  pub merge_answers_top :
      (desc : Bool) (n : ℕ) (sr : SearchResult scores) (rest : List (SearchResult scores))
      → 0 < n
      → InOrder scores desc sr.result_items
      → All (λ r. InOrder scores desc r.result_items) rest
      → (all : List (ResultItem scores)) × Perm all (all_items sr.result_items rest)
        × InOrder scores desc all
        × (take n (merge_answers scores sr rest n desc).result_items ≡ take n all)
  merge_answers_top desc n sr rest h o k = (
    whole_merge desc sr.result_items rest,
    whole_merge-perm desc sr.result_items rest,
    whole_merge-InOrder desc sr.result_items rest o k,
    items-merge_answers desc n sr rest h,
  )
