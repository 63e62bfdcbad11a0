-- ===== src/Router/Merge.antt =====
-- Merging the answers of the partitions: Merge, AddMerge, AddMergeResultArr, mergeSortedArrays and
-- AddMergeSort of internal/client/client.go.
pub mod TopN
pub mod Fold
use vearch.Prelude.{
  ℕ, zero, suc, String, ◌+◌, ◌%◌, ◌^◌, List, [], ◌∷◌, ◌++◌, if◌then◌else◌, ltb, Bool, true, false,
  ◌&&◌, length, take, leb, lt64, ◌≡◌, not,
}

-- float64 with its comparison, for values that are not NaN: `rank` is the place of a value in the
-- order, so the comparison is total and transitive, as IEEE 754 says of such values. `plus` is the sum.
pub record Scores : Type 1 where
  pub Score : Type 0
  pub lt : Score → Score → Bool
  pub rank : Score → ℕ
  pub lt_rank : (a b : Score) → lt a b ≡ ltb (rank a) (rank b)

module _ (scores : Scores) where
  open scores use {Score, lt}

  pub record ResultItem : Type 0 where
    pub score : Score
    pub pkey : String

  -- int32 counters
  pub record SearchStatus : Type 0 where
    pub total : ℕ
    pub failed : ℕ
    pub successful : ℕ

  pub record SearchResult : Type 0 where
    pub status : SearchStatus
    pub total_hits : ℕ  -- int32
    pub max_score : Score
    pub max_took : ℕ  -- int64
    pub max_took_id : ℕ  -- uint32
    pub timeout : Bool
    pub result_items : List ResultItem

  abbrev pub add32 : ℕ → ℕ → ℕ
  add32 a b = (a + b) % 2 ^ 32

  unfoldable pub merge_status : SearchStatus → SearchStatus → SearchStatus
  merge_status ss other = record {
    total = add32 ss.total other.total;
    failed = add32 ss.failed other.failed;
    successful = add32 ss.successful other.successful;
  }

  -- what AddMerge and AddMergeSort do to all fields but the items
  merge_head : SearchResult → SearchResult → SearchResult
  unfolding merge_status
  merge_head sr other =
      let slower = lt64 sr.max_took other.max_took in
      record sr {
        status = merge_status sr.status other.status;
        total_hits = add32 sr.total_hits other.total_hits;
        max_score = if lt sr.max_score other.max_score then other.max_score else sr.max_score;
        max_took = if slower then other.max_took else sr.max_took;
        max_took_id = if slower then other.max_took_id else sr.max_took_id;
        timeout = sr.timeout && other.timeout;
      }

  unfoldable pub add_merge : SearchResult → SearchResult → SearchResult
  unfolding merge_head
  add_merge sr other = record (merge_head sr other) {
    result_items = sr.result_items ++ other.result_items;
  }

  -- The first loop over dest, of no more results than src, and the second, which adds src[0] each time.
  merge_each : List SearchResult → List SearchResult → List SearchResult
  merge_each (d ∷ ds) (s ∷ ss) = add_merge d s ∷ merge_each ds ss
  merge_each ds _ = ds

  merge_first : SearchResult → List SearchResult → List SearchResult → List SearchResult
  merge_first s (d ∷ ds) (_ ∷ ss) = add_merge d s ∷ merge_first s ds ss
  merge_first s ds _ = ds

  unfoldable pub add_merge_result_arr : List SearchResult → List SearchResult → List SearchResult
  unfolding merge_each merge_first
  add_merge_result_arr dest [] = dest
  add_merge_result_arr dest (s ∷ ss) =
      if leb (length dest) (length (s ∷ ss))
      then merge_each dest (s ∷ ss)
      else merge_first s dest (s ∷ ss)

  -- arr1[i] goes first: a greater score where the order is descending, a smaller one where it is not
  goes_first : Bool → ResultItem → ResultItem → Bool
  goes_first true a b = lt b.score a.score
  goes_first false a b = lt a.score b.score

  -- the loops of mergeSortedArrays, with the two that append the rest
  unfoldable pub merge_loop : Bool → List ResultItem → List ResultItem → List ResultItem
  unfolding goes_first
  merge_loop desc [] ys = ys
  merge_loop desc (x ∷ xs) [] = x ∷ xs
  merge_loop desc (x ∷ xs) (y ∷ ys) =
      let left = merge_loop desc xs (y ∷ ys) in
      let right = merge_loop desc (x ∷ xs) ys in if goes_first desc x y then x ∷ left else y ∷ right

  -- `if topN > 0 && len > topN`, and the cut
  cut_positive : ℕ → List ResultItem → List ResultItem
  cut_positive top_n xs = if ltb 0 top_n && ltb top_n (length xs) then take top_n xs else xs

  -- `if len(merged) > topN`
  cut : ℕ → List ResultItem → List ResultItem
  cut top_n xs = if ltb top_n (length xs) then take top_n xs else xs

  -- topN is not negative here.
  unfoldable pub merge_sorted_arrays :
      List ResultItem → List ResultItem → ℕ → Bool → List ResultItem
  unfolding cut_positive cut merge_loop
  merge_sorted_arrays [] ys top_n desc = cut_positive top_n ys
  merge_sorted_arrays (x ∷ xs) [] top_n desc = cut_positive top_n (x ∷ xs)
  merge_sorted_arrays (x ∷ xs) (y ∷ ys) top_n desc = cut top_n (merge_loop desc (x ∷ xs) (y ∷ ys))

  unfoldable pub add_merge_sort : SearchResult → SearchResult → ℕ → Bool → SearchResult
  unfolding merge_head
  add_merge_sort sr other top_n desc = record (merge_head sr other) {
    result_items = merge_sorted_arrays sr.result_items other.result_items top_n desc;
  }

  -- The loop of SearchFieldSortExecute over the answers that came in, for one query: the first is the
  -- result, and each later one is merged into it.
  unfoldable pub merge_answers : SearchResult → List SearchResult → ℕ → Bool → SearchResult
  merge_answers sr [] top_n desc = sr
  merge_answers sr (other ∷ rest) top_n desc =
      merge_answers (add_merge_sort sr other top_n desc) rest top_n desc
