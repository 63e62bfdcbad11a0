-- ===== src/Examples/Merge.antt =====
-- The theorem on merged answers, at two small ones.
use mathlib.Core.List.{Perm}
use vearch.Prelude.{ℕ, ltb, List, [], ◌∷◌, true, false, take, ◌≡◌, refl, arith}
use vearch.Router.Merge.{Scores, ResultItem, SearchResult, merge_answers}
use vearch.Router.Merge.TopN.{InOrder}
use vearch.Router.Merge.Fold.{all_items, merge_answers_top}

abbrev whole_scores : Scores
whole_scores = record { Score = ℕ; lt = ltb; rank = λ n. n; lt_rank = λ a b. refl }

abbrev answer : List (ResultItem whole_scores) → SearchResult whole_scores
answer items = record {
  status = record { total = 1; failed = 0; successful = 1 };
  total_hits = 2;
  max_score = 9;
  max_took = 1;
  max_took_id = 1;
  timeout = false;
  result_items = items;
}

abbrev item : ℕ → ResultItem whole_scores
item n = record { score = n; pkey = "k" }

abbrev first_answer : SearchResult whole_scores
first_answer = answer (item 9 ∷ item 4 ∷ [])

abbrev second_answer : SearchResult whole_scores
second_answer = answer (item 7 ∷ item 5 ∷ [])

merge_answers_top_example :
    (all : List (ResultItem whole_scores)) × Perm all
      (all_items whole_scores first_answer.result_items (second_answer ∷ []))
    × InOrder whole_scores true all
    × (take 3 (merge_answers whole_scores first_answer (second_answer ∷ []) 3 true).result_items
        ≡ take 3 all)
merge_answers_top_example =
    merge_answers_top whole_scores true 3 first_answer (second_answer ∷ []) (omega arith)
      ((omega arith, tt), (tt, tt)) (((omega arith, tt), (tt, tt)), tt)
