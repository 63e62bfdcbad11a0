-- ===== src/Router/Split/Groups.antt =====
-- The send map holds each document once, under the partition that it is routed to.
use mathlib.Core.List.{append-nil, append_assoc}
use vearch.Prelude.{
  ℕ, List, [], ◌∷◌, ◌++◌, if◌then◌else◌, ◌==◌, Bool-cases, inl, inr, Outcome, done, failed,
  ErrorEnum, All, ◌≡◌, ◌≢◌, refl, arith, sym, ◌∙◌,
}
use vearch.Router.Split.{Document, SendMap, add_item, split_loop}

-- What the map holds for a partition, nothing where it has no entry.
abbrev pub items_of : ℕ → SendMap → List Document
items_of pid [] = []
items_of pid ((k, items) ∷ m) = if k == pid then items else items_of pid m

-- No partition has two entries, and no entry is empty.
abbrev pub IsMap : SendMap → Type 0
IsMap [] = Unit
IsMap ((k, items) ∷ m) = All (λ e. e.0 ≢ k) m × (items ≢ []) × IsMap m

-- The documents that a partition gets, in the order of the request.
abbrev pub routed_to : (Document → Outcome ℕ) → ℕ → List Document → List Document
routed_to route pid [] = []
routed_to route pid (doc ∷ docs) =
    let rest = routed_to route pid docs in
    elim (route doc) [ done k ↦ if k == pid then doc ∷ rest else rest | _ ↦ rest ]

items_of-add_item :
    (pid k : ℕ) (doc : Document) (m : SendMap)
    → items_of k (add_item pid doc m)
      ≡ (if pid == k then items_of k m ++ doc ∷ [] else items_of k m)
unfolding add_item
items_of-add_item pid k doc [] = ground arith
items_of-add_item pid k doc ((j, items) ∷ m) = ground (arith, items_of-add_item pid k doc m)

All-add_item :
    (k pid : ℕ) (doc : Document) (m : SendMap)
    → pid ≢ k
    → All (λ e. e.0 ≢ k) m
    → All (λ e. e.0 ≢ k) (add_item pid doc m)
unfolding add_item
All-add_item k pid doc [] n h = (n, tt)
All-add_item k pid doc ((j, items) ∷ m) n h = elim (Bool-cases (j == pid)) [
  | inl e ↦ rw e (h.0, h.1)
  | inr e ↦ rw e (h.0, All-add_item k pid doc m n h.1)
]

append-ne-nil : (xs : List Document) (doc : Document) → xs ++ doc ∷ [] ≢ []
append-ne-nil [] doc e = cc
append-ne-nil (x ∷ xs) doc e = cc

add_item-IsMap : (pid : ℕ) (doc : Document) (m : SendMap) → IsMap m → IsMap (add_item pid doc m)
unfolding add_item
add_item-IsMap pid doc [] h = (tt, λ e. cc, tt)
add_item-IsMap pid doc ((j, items) ∷ m) h = elim (Bool-cases (j == pid)) [
  | inl e ↦ rw e (h.0, append-ne-nil items doc, h.2)
  | inr e ↦
      rw e (All-add_item j pid doc m (λ x. ground arith) h.0, h.1, add_item-IsMap pid doc m h.2)
]

-- The document goes to some partition.
abbrev pub Routes : (Document → Outcome ℕ) → Document → Type 0
Routes route doc = (k : ℕ) × (route doc ≡ done k)

-- What one document adds for a partition, before the later ones.
step_items :
    (route : Document → Outcome ℕ) (doc : Document) (docs : List Document) (pid k : ℕ) (m : SendMap)
    → route doc ≡ done pid
    → items_of k (add_item pid doc m) ++ routed_to route k docs
      ≡ items_of k m ++ routed_to route k (doc ∷ docs)
step_items route doc docs pid k m e =
    rw (items_of-add_item pid k doc m, e, routed_to)
      (elim (Bool-cases (pid == k)) [
        | inl t ↦ rw t (append_assoc (items_of k m) (doc ∷ []) (routed_to route k docs))
        | inr t ↦ rw t refl
      ])

module _ (route : Document → Outcome ℕ) where
  -- Where every document goes to some partition, the loop ends with a map of them all.
  pub split_loop-groups :
      (docs : List Document) (m : SendMap)
      → All (Routes route) docs
      → IsMap m
      → (m' : SendMap) × (split_loop route docs m ≡ done m')
        × IsMap m'
        × ((k : ℕ) → items_of k m' ≡ items_of k m ++ routed_to route k docs)
  unfolding split_loop
  split_loop-groups [] m h w = (m, refl, w, λ k. sym (append-nil (items_of k m)))
  split_loop-groups (doc ∷ docs) m ((pid, e), h) w =
      let (m', f, w', g) =
        split_loop-groups docs (add_item pid doc m) h (add_item-IsMap pid doc m w) in
      (m', rw e f, w', λ k. g k ∙ step_items route doc docs pid k m e)

  -- The first document that goes to no partition ends the loop with its error.
  pub split_loop-failed :
      (before : List Document) (doc : Document) (after : List Document) (m : SendMap)
      (x : ErrorEnum)
      → All (Routes route) before
      → route doc ≡ failed x
      → split_loop route (before ++ doc ∷ after) m ≡ failed x
  unfolding split_loop
  split_loop-failed [] doc after m x h e = rw e refl
  split_loop-failed (b ∷ before) doc after m x ((pid, f), h) e =
      rw f (split_loop-failed before doc after (add_item pid b m) x h e)
