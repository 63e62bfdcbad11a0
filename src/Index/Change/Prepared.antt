-- ===== src/Index/Change/Prepared.antt =====
-- The list of indexes that AddIndexes of internal/master/services/space_service.go prepares, before it tells the
-- partitions.
use vearch.Prelude.{
  String, List, [], ◌∷◌, ◌++◌, map, inl, inr, Option, some, ok, Outcome, done, and_then, lift,
  lift-done, and_then-done, eq_iff, All, arith, ◌≡◌, sym, ap,
}
use mathlib.Core.Path.{subst}
use vearch.Prelude.{Nodup}
use vearch.Index.{Index, Props, is_composite, composite_index_type, validate_indexes}
use vearch.Index.Checked.{IsIndex, validate_indexes_iff}
use vearch.Index.Change.{
  SpaceMeta, IndexChange, add_index, Env, see_all, check_new_indexes, properties_of_json,
  prepare_add,
}
use vearch.Index.Change.Fresh.{IsUnambiguous, check_new_indexes-IsUnambiguous}
use vearch.Index.Change.New.{IsFilled, index_names}

IsIndex-IsFilled : (props : Props) (idx : Index) → IsIndex props idx → IsFilled idx
unfolding is_composite
IsIndex-IsFilled props idx h = elim h.1 [
  | inl c ↦ inl ((eq_iff idx.type composite_index_type).1 c.0, (let l = c.2 in omega arith))
  | inr c ↦ inr ((let ne = c.0 in ground (arith, eq_iff idx.type composite_index_type)), c.1)
]

All-map {ℓ κ λ'} :
    {A : Type ℓ} {P : A → Type κ} {Q : A → Type λ'} (f : (a : A) → P a → Q a) (xs : List A)
    → All P xs
    → All Q xs
All-map f [] h = tt
All-map f (x ∷ xs) h = (f x h.0, All-map f xs h.1)

All-drop {ℓ κ} : {A : Type ℓ} (P : A → Type κ) (xs ys : List A) → All P (xs ++ ys) → All P ys
All-drop P [] ys h = h
All-drop P (x ∷ xs) ys h = All-drop P xs ys h.1

-- The checks that AddIndexes makes before it calls a partition.
abbrev pub IsPrepared : Env → SpaceMeta → List (Option Index) → List Index → IndexChange → Type 0
IsPrepared env space entries new_indexes change =
    (entries ≡ map some new_indexes)
    × ((props : Props) × (properties_of_json env space.fields ≡ done props)
        × All (IsIndex props) (space.indexes ++ new_indexes))
    × Nodup (index_names (space.indexes ++ new_indexes))
    × (IsUnambiguous space.indexes → IsUnambiguous (space.indexes ++ new_indexes))
    × ((text : String) × (env.encode_indexes new_indexes ≡ ok text) × (change ≡ add_index text))

pub prepare_add-IsPrepared :
    (env : Env) (space : SpaceMeta) (entries : List (Option Index)) {new_indexes : List Index}
    {change : IndexChange}
    → prepare_add env space entries ≡ done (new_indexes, change)
    → IsPrepared env space entries new_indexes change
unfolding prepare_add
prepare_add-IsPrepared env space entries {new_indexes} {change} h =
    let seen = see_all space.indexes (record { names = []; fields = []; composites = [] }) in
    let write = λ (found : List Index) (text : String).
      let r : Outcome (List Index × IndexChange) = done (found, add_index text) in r in
    let encode = λ (found : List Index). and_then (lift (env.encode_indexes found)) (write found) in
    let check = λ (found : List Index) (props : Props).
      and_then (lift (validate_indexes (space.indexes ++ found) props)) (λ _. encode found) in
    let a =
      and_then-done (lift (check_new_indexes entries seen))
        (λ found. and_then (properties_of_json env space.fields) (check found)) h in
    let b = and_then-done (properties_of_json env space.fields) (check a.0) a.2 in
    let c =
      and_then-done (lift (validate_indexes (space.indexes ++ a.0) b.0)) (λ _. encode a.0) b.2 in
    let d = and_then-done (lift (env.encode_indexes a.0)) (write a.0) c.2 in
    let pair : (a.0, add_index d.0) ≡ (new_indexes, change) = let q = d.2 in cc in
    let same : a.0 ≡ new_indexes = ap (λ (p : List Index × IndexChange). p.0) pair in
    let changed : change ≡ add_index d.0 = sym (ap (λ (p : List Index × IndexChange). p.1) pair) in
    let valid =
      (validate_indexes_iff (space.indexes ++ a.0) b.0).0
        (lift-done (validate_indexes (space.indexes ++ a.0) b.0) c.1) in
    let filled =
      All-map (IsIndex-IsFilled b.0) a.0 (All-drop (IsIndex b.0) space.indexes a.0 valid.0) in
    let unique =
      check_new_indexes-IsUnambiguous space.indexes entries
        (lift-done (check_new_indexes entries seen) a.1) filled in
    subst (λ n. IsPrepared env space entries n change) same
      (
        unique.0,
        (b.0, b.1, valid.0),
        valid.1,
        unique.1,
        (d.0, lift-done (env.encode_indexes a.0) d.1, changed),
      )
