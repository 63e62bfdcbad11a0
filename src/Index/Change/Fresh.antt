-- ===== src/Index/Change/Fresh.antt =====
-- The loop of AddIndexes over the request, which tells the new indexes from the old ones.
use vearch.Prelude.{
  String, List, [], ◌∷◌, ◌++◌, map, Bool, false, ◌||◌, Bool-cases, inl, inr, Option, some, Result,
  ok, ◌>>=◌, bind-ok, has_str, All, arith, ◌≡◌, refl, sym, ◌∙◌,
}
use mathlib.Core.Path.{subst}
use vearch.Prelude.{Nodup, Fresh, Fresh-iff, Nodup-append, NoneOf-same}
use vearch.Index.{Index, is_composite}
use vearch.Index.Change.{Seen, see, see_all, check_new_index, check_new_indexes}
use vearch.Index.Change.New.{
  index_names, single_fields, composite_keys, IsFilled, IsNew, check_new_index-IsNew,
}

abbrev AllFresh : Seen → List Index → Type 0
AllFresh seen indexes =
    Fresh seen.names (index_names indexes)
    × Fresh seen.fields (single_fields indexes)
    × Fresh seen.composites (composite_keys indexes)

AllFresh-cons :
    (idx : Index) (indexes : List Index) (seen later : Seen)
    → IsNew idx seen later
    → AllFresh later indexes
    → AllFresh seen (idx ∷ indexes)
AllFresh-cons idx indexes seen later n a =
    let names : Fresh (idx.name ∷ seen.names) (index_names indexes) =
      subst (λ s. Fresh s (index_names indexes)) n.1 a.0 in
    elim n.2 [
      | inl (c, f, k, s) ↦ rw (c) (
        (n.0, names),
        subst (λ t. Fresh t (single_fields indexes)) s a.1,
        (f, subst (λ t. Fresh t (composite_keys indexes)) k a.2),
      )
      | inr (c, f, k, s) ↦ rw (c) (
        (n.0, names),
        (f, subst (λ t. Fresh t (single_fields indexes)) k a.1),
        subst (λ t. Fresh t (composite_keys indexes)) s a.2,
      )
    ]

check_new_indexes-AllFresh :
    (entries : List (Option Index)) (seen : Seen) {indexes : List Index}
    → check_new_indexes entries seen ≡ ok indexes
    → All IsFilled indexes
    → (entries ≡ map some indexes) × AllFresh seen indexes
unfolding check_new_indexes
check_new_indexes-AllFresh [] seen {indexes} h f =
    let e : [] ≡ indexes = cc in
    subst (λ (l : List Index). ([] ≡ map some l) × AllFresh seen l) e (refl, (tt, tt, tt))
check_new_indexes-AllFresh (entry ∷ entries) seen {indexes} h f =
    let last = λ (found : Index × Seen) (rest : List Index).
      let r : Result (List Index) = ok (found.0 ∷ rest) in r in
    let a =
      bind-ok (check_new_index entry seen)
        (λ found. check_new_indexes entries found.1 >>= last found) h in
    let b = bind-ok (check_new_indexes entries a.0.1) (last a.0) a.2 in
    let e : a.0.0 ∷ b.0 ≡ indexes = let q = b.2 in cc in
    let filled : All IsFilled (a.0.0 ∷ b.0) = subst (All IsFilled) (sym e) f in
    let head = check_new_index-IsNew entry seen a.1 filled.0 in
    let tail = check_new_indexes-AllFresh entries a.0.1 b.1 filled.1 in
    subst (λ (l : List Index). (entry ∷ entries ≡ map some l) × AllFresh seen l) e
      (let x = head.0 in let y = tail.0 in cc, AllFresh-cons a.0.0 b.0 seen a.0.1 head.1 tail.1)

-- The loop over the old indexes collects their fields and keys.
see_all-fields :
    (k : String) (indexes : List Index) (seen : Seen)
    → has_str k (see_all indexes seen).fields
      ≡ (has_str k (single_fields indexes) || has_str k seen.fields)
unfolding see_all see
see_all-fields k [] seen = refl
see_all-fields k (idx ∷ indexes) seen =
    let ih = see_all-fields k indexes (see idx seen) in
    elim (Bool-cases (is_composite idx)) [
      | inl c ↦ rw (ih, c) refl
      | inr c ↦ rw (ih, c) (ground arith)
    ]

see_all-composites :
    (k : String) (indexes : List Index) (seen : Seen)
    → has_str k (see_all indexes seen).composites
      ≡ (has_str k (composite_keys indexes) || has_str k seen.composites)
unfolding see_all see
see_all-composites k [] seen = refl
see_all-composites k (idx ∷ indexes) seen =
    let ih = see_all-composites k indexes (see idx seen) in
    elim (Bool-cases (is_composite idx)) [
      | inl c ↦ rw (ih, c) (ground arith)
      | inr c ↦ rw (ih, c) refl
    ]

single_fields-append :
    (xs ys : List Index) → single_fields (xs ++ ys) ≡ single_fields xs ++ single_fields ys
single_fields-append [] ys = refl
single_fields-append (x ∷ xs) ys = let ih = single_fields-append xs ys in ground arith

composite_keys-append :
    (xs ys : List Index) → composite_keys (xs ++ ys) ≡ composite_keys xs ++ composite_keys ys
composite_keys-append [] ys = refl
composite_keys-append (x ∷ xs) ys = let ih = composite_keys-append xs ys in ground arith

-- No field has two indexes of its own, and no list of fields two composite ones.
abbrev pub IsUnambiguous : List Index → Type 0
IsUnambiguous indexes = Nodup (single_fields indexes) × Nodup (composite_keys indexes)

or_false : (b : Bool) → (b || false) ≡ b
or_false b = ground arith

pub check_new_indexes-IsUnambiguous :
    (old : List Index) (entries : List (Option Index)) {indexes : List Index}
    → check_new_indexes entries (see_all old (record { names = []; fields = []; composites = [] }))
      ≡ ok indexes
    → All IsFilled indexes
    → (entries ≡ map some indexes) × (IsUnambiguous old → IsUnambiguous (old ++ indexes))
check_new_indexes-IsUnambiguous old entries {indexes} h f =
    let start : Seen = record { names = []; fields = []; composites = [] } in
    let seen = see_all old start in
    let a = check_new_indexes-AllFresh entries seen h f in
    let x = (Fresh-iff seen.fields (single_fields indexes)).0 a.1.1 in
    let y = (Fresh-iff seen.composites (composite_keys indexes)).0 a.1.2 in
    let fields =
      NoneOf-same seen.fields (single_fields old) (single_fields indexes)
        (λ k. see_all-fields k old start ∙ or_false (has_str k (single_fields old))) x.1 in
    let composites =
      NoneOf-same seen.composites (composite_keys old) (composite_keys indexes)
        (λ k. see_all-composites k old start ∙ or_false (has_str k (composite_keys old))) y.1 in
    (
      a.0,
      λ u. (
        subst Nodup (sym (single_fields-append old indexes))
            (Nodup-append (single_fields old) (single_fields indexes) u.0 x.0 fields),
        subst Nodup (sym (composite_keys-append old indexes))
            (Nodup-append (composite_keys old) (composite_keys indexes) u.1 y.0 composites),
      ),
    )
