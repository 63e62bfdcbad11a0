-- ===== src/Update/Schema.antt =====
-- What MergeSchemaArray of internal/ps/engine/mapping/parse.go makes of an old and a new schema.
use vearch.Prelude.{
  String, List, [], ◌∷◌, All, done, failed, ErrorEnum, and_then-done, ==_iff, Bool, true, false,
  Bool-cases, inl, inr, Option, none, some, Option-cases, if◌then◌else◌, str_eq, eq_iff, arith, ◌≡◌,
  refl, sym, ap, ◌∙◌,
}
use vearch.Prelude.Assoc.{lookup, insert, lookup-insert}
use mathlib.Core.Path.{subst}
use vearch.Update.Fields.{
  Json, null, flag, number, text, object, array, RawField, FieldMap, json_eq, value_at, all_equal,
  are_fields_equal, merge_old, merge_schemas,
}

-- The first that is there
abbrev pub first_of {ℓ} : {A : Type ℓ} → Option A → Option A → Option A
first_of none b = b
first_of (some a) b = some a

first_of-none : {A : Type 0} (a : Option A) → first_of a none ≡ a
first_of-none none = refl
first_of-none (some a) = refl

-- Two fields of one name agree: they have one value each, or none or null, for the keys that may not change.
abbrev pub Agrees : RawField → Option RawField → Type 0
Agrees old none = Unit
Agrees old (some new) =
    All (λ key. value_at key old ≡ value_at key new)
      ("name" ∷ "type" ∷ "dimension" ∷ "store_type" ∷ "format" ∷ [])

json_eq-same : (a b : Json) → json_eq a b ≡ done true → a ≡ b
unfolding json_eq
json_eq-same null null h = refl
json_eq-same (flag true) (flag true) h = refl
json_eq-same (flag false) (flag false) h = refl
json_eq-same (number a) (number b) h = ap number (ground (arith, ==_iff a b))
json_eq-same (text a) (text b) h = ap text (ground (arith, eq_iff a b))
json_eq-same (object a) (object b) h = absurd cc
json_eq-same (array a) (array b) h = absurd cc
json_eq-same a b h = absurd cc

all_equal-same :
    (keys : List String) (old new : RawField)
    → all_equal keys old new ≡ done true
    → All (λ key. value_at key old ≡ value_at key new) keys
unfolding all_equal
all_equal-same [] old new h = tt
all_equal-same (key ∷ keys) old new h =
    let go = λ (same : Bool). if same then all_equal keys old new else done false in
    let a = and_then-done (json_eq (value_at key old) (value_at key new)) go h in
    elim (Bool-cases a.0) [
      | inl e ↦
          let first : json_eq (value_at key old) (value_at key new) ≡ done true =
            a.1 ∙ ap (λ b. done b) e in
          let rest : all_equal keys old new ≡ done true = rw e at a.2 in
          (
            json_eq-same (value_at key old) (value_at key new) first,
            all_equal-same keys old new rest,
          )
      | inr e ↦ absurd (let bad : done false ≡ done true = rw e at a.2 in cc)
    ]

are_fields_equal-Agrees :
    (old new : RawField) → are_fields_equal old new ≡ done true → Agrees old (some new)
unfolding are_fields_equal
are_fields_equal-Agrees old new h =
    all_equal-same ("name" ∷ "type" ∷ "dimension" ∷ "store_type" ∷ "format" ∷ []) old new h

-- A field that is there stays if it equals the old one.
merge_old-some :
    (name : String) (old new : RawField) (merged : FieldMap) {out : FieldMap}
    → merge_old name old (some new) merged ≡ done out
    → (are_fields_equal old new ≡ done true) × (merged ≡ out)
unfolding merge_old
merge_old-some name old new merged {out} h =
    let go = λ (same : Bool). if same then done merged else failed ErrorEnum.param_error in
    let a = and_then-done (are_fields_equal old new) go h in
    elim (Bool-cases a.0) [
      | inl e ↦ (a.1 ∙ ap (λ b. done b) e, (let q : done merged ≡ done out = rw e at a.2 in cc))
      | inr e ↦ absurd (let bad : failed ErrorEnum.param_error ≡ done out = rw e at a.2 in cc)
    ]

merge_old-lookup :
    (name : String) (old : RawField) (merged : FieldMap) (k : String) {out : FieldMap}
    → merge_old name old (lookup name merged) merged ≡ done out
    → lookup k out ≡ first_of (lookup k merged) (if str_eq name k then some old else none)
unfolding merge_old
merge_old-lookup name old merged k {out} h = elim (Option-cases (lookup name merged)) [
  | inl e ↦
      let made : done (insert name old merged) ≡ done out = rw e at h in
      let same : insert name old merged ≡ out = cc in
      elim (Bool-cases (str_eq name k)) [
        | inl s ↦
            let key : name ≡ k = (eq_iff name k).0 s in
            let none_there : lookup k merged ≡ none = rw key at e in
            ap (lookup k) (sym same) ∙ lookup-insert name k old merged ∙ rw (s, none_there) refl
        | inr s ↦
            ap (lookup k) (sym same)
            ∙ lookup-insert name k old merged
            ∙ rw (s) (sym (first_of-none (lookup k merged)))
      ]
  | inr (new, e) ↦
      let found : merge_old name old (some new) merged ≡ done out =
        subst (λ o. merge_old name old o merged ≡ done out) e h in
      let same : merged ≡ out = (merge_old-some name old new merged found).1 in
      elim (Bool-cases (str_eq name k)) [
        | inl s ↦
            let key : name ≡ k = (eq_iff name k).0 s in
            let there : lookup k merged ≡ some new = rw key at e in
            ap (lookup k) (sym same) ∙ rw (there) refl
        | inr s ↦ ap (lookup k) (sym same) ∙ rw (s) (sym (first_of-none (lookup k merged)))
      ]
]

merge_old-Agrees :
    (name : String) (old : RawField) (found : Option RawField) (merged : FieldMap) {out : FieldMap}
    → merge_old name old found merged ≡ done out
    → Agrees old found
unfolding merge_old
merge_old-Agrees name old none merged h = tt
merge_old-Agrees name old (some new) merged h =
    are_fields_equal-Agrees old new (merge_old-some name old new merged h).0

first_of_assoc :
    {A : Type 0} (a : Option A) (b : Bool) (x : A) (c : Option A)
    → first_of (first_of a (if b then some x else none)) c ≡ first_of a (if b then some x else c)
first_of_assoc none true x c = refl
first_of_assoc none false x c = refl
first_of_assoc (some a) b x c = refl

merge_schemas-lookup :
    (olds merged : FieldMap) (k : String) {out : FieldMap}
    → merge_schemas olds merged ≡ done out
    → lookup k out ≡ first_of (lookup k merged) (lookup k olds)
unfolding merge_schemas
merge_schemas-lookup [] merged k {out} h =
    let same : merged ≡ out = cc in ap (lookup k) (sym same) ∙ sym (first_of-none (lookup k merged))
merge_schemas-lookup ((name, old) ∷ olds) merged k {out} h =
    let m = and_then-done (merge_old name old (lookup name merged) merged) (merge_schemas olds) h in
    merge_schemas-lookup olds m.0 k m.2
    ∙ ap (λ f. first_of f (lookup k olds)) (merge_old-lookup name old merged k m.1)
    ∙ first_of_assoc (lookup k merged) (str_eq name k) old (lookup k olds)

merge_schemas-Agrees :
    (olds merged : FieldMap) (k : String) (old new : RawField) {out : FieldMap}
    → lookup k olds ≡ some old
    → lookup k merged ≡ some new
    → merge_schemas olds merged ≡ done out
    → Agrees old (some new)
unfolding merge_schemas
merge_schemas-Agrees [] merged k old new o n h = absurd (cc)
merge_schemas-Agrees ((name, first) ∷ olds) merged k old new o n h =
    let m =
      and_then-done (merge_old name first (lookup name merged) merged) (merge_schemas olds) h in
    elim (Bool-cases (str_eq name k)) [
      | inl s ↦
          let key : name ≡ k = (eq_iff name k).0 s in
          let held : some first ≡ some old = rw s at o in
          let same : first ≡ old = cc in
          let there : lookup name merged ≡ some new = ap (λ x. lookup x merged) key ∙ n in
          let agree : Agrees first (some new) =
            subst (Agrees first) there
              (merge_old-Agrees name first (lookup name merged) merged m.1) in
          subst (λ f. Agrees f (some new)) same agree
      | inr s ↦
          let later : lookup k olds ≡ some old = rw s at o in
          let kept : lookup k m.0 ≡ some new =
            merge_old-lookup name first merged k m.1
            ∙ ap (λ f. first_of f (if str_eq name k then some first else none)) n in
          merge_schemas-Agrees olds m.0 k old new later kept m.2
    ]

-- The old and the new field of a name agree, if there are both.
abbrev pub BothAgree : Option RawField → Option RawField → Type 0
BothAgree none new = Unit
BothAgree (some old) new = Agrees old new

both_agree :
    (o n : Option RawField)
    → ((old new : RawField) → o ≡ some old → n ≡ some new → Agrees old (some new))
    → BothAgree o n
both_agree none n f = tt
both_agree (some old) none f = tt
both_agree (some old) (some new) f = f old new refl refl

-- If the schemas merge, then for every name the merged map has the new field, if there is one, and the old
-- one otherwise, and where there are both they have the same values of name, type, dimension, store type and format,
-- a missing one being null.
pub merge_schemas_lem :
    (olds news out : FieldMap) (k : String)
    → merge_schemas olds news ≡ done out
    → (lookup k out ≡ first_of (lookup k news) (lookup k olds))
      × BothAgree (lookup k olds) (lookup k news)
merge_schemas_lem olds news out k h = (
  merge_schemas-lookup olds news k h,
  both_agree (lookup k olds) (lookup k news)
      (λ old new o n. merge_schemas-Agrees olds news k old new o n h),
)
