-- ===== src/Index/Change/New.antt =====
-- What AddIndexes of internal/master/services/space_service.go asks of one new index, given those that were seen.
use vearch.Prelude.{
  ◌<◌, String, List, [], ◌∷◌, map, Bool, true, false, inl, inr, ◌⊎◌, Option, none, some, Result, ok,
  ErrorEnum, ◌>>=◌, ◌>>◌, fail_if, bind-ok, fail_if_iff, >>-iff, if◌then◌else◌, has_str, str_eq,
  eq_iff, ltb, length, arith, ◌≡◌, ◌≢◌, refl, sym, ap, ◌∙◌,
}
use mathlib.Core.Path.{subst}
use vearch.Index.{Index, is_composite}
use vearch.Index.Change.{Seen, composite_field_key, see_fields, check_new_index}

abbrev pub index_names : List Index → List String
index_names indexes = map (λ idx. idx.name) indexes

-- The fields that have an index of their own
abbrev pub single_fields : List Index → List String
single_fields [] = []
single_fields (idx ∷ indexes) =
    let rest = single_fields indexes in if is_composite idx then rest else idx.field_name ∷ rest

-- The keys of the field lists of the composite indexes
abbrev pub composite_keys : List Index → List String
composite_keys [] = []
composite_keys (idx ∷ indexes) =
    let rest = composite_keys indexes in
    if is_composite idx then composite_field_key idx.field_names ∷ rest else rest

-- An index names its field or its fields.
abbrev pub IsFilled : Index → Type 0
IsFilled idx =
    ((is_composite idx ≡ true) × (0 < length idx.field_names))
    ⊎ ((is_composite idx ≡ false) × (idx.field_name ≢ ""))

-- What a check that succeeds says of one new index
abbrev pub IsNew : Index → Seen → Seen → Type 0
IsNew idx seen later =
    (has_str idx.name seen.names ≡ false)
    × (later.names ≡ idx.name ∷ seen.names)
    × (((is_composite idx ≡ true)
          × (has_str (composite_field_key idx.field_names) seen.composites ≡ false)
          × (later.composites ≡ composite_field_key idx.field_names ∷ seen.composites)
          × (later.fields ≡ seen.fields))
        ⊎ ((is_composite idx ≡ false)
            × (has_str idx.field_name seen.fields ≡ false)
            × (later.fields ≡ idx.field_name ∷ seen.fields)
            × (later.composites ≡ seen.composites)))

see_fields-composite :
    (idx : Index) (seen : Seen)
    → is_composite idx ≡ true
    → 0 < length idx.field_names
    → see_fields idx seen ≡ (
        fail_if
          (has_str (composite_field_key idx.field_names) seen.composites)
          ErrorEnum.param_error
        >> ok (record seen { composites = composite_field_key idx.field_names ∷ seen.composites }))
unfolding see_fields
see_fields-composite idx seen c l =
    let t : ltb 0 (length idx.field_names) ≡ true = ground arith in rw (c, t) refl

see_fields-single :
    (idx : Index) (seen : Seen)
    → is_composite idx ≡ false
    → idx.field_name ≢ ""
    → see_fields idx seen ≡ (
        fail_if (has_str idx.field_name seen.fields) ErrorEnum.param_error
        >> ok (record seen { fields = idx.field_name ∷ seen.fields }))
unfolding see_fields
see_fields-single idx seen c n =
    let t : str_eq idx.field_name "" ≡ false = ground (arith, eq_iff idx.field_name "") in
    rw (c, t) refl

fail_if-bind :
    {A : Type 0} (b : Bool) (a : A) {c : A}
    → (fail_if b ErrorEnum.param_error >> ok a) ≡ ok c
    → (b ≡ false) × (a ≡ c)
fail_if-bind true a h = absurd (cc)
fail_if-bind false a h = (refl, cc)

see_fields-IsNew :
    (idx : Index) (seen : Seen) {later : Seen}
    → IsFilled idx
    → has_str idx.name seen.names ≡ false
    → see_fields idx (record seen { names = idx.name ∷ seen.names }) ≡ ok later
    → IsNew idx seen later
see_fields-IsNew idx seen {later} f n h =
    let named : Seen = record seen { names = idx.name ∷ seen.names } in
    elim f [
      | inl (c, l) ↦
          let p =
            fail_if-bind (has_str (composite_field_key idx.field_names) seen.composites)
              (record named { composites = composite_field_key idx.field_names ∷ seen.composites })
              {c = later} (sym (see_fields-composite idx named c l) ∙ h) in
          (
            n,
            ap (λ (s : Seen). s.names) (sym p.1),
            inl (
              c,
              p.0,
              ap (λ (s : Seen). s.composites) (sym p.1),
              ap (λ (s : Seen). s.fields) (sym p.1),
            ),
          )
      | inr (c, l) ↦
          let p =
            fail_if-bind (has_str idx.field_name seen.fields)
              (record named { fields = idx.field_name ∷ seen.fields }) {c = later}
              (sym (see_fields-single idx named c l) ∙ h) in
          (
            n,
            ap (λ (s : Seen). s.names) (sym p.1),
            inr (
              c,
              p.0,
              ap (λ (s : Seen). s.fields) (sym p.1),
              ap (λ (s : Seen). s.composites) (sym p.1),
            ),
          )
    ]

-- `>>=` of a check and the rest, taken apart
pub check_new_index-IsNew :
    (entry : Option Index) (seen : Seen) {found : Index × Seen}
    → check_new_index entry seen ≡ ok found
    → IsFilled found.0
    → (entry ≡ some found.0) × IsNew found.0 seen found.1
unfolding check_new_index
check_new_index-IsNew none seen h f = absurd (cc)
check_new_index-IsNew (some idx) seen {found} h f =
    let e = ErrorEnum.param_error in
    let named : Seen = record seen { names = idx.name ∷ seen.names } in
    let pack = λ (later : Seen). let r : Result (Index × Seen) = ok (idx, later) in r in
    let a =
      bind-ok (fail_if (str_eq idx.name "") e >> fail_if (has_str idx.name seen.names) e)
        (λ _. see_fields idx named >>= pack) h in
    let b =
      (>>-iff (fail_if (str_eq idx.name "") e) (fail_if (has_str idx.name seen.names) e)).0 a.1 in
    let fresh = (fail_if_iff (has_str idx.name seen.names) e).0 b.1 in
    let c = bind-ok (see_fields idx named) pack a.2 in
    let pair : (idx, c.0) ≡ found = let q = c.2 in cc in
    let same : idx ≡ found.0 = ap (λ (p : Index × Seen). p.0) pair in
    let later : c.0 ≡ found.1 = ap (λ (p : Index × Seen). p.1) pair in
    let filled : IsFilled idx = subst IsFilled (sym same) f in
    (
      ap some same,
      subst (λ i. IsNew i seen found.1) same
          (subst (IsNew idx seen) later (see_fields-IsNew idx seen filled fresh c.1)),
    )
