-- ===== src/Index/Checked.antt =====
-- Which lists of indexes ValidateIndexes of internal/entity/space.go accepts.
use vearch.Prelude.{
  ◌<◌, String, List, [], ◌∷◌, map, Bool, false, ◌&&◌, not, Bool-cases, inl, inr, ◌⊎◌, ◌↔◌, some,
  Option-cases, ok, ErrorEnum, ◌>>◌, fail_if, fail_if_iff, >>-iff, has_str, str_eq, eq_iff, ltb,
  length, All, arith, ◌≡◌, ◌≢◌, refl, ap,
}
use vearch.Prelude.Assoc.{lookup}
use mathlib.Core.Path.{subst}
use vearch.Prelude.{Nodup, Fresh, Fresh-nil}
use vearch.Index.{
  Index, SpaceProperties, Props, composite_index_type, is_scalar_index_type, is_vector,
  check_composite_field, check_composite_fields, check_single_field, is_composite, check_fields,
  check_index, check_indexes, validate_indexes,
}

-- A property of what the map holds for a name
abbrev pub HasField : Props → String → (SpaceProperties → Type 0) → Type 0
HasField props name P = (p : SpaceProperties) × (lookup name props ≡ some p) × P p

-- A composite index: two or more different fields, none of them a vector, and no single field.
abbrev pub IsCompositeIndex : Props → Index → Type 0
IsCompositeIndex props idx =
    (idx.type ≡ composite_index_type)
    × (idx.field_name ≡ "")
    × (1 < length idx.field_names)
    × All (λ name. HasField props name (λ p. is_vector p.field_type ≡ false)) idx.field_names
    × Nodup idx.field_names

-- An index of one field: its type is one for scalars exactly when the field is no vector.
abbrev pub IsSingleIndex : Props → Index → Type 0
IsSingleIndex props idx =
    (idx.type ≢ composite_index_type)
    × (idx.field_name ≢ "")
    × (idx.field_names ≡ [])
    × HasField props idx.field_name
        (λ p. is_vector p.field_type ≡ not (is_scalar_index_type idx.type))

abbrev pub IsIndex : Props → Index → Type 0
IsIndex props idx = (idx.name ≢ "") × (IsCompositeIndex props idx ⊎ IsSingleIndex props idx)

check_composite_field_iff :
    (props : Props) (name : String) (seen : Bool)
    → (check_composite_field (lookup name props) seen ≡ ok tt)
      ↔ (HasField props name (λ p. is_vector p.field_type ≡ false) × (seen ≡ false))
unfolding check_composite_field
check_composite_field_iff props name seen = elim (Option-cases (lookup name props)) [
  | inl e ↦ (λ h. absurd (ground arith), λ h. absurd (ground arith))
  | inr (p, e) ↦ (
    λ h. ((p, e, ground arith), ground arith),
    λ h.
        let same : h.0.0 ≡ p = ground arith in
        let b : is_vector p.field_type ≡ false =
          subst (λ q. is_vector q.field_type ≡ false) same h.0.2 in
        ground arith,
  )
]

check_composite_fields_iff :
    (props : Props) (seen names : List String)
    → (check_composite_fields props seen names ≡ ok tt) ↔ (
        All (λ name. HasField props name (λ p. is_vector p.field_type ≡ false)) names
        × Fresh seen names)
unfolding check_composite_fields
check_composite_fields_iff props seen [] = (λ h. (tt, tt), λ h. refl)
check_composite_fields_iff props seen (name ∷ names) =
    let ih = check_composite_fields_iff props (name ∷ seen) names in
    let at = check_composite_field_iff props name (has_str name seen) in
    let both =
      >>-iff (check_composite_field (lookup name props) (has_str name seen))
        (check_composite_fields props (name ∷ seen) names) in
    (
      λ h. let r = both.0 h in let s = at.0 r.0 in let t = ih.0 r.1 in ((s.0, t.0), (s.1, t.1)),
      λ h. both.1 (at.1 (h.0.0, h.1.0), ih.1 (h.0.1, h.1.1)),
    )

check_single_field_iff :
    (props : Props) (name type : String)
    → (check_single_field (lookup name props) type ≡ ok tt)
      ↔ HasField props name (λ p. is_vector p.field_type ≡ not (is_scalar_index_type type))
unfolding check_single_field
check_single_field_iff props name type = elim (Option-cases (lookup name props)) [
  | inl e ↦ (λ h. absurd (ground arith), λ h. absurd (ground arith))
  | inr (p, e) ↦ (
    λ h. (p, e, ground arith),
    λ h.
        let same : h.0 ≡ p = ground arith in
        let b : is_vector p.field_type ≡ not (is_scalar_index_type type) =
          subst (λ q. is_vector q.field_type ≡ not (is_scalar_index_type type)) same h.2 in
        ground arith,
  )
]

empty_or : (xs : List String) → (xs ≡ []) ⊎ (0 < length xs)
empty_or [] = inl refl
empty_or (x ∷ xs) = inr (omega arith)

-- The checks of the fields, and the one that refuses both kinds of fields at once.
fields_iff :
    (props : Props) (idx : Index)
    → ((not (str_eq idx.field_name "") && ltb 0 (length idx.field_names)) ≡ false)
        × (check_fields props idx ≡ ok tt)
      ↔ (IsCompositeIndex props idx ⊎ IsSingleIndex props idx)
unfolding check_fields is_composite
fields_iff props idx =
    let type_iff = eq_iff idx.type composite_index_type in
    let name_iff = eq_iff idx.field_name "" in
    let short = fail_if (ltb (length idx.field_names) 2) ErrorEnum.param_error in
    let unnamed = fail_if (str_eq idx.field_name "") ErrorEnum.param_error in
    let short_iff = fail_if_iff (ltb (length idx.field_names) 2) ErrorEnum.param_error in
    let unnamed_iff = fail_if_iff (str_eq idx.field_name "") ErrorEnum.param_error in
    let names = check_composite_fields_iff props [] idx.field_names in
    let single = check_single_field_iff props idx.field_name idx.type in
    let long_iff = >>-iff short (check_composite_fields props [] idx.field_names) in
    let one_iff = >>-iff unnamed (check_single_field (lookup idx.field_name props) idx.type) in
    let nodup = Fresh-nil idx.field_names in
    elim (Bool-cases (str_eq idx.type composite_index_type)) [
      | inl e ↦ rw (e) (
        λ h.
            let r = long_iff.0 h.1 in
            let s = names.0 r.1 in
            let l : 1 < length idx.field_names = let q = short_iff.0 r.0 in ground arith in
            inl (type_iff.0 e, ground arith, l, s.0, nodup.0 s.1),
        λ h. elim h [
          | inl c ↦ (
            ground arith,
            long_iff.1 (short_iff.1 (let l = c.2 in ground arith), names.1 (c.3, nodup.1 c.4)),
          )
          | inr c ↦ absurd (c.0 (type_iff.0 e))
        ],
      )
      | inr e ↦ rw (e) (
        λ h.
            let r = one_iff.0 h.1 in
            let q = unnamed_iff.0 r.0 in
            let none_given : idx.field_names ≡ [] = elim (empty_or idx.field_names) [
              | inl n ↦ n
              | inr n ↦ absurd (ground arith)
            ] in
            inr (λ t. absurd (ground arith), λ t. absurd (ground arith), none_given, single.0 r.1),
        λ h. elim h [
          | inl c ↦ let t = c.0 in absurd (ground arith)
          | inr c ↦
              let m : str_eq idx.field_name "" ≡ false = let ne = c.1 in ground arith in
              let z : length idx.field_names ≡ 0 = ap length c.2 in
              (ground arith, one_iff.1 (unnamed_iff.1 m, single.1 c.3))
        ],
      )
    ]

named_iff : (name : String) → (fail_if (str_eq name "") ErrorEnum.param_error ≡ ok tt) ↔ (name ≢ "")
named_iff name = ground (arith, eq_iff name "")

check_index_iff :
    (props : Props) (names : List String) (idx : Index)
    → (check_index props names idx ≡ ok tt) ↔ ((has_str idx.name names ≡ false) × IsIndex props idx)
unfolding check_index
check_index_iff props names idx =
    let e = ErrorEnum.param_error in
    let a = fail_if (str_eq idx.name "") e in
    let b = fail_if (has_str idx.name names) e in
    let t = not (str_eq idx.field_name "") && ltb 0 (length idx.field_names) in
    let ab = >>-iff a b in
    let abc = >>-iff (a >> b) (fail_if t e) in
    let all = >>-iff (a >> b >> fail_if t e) (check_fields props idx) in
    let named = named_iff idx.name in
    let fresh = fail_if_iff (has_str idx.name names) e in
    let one = fail_if_iff t e in
    let fields = fields_iff props idx in
    (
      λ h.
          let r = all.0 h in
          let s = abc.0 r.0 in
          let u = ab.0 s.0 in (fresh.0 u.1, (named.0 u.0, fields.0 (one.0 s.1, r.1))),
      λ h.
          let r = fields.1 h.1.1 in
          all.1 (abc.1 (ab.1 (named.1 h.1.0, fresh.1 h.0), one.1 r.0), r.1),
    )

check_indexes_iff :
    (props : Props) (names : List String) (indexes : List Index)
    → (check_indexes props names indexes ≡ ok tt)
      ↔ (All (IsIndex props) indexes × Fresh names (map (λ idx. idx.name) indexes))
unfolding check_indexes
check_indexes_iff props names [] = (λ h. (tt, tt), λ h. refl)
check_indexes_iff props names (idx ∷ indexes) =
    let ih = check_indexes_iff props (idx.name ∷ names) indexes in
    let at = check_index_iff props names idx in
    let both =
      >>-iff (check_index props names idx) (check_indexes props (idx.name ∷ names) indexes) in
    (
      λ h. let r = both.0 h in let s = at.0 r.0 in let t = ih.0 r.1 in ((s.1, t.0), (s.0, t.1)),
      λ h. both.1 (at.1 (h.1.0, h.0.0), ih.1 (h.0.1, h.1.1)),
    )

-- ValidateIndexes accepts a list exactly when every index has a name, no name stands twice, and each is
-- either a composite one of two or more different fields, none a vector, and no single field, or one of a
-- single field that the space has, whose type is one for scalars exactly when the field is no vector.
pub validate_indexes_iff :
    (indexes : List Index) (props : Props)
    → (validate_indexes indexes props ≡ ok tt)
      ↔ (All (IsIndex props) indexes × Nodup (map (λ idx. idx.name) indexes))
unfolding validate_indexes
validate_indexes_iff indexes props =
    let at = check_indexes_iff props [] indexes in
    let fresh = Fresh-nil (map (λ (idx : Index). idx.name) indexes) in
    (λ h. let r = at.0 h in (r.0, fresh.0 r.1), λ h. at.1 (h.0, fresh.1 h.1))
