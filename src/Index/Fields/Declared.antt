-- ===== src/Index/Fields/Declared.antt =====
-- What UnmarshalPropertyJSON of internal/entity/space.go makes of the fields that it accepts.
use vearch.Prelude.{
  String, List, [], ◌∷◌, ◌++◌, map, Bool, true, false, ◌||◌, not, Bool-cases, inl, inr, ◌⊎◌, Option,
  none, some, done, and_then, and_then-done, if◌then◌else◌, has_str, str_eq, eq_iff, ◌==◌, All,
  arith, ◌≡◌, ◌≢◌, refl, sym, ap, ◌∙◌,
}
use vearch.Prelude.Assoc.{insert}
use mathlib.Core.Path.{subst}
use mathlib.Core.List.{append_assoc, append-nil}
use vearch.Prelude.{Nodup, Fresh, Fresh-nil}
use vearch.Space.Model.{FieldType}
use vearch.Index.{Index, FieldOption, SpaceProperties, Props, is_scalar_index_type, is_vector}
use vearch.Index.Fields.{
  Field, field_type_of, stop_if, check_store_type, check_format, option_of, properties_of,
  check_vector, property_of, is_index_seen, add_index_name, check_field_name, property_loop,
  unmarshal_property_json,
}

-- An index on the field, if any, is of a type for scalars exactly when the field is no vector.
abbrev IndexFits : Bool → Option Index → Type 0
IndexFits vector none = Unit
IndexFits vector (some idx) = is_scalar_index_type idx.type ≡ not vector

abbrev pub IsProperty : SpaceProperties → Type 0
IsProperty p =
    IndexFits (is_vector p.field_type) p.index
    × (((is_vector p.field_type ≡ true) × (p.dimension ≢ 0))
        ⊎ ((is_vector p.field_type ≡ false)
            × (p.dimension ≡ 0)
            × (p.format ≡ none)
            × (p.store_type ≡ none)))

-- What a property keeps of its field
abbrev pub Declares : Field → SpaceProperties → Type 0
Declares field p = (p.type ≡ field.type) × (p.index ≡ field.index) × IsProperty p

stop_if-done : (b : Bool) → stop_if b ≡ done tt → b ≡ false
stop_if-done b h = ground arith

option_of-IndexFits :
    (b : Bool) (index : Option Index) {o : FieldOption}
    → option_of b index ≡ done o
    → IndexFits b index
unfolding option_of
option_of-IndexFits b none h = tt
option_of-IndexFits true (some idx) h = ground arith
option_of-IndexFits false (some idx) h = ground arith

properties_of-Declares :
    (field : Field) (t : FieldType) (chosen : FieldOption)
    → IndexFits (is_vector t) field.index
    → (is_vector t ≡ true → field.dimension ≢ 0)
    → Declares field (properties_of field t chosen)
unfolding properties_of
properties_of-Declares field t chosen i d = elim (Bool-cases (is_vector t)) [
  | inl e ↦ (refl, refl, (i, inl (e, rw (e) (d e))))
  | inr e ↦ (refl, refl, (i, inr (e, rw (e) refl, rw (e) refl, rw (e) refl)))
]

property_of-Declares :
    (field : Field) (o : Option FieldType) {p : SpaceProperties}
    → property_of field o ≡ done p
    → Declares field p
unfolding property_of check_vector
property_of-Declares field none h = absurd (cc)
property_of-Declares field (some t) {p} h =
    let checks =
      and_then-done (if is_vector t then check_vector field else done tt)
        (λ _.
          and_then (option_of (is_vector t) field.index)
            λ option. done (properties_of field t option))
        h in
    let opt =
      and_then-done (option_of (is_vector t) field.index)
        (λ option. done (properties_of field t option)) checks.2 in
    let same : properties_of field t opt.0 ≡ p = let e = opt.2 in cc in
    let dim : is_vector t ≡ true → field.dimension ≢ 0 = λ v.
      let c : check_vector field ≡ done checks.0 = let k = checks.1 in ground arith in
      let parts =
        and_then-done (stop_if (field.dimension == 0))
          (λ _. and_then (check_store_type field.store_type) λ _. check_format field.format) c in
      let zero_dim = stop_if-done (field.dimension == 0) parts.1 in ground arith in
    subst (Declares field) same (
      properties_of-Declares field t opt.0 (option_of-IndexFits (is_vector t) field.index opt.1)
        dim)

-- The names of the indexes that the fields carry
abbrev pub index_names_of : List Field → List String
index_names_of [] = []
index_names_of (field ∷ fields) = add_index_name field.index (index_names_of fields)

abbrev pub keys : Props → List String
keys props = map (λ e. e.0) props

-- A field and the entry that stands for it
abbrev pub Stands : List Field → Props → Type 0
Stands [] [] = Unit
Stands [] (e ∷ props) = ⊥
Stands (field ∷ fields) [] = ⊥
Stands (field ∷ fields) (e ∷ props) =
    ((e.0 ≡ field.name) × Declares field e.1) × Stands fields props

insert-fresh {ℓ} :
    {V : Type ℓ} (k : String) (v : V) (m : List (String × V))
    → has_str k (map (λ e. e.0) m) ≡ false
    → insert k v m ≡ m ++ (k, v) ∷ []
insert-fresh k v [] h = refl
insert-fresh k v ((j, w) ∷ m) h =
    let ih = insert-fresh k v m in
    elim (Bool-cases (str_eq j k)) [
      | inl e ↦ absurd (ground arith)
      | inr e ↦ rw (e) (ap (◌∷◌ (j, w)) (ih (ground arith)))
    ]

has_str-keys-append :
    {V : Type 0} (k name : String) (v : V) (m : List (String × V))
    → has_str k (map (λ e. e.0) (m ++ (name, v) ∷ []))
      ≡ (str_eq name k || has_str k (map (λ e. e.0) m))
has_str-keys-append k name v [] = refl
has_str-keys-append k name v ((j, w) ∷ m) = let ih = has_str-keys-append k name v m in ground arith

Fresh-add_index_name :
    (index : Option Index) (seen later : List String)
    → is_index_seen index seen ≡ false
    → Fresh (add_index_name index seen) later
    → Fresh seen (add_index_name index later)
unfolding is_index_seen add_index_name
Fresh-add_index_name none seen later s f = f
Fresh-add_index_name (some idx) seen later s f = (s, f)

-- The names a field may not have
abbrev pub IsFieldName : String → Type 0
IsFieldName name = (name ≢ "") × (name ≢ "_id") × (name ≢ "_score")

check_field_name-false :
    (field : Field) (names index_names : List String)
    → check_field_name field names index_names ≡ false
    → IsFieldName field.name
      × (has_str field.name names ≡ false)
      × (is_index_seen field.index index_names ≡ false)
unfolding check_field_name
check_field_name-false field names index_names h = (
  (
    ground (arith, eq_iff field.name ""),
    ground (arith, eq_iff field.name "_id"),
    ground (arith, eq_iff field.name "_score"),
  ),
  ground arith,
  ground arith,
)

abbrev IsLoopResult : List Field → List String → List String → Props → Props → Type 0
IsLoopResult fields names index_names props out =
    (rest : Props) × (out ≡ props ++ rest)
    × Stands fields rest
    × All (λ f. IsFieldName f.name) fields
    × Fresh names (map (λ f. f.name) fields)
    × Fresh index_names (index_names_of fields)

property_loop-done :
    (fields : List Field) (names index_names : List String) (props : Props) {out : Props}
    → ((k : String) → has_str k names ≡ has_str k (keys props))
    → property_loop fields names index_names props ≡ done out
    → IsLoopResult fields names index_names props out
unfolding property_loop
property_loop-done [] names index_names props {out} same h =
    ([], (let e : props ≡ out = cc in sym e ∙ sym (append-nil props)), tt, tt, tt, tt)
property_loop-done (field ∷ fields) names index_names props {out} same h =
    let bad = check_field_name field names index_names in
    let make = λ (p : SpaceProperties).
      property_loop fields (field.name ∷ names) (add_index_name field.index index_names)
        (insert field.name p props) in
    let a =
      and_then-done (stop_if bad)
        (λ _. and_then (property_of field (field_type_of field.type)) make) h in
    let named = check_field_name-false field names index_names (stop_if-done bad a.1) in
    let b = and_then-done (property_of field (field_type_of field.type)) make a.2 in
    let fresh : has_str field.name (keys props) ≡ false = sym (same field.name) ∙ named.1 in
    let put = insert-fresh field.name b.0 props fresh in
    let next : (k : String)
        → has_str k (field.name ∷ names) ≡ has_str k (keys (insert field.name b.0 props)) =
      λ k. rw (put, has_str-keys-append k field.name b.0 props, same k) refl in
    let ih =
      property_loop-done fields (field.name ∷ names) (add_index_name field.index index_names)
        (insert field.name b.0 props) next b.2 in
    (
      (field.name, b.0) ∷ ih.0,
      ih.1 ∙ ap (λ m. m ++ ih.0) put ∙ append_assoc props ((field.name, b.0) ∷ []) ih.0,
      ((refl, property_of-Declares field (field_type_of field.type) b.1), ih.2),
      (named.0, ih.3),
      (named.1, ih.4),
      Fresh-add_index_name field.index index_names (index_names_of fields) named.2 ih.5,
    )

-- What UnmarshalPropertyJSON accepts has, in the order of the fields, one entry for each of them under
-- its name, with its type and its index. No name is empty, _id or _score; no two fields have one name;
-- no two indexes on the fields have one name, the empty one included. A vector has a dimension that is
-- not zero and no index of a scalar type; any other field has an index of a scalar type or none, and
-- neither dimension nor format nor store type.
pub unmarshal_property_json-done :
    (fields : List Field) {props : Props}
    → unmarshal_property_json fields ≡ done props
    → Stands fields props
      × All (λ f. IsFieldName f.name) fields
      × Nodup (map (λ f. f.name) fields)
      × Nodup (index_names_of fields)
unfolding unmarshal_property_json
unmarshal_property_json-done fields {props} h =
    let r = property_loop-done fields [] [] [] (λ k. refl) h in
    (
      subst (Stands fields) (sym r.1) r.2,
      r.3,
      (Fresh-nil (map (λ f. f.name) fields)).0 r.4,
      (Fresh-nil (index_names_of fields)).0 r.5,
    )
