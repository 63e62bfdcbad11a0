-- ===== src/Index/Merged.antt =====
-- What MergeFieldIndexes of internal/entity/space.go makes of the indexes that fields carry.
use vearch.Prelude.{
  String, List, [], ◌∷◌, ◌++◌, map, false, not, Bool-cases, inl, inr, Option, none, some, Result,
  ok, ◌>>◌, bind-ok, done, has_str, str_eq, eq_iff, eq_refl, All, All-append, arith, ◌≡◌, ◌≢◌, refl,
  sym, ap, ◌∙◌,
}
use vearch.Prelude.Assoc.{lookup}
use mathlib.Core.Path.{subst}
use mathlib.Core.List.{Permᴰ, append_assoc, append-nil}
use mathlib.Core.List.Permᴰ as PermD
use text.Mathlib.TextLemmas.{length-append as string_length-append}
use Prim.Native.String.{count, ◌++◌ as text_append}
use vearch.Prelude.{Nodup, All-perm, Nodup-perm}
use vearch.Index.{
  Index, SpaceProperties, Props, composite_index_type, is_scalar_index_type, is_vector,
  make_auto_index_name, is_composite, is_indexed, field_index, merge_field, merge_fields_loop,
  merge_field_indexes, validate_indexes,
}
use vearch.Index.Checked.{IsIndex, validate_indexes_iff}
use vearch.Index.Fields.{Field, unmarshal_property_json}
use vearch.Index.Fields.Declared.{
  Stands, IsProperty, IsFieldName, keys, unmarshal_property_json-done,
}

-- The index of one entry, if it has one, before the others
abbrev with_index : String → Option Index → List Index → List Index
with_index name none indexes = indexes
with_index name (some idx) indexes = field_index name idx ∷ indexes

-- The indexes that the fields carry, in the order of the fields
abbrev pub indexes_of : Props → List Index
indexes_of [] = []
indexes_of ((name, p) ∷ props) = with_index name p.index (indexes_of props)

-- No index on a field is a composite one.
abbrev pub NotComposite : Option Index → Type 0
NotComposite none = Unit
NotComposite (some idx) = idx.type ≢ composite_index_type

abbrev NotIndexed : String → List Index → Type 0
NotIndexed name indexes = is_indexed name indexes ≡ false

merge_field_lem :
    (name : String) (index : Option Index) (indexes later : List Index)
    → NotComposite index
    → NotIndexed name indexes
    → merge_field name index indexes ≡ ok (indexes ++ with_index name index [])
unfolding merge_field is_composite
merge_field_lem name none indexes later c n = ap ok (sym (append-nil indexes))
merge_field_lem name (some idx) indexes later c n =
    ground (arith, eq_iff idx.type composite_index_type)

with_index-append :
    (name : String) (index : Option Index) (indexes later : List Index)
    → (indexes ++ with_index name index []) ++ later ≡ indexes ++ with_index name index later
with_index-append name none indexes later = ap (λ x. x ++ later) (append-nil indexes)
with_index-append name (some idx) indexes later =
    append_assoc indexes (field_index name idx ∷ []) later

is_indexed-append :
    (name : String) (xs ys : List Index)
    → NotIndexed name xs
    → NotIndexed name ys
    → NotIndexed name (xs ++ ys)
unfolding is_indexed
is_indexed-append name [] ys x y = y
is_indexed-append name (i ∷ xs) ys x y = let ih = is_indexed-append name xs ys in ground arith

-- The index of another field does not stand for a name.
is_indexed-other :
    (other name : String) (index : Option Index)
    → str_eq name other ≡ false
    → NotIndexed other (with_index name index [])
unfolding is_indexed field_index
is_indexed-other other name none h = refl
is_indexed-other other name (some idx) h = ground (arith, eq_iff other name, eq_iff name other)

-- None of the names has an index of its own yet.
abbrev NoneIndexed : List String → List Index → Type 0
NoneIndexed names indexes = All (λ k. NotIndexed k indexes) names

NoneIndexed-append :
    (name : String) (index : Option Index) (indexes : List Index) (names : List String)
    → has_str name names ≡ false
    → NoneIndexed names indexes
    → NoneIndexed names (indexes ++ with_index name index [])
NoneIndexed-append name index indexes [] f n = tt
NoneIndexed-append name index indexes (k ∷ names) f n = (
  is_indexed-append k indexes (with_index name index []) n.0
      (is_indexed-other k name index (ground (arith, eq_iff k name, eq_iff name k))),
  NoneIndexed-append name index indexes names (ground arith) n.1,
)

merge_fields_loop_lem :
    (props : Props) (indexes : List Index)
    → Nodup (keys props)
    → All (λ e. NotComposite e.1.index) props
    → NoneIndexed (keys props) indexes
    → merge_fields_loop props indexes ≡ ok (indexes ++ indexes_of props)
unfolding merge_fields_loop
merge_fields_loop_lem [] indexes d c n = ap ok (sym (append-nil indexes))
merge_fields_loop_lem ((name, p) ∷ props) indexes d c n =
    let one = merge_field_lem name p.index indexes [] c.0 n.0 in
    let rest =
      merge_fields_loop_lem props (indexes ++ with_index name p.index []) d.1 c.1
        (NoneIndexed-append name p.index indexes (keys props) d.0 n.1) in
    rw (one) (rest ∙ ap ok (with_index-append name p.index indexes (indexes_of props)))

NoneIndexed-nil : (names : List String) → NoneIndexed names []
unfolding is_indexed
NoneIndexed-nil [] = tt
NoneIndexed-nil (k ∷ names) = (refl, NoneIndexed-nil names)

-- Each key of a map without repetition is looked up to its own entry.
skip :
    (k : String) (v : SpaceProperties) (all props : Props)
    → has_str k (keys props) ≡ false
    → All (λ e. lookup e.0 all ≡ some e.1) props
    → All (λ e. lookup e.0 ((k, v) ∷ all) ≡ some e.1) props
skip k v all [] h a = tt
skip k v all (e ∷ props) h a =
    let rest = skip k v all props (ground arith) a.1 in
    (ground (arith, eq_iff k e.0, eq_iff e.0 k), rest)

lookup-keys : (props : Props) → Nodup (keys props) → All (λ e. lookup e.0 props ≡ some e.1) props
lookup-keys [] d = tt
lookup-keys ((k, v) ∷ props) d =
    (rw (eq_refl k) refl, skip k v props props d.0 (lookup-keys props d.1))

make_auto_index_name-named : (name type : String) → make_auto_index_name name type ≢ ""
unfolding make_auto_index_name
make_auto_index_name-named name type h =
    let a : String = text_append "__idx__" name in
    let b : String = text_append a "_" in
    let size : count (text_append b type) ≡ 0 = ap count h in
    omega (
      arith,
      size,
      string_length-append b type,
      string_length-append a "_",
      string_length-append "__idx__" name,
    )

field_index-named : (name : String) (idx : Index) → (field_index name idx).name ≢ ""
unfolding field_index
field_index-named name idx =
    let auto = make_auto_index_name-named name idx.type in ground (arith, eq_iff idx.name "")

-- The index of a declared field is well formed.
with_index-IsIndex :
    (props : Props) (name : String) (index : Option Index) (p : SpaceProperties)
    (later : List Index)
    → p.index ≡ index
    → IsProperty p
    → lookup name props ≡ some p
    → name ≢ ""
    → NotComposite index
    → All (IsIndex props) later
    → All (IsIndex props) (with_index name index later)
unfolding field_index
with_index-IsIndex props name none p later i d l n c a = a
with_index-IsIndex props name (some idx) p later i d l n c a =
    let fits : is_scalar_index_type idx.type ≡ not (is_vector p.field_type) =
      let f = d.0 in rw i at f in
    ((field_index-named name idx, inr (c, n, refl, (p, l, ground arith))), a)

indexes_of-IsIndex :
    (props : Props) (fields : List Field) (rest : Props)
    → Stands fields rest
    → All (λ e. lookup e.0 props ≡ some e.1) rest
    → All (λ f. IsFieldName f.name) fields
    → All (λ e. NotComposite e.1.index) rest
    → All (IsIndex props) (indexes_of rest)
indexes_of-IsIndex props [] [] s l n c = tt
indexes_of-IsIndex props [] (e ∷ rest) s l n c = absurd s
indexes_of-IsIndex props (f ∷ fields) [] s l n c = tt
indexes_of-IsIndex props (f ∷ fields) ((name, p) ∷ rest) s l n c =
    let named : name ≢ "" = rw (s.0.0) n.0.0 in
    with_index-IsIndex props name p.index p (indexes_of rest) refl s.0.1.2 l.0 named c.0
      (indexes_of-IsIndex props fields rest s.1 l.1 n.1 c.1)

has_str-Stands :
    (k : String) (fields : List Field) (props : Props)
    → Stands fields props
    → has_str k (map (λ f. f.name) fields) ≡ has_str k (keys props)
has_str-Stands k [] [] s = refl
has_str-Stands k [] (e ∷ props) s = absurd s
has_str-Stands k (f ∷ fields) [] s = absurd s
has_str-Stands k (f ∷ fields) (e ∷ props) s =
    let ih = has_str-Stands k fields props s.1 in rw (s.0.0, ih) refl

Stands-keys :
    (fields : List Field) (props : Props)
    → Stands fields props
    → Nodup (map (λ f. f.name) fields)
    → Nodup (keys props)
Stands-keys [] [] s d = tt
Stands-keys [] (e ∷ props) s d = absurd s
Stands-keys (f ∷ fields) [] s d = absurd s
Stands-keys (f ∷ fields) (e ∷ props) s d = (
  rw (s.0.0) (sym (has_str-Stands f.name fields props s.1) ∙ d.0),
  Stands-keys fields props s.1 d.1,
)

keys-perm : {xs ys : Props} → Permᴰ xs ys → Permᴰ (keys xs) (keys ys)
keys-perm Permᴰ.nil = Permᴰ.nil
keys-perm (Permᴰ.cons e p) = Permᴰ.cons (ap (λ (x : String × SpaceProperties). x.0) e) (keys-perm p)
keys-perm (Permᴰ.swap d e) =
    Permᴰ.swap (ap (λ (x : String × SpaceProperties). x.0) d)
      (ap (λ (x : String × SpaceProperties). x.0) e)
keys-perm (Permᴰ.trans p q) = Permᴰ.trans (keys-perm p) (keys-perm q)

names-perm :
    {xs ys : List Index}
    → Permᴰ xs ys
    → Permᴰ (map (λ (i : Index). i.name) xs) (map (λ (i : Index). i.name) ys)
names-perm Permᴰ.nil = Permᴰ.nil
names-perm (Permᴰ.cons e p) = Permᴰ.cons (ap (λ (i : Index). i.name) e) (names-perm p)
names-perm (Permᴰ.swap d e) =
    Permᴰ.swap (ap (λ (i : Index). i.name) d) (ap (λ (i : Index). i.name) e)
names-perm (Permᴰ.trans p q) = Permᴰ.trans (names-perm p) (names-perm q)

with_index-perm :
    (name : String) (index : Option Index) {xs ys : List Index}
    → Permᴰ xs ys
    → Permᴰ (with_index name index xs) (with_index name index ys)
with_index-perm name none p = p
with_index-perm name (some idx) p = Permᴰ.cons refl p

with_index-swap :
    (a b : String) (i j : Option Index) (xs : List Index)
    → Permᴰ (with_index a i (with_index b j xs)) (with_index b j (with_index a i xs))
with_index-swap a b none j xs = PermD.refl (with_index b j xs)
with_index-swap a b (some i) none xs = PermD.refl (field_index a i ∷ xs)
with_index-swap a b (some i) (some j) xs = Permᴰ.swap refl refl

-- Fields in another order carry the same indexes.
indexes_of-perm : {xs ys : Props} → Permᴰ xs ys → Permᴰ (indexes_of xs) (indexes_of ys)
indexes_of-perm Permᴰ.nil = Permᴰ.nil
indexes_of-perm (Permᴰ.cons {a} {b} {l₁} {l₂} e p) =
    subst
      (λ (x : String × SpaceProperties).
        Permᴰ (with_index a.0 a.1.index (indexes_of l₁)) (with_index x.0 x.1.index (indexes_of l₂)))
      e (with_index-perm a.0 a.1.index (indexes_of-perm p))
indexes_of-perm (Permᴰ.swap {a} {b} {a'} {b'} {l} d e) =
    subst
      (λ (x : String × SpaceProperties). Permᴰ (indexes_of (a ∷ b ∷ l)) (indexes_of (x ∷ b' ∷ l))) e
      (subst
        (λ (x : String × SpaceProperties). Permᴰ (indexes_of (a ∷ b ∷ l)) (indexes_of (b ∷ x ∷ l)))
        d (with_index-swap a.0 b.0 a.1.index b.1.index (indexes_of l)))
indexes_of-perm (Permᴰ.trans p q) = Permᴰ.trans (indexes_of-perm p) (indexes_of-perm q)

-- For fields that UnmarshalPropertyJSON accepts, MergeFieldIndexes starting from no index answers the indexes that
-- the fields carry, in the order in which Go goes over the fields, each under its own name or the one made of its
-- field and type. Whatever that order is, they are the indexes of the fields as declared, in some order, and they
-- are valid for the space. Conditions: no field carries a composite index, and the names that come out are
-- different.
pub unmarshal_property_json-merge_field_indexes :
    (fields : List Field) (props : Props)
    → unmarshal_property_json fields ≡ done props
    → All (λ e. NotComposite e.1.index) props
    → Nodup (map (λ idx. idx.name) (indexes_of props))
    → (visited : Props) → Permᴰ props visited
    → (merge_field_indexes visited props [] ≡ ok (indexes_of visited))
      × Permᴰ (indexes_of props) (indexes_of visited)
      × (validate_indexes (indexes_of visited) props ≡ ok tt)
unfolding merge_field_indexes
unmarshal_property_json-merge_field_indexes fields props h c d visited o =
    let u = unmarshal_property_json-done fields h in
    let k = Stands-keys fields props u.0 u.2 in
    let moved = indexes_of-perm o in
    let m =
      merge_fields_loop_lem visited [] (Nodup-perm (keys-perm o) k)
        (All-perm (λ e. NotComposite e.1.index) o c) (NoneIndexed-nil (keys visited)) in
    let v = (validate_indexes_iff (indexes_of visited) props).1 (
      All-perm (IsIndex props) moved
          (indexes_of-IsIndex props fields props u.0 (lookup-keys props k) u.1 c),
      Nodup-perm (names-perm moved) d,
    ) in
    (rw (m) (rw (v) refl), moved, v)

merge_field-single :
    (name : String) (index : Option Index) (indexes : List Index) {out : List Index}
    → All (λ i. is_composite i ≡ false) indexes
    → merge_field name index indexes ≡ ok out
    → All (λ i. is_composite i ≡ false) out
unfolding merge_field is_composite field_index
merge_field-single name none indexes {out} a h =
    let same : indexes ≡ out = cc in
    subst (All (λ i. str_eq i.type composite_index_type ≡ false)) same a
merge_field-single name (some idx) indexes {out} a h =
    elim (Bool-cases (str_eq idx.type composite_index_type)) [
      | inl e ↦ absurd (ground arith)
      | inr e ↦
          let same : indexes ++ field_index name idx ∷ [] ≡ out = ground arith in
          subst (All (λ i. str_eq i.type composite_index_type ≡ false)) same (
            All-append (λ i. str_eq i.type composite_index_type ≡ false) indexes
              (field_index name idx ∷ []) a (e, tt))
    ]

merge_fields_loop-single :
    (props : Props) (indexes : List Index) {out : List Index}
    → All (λ i. is_composite i ≡ false) indexes
    → merge_fields_loop props indexes ≡ ok out
    → All (λ i. is_composite i ≡ false) out
unfolding merge_fields_loop
merge_fields_loop-single [] indexes {out} a h =
    let same : indexes ≡ out = cc in subst (All (λ i. is_composite i ≡ false)) same a
merge_fields_loop-single ((name, p) ∷ props) indexes a h =
    let m = bind-ok (merge_field name p.index indexes) (merge_fields_loop props) h in
    merge_fields_loop-single props m.0 (merge_field-single name p.index indexes a m.1) m.2

-- From no index, nothing composite comes out.
pub merge_field_indexes-single :
    (visited props : Props) {out : List Index}
    → merge_field_indexes visited props [] ≡ ok out
    → All (λ i. is_composite i ≡ false) out
unfolding merge_field_indexes
merge_field_indexes-single visited props {out} h =
    let last = λ (merged : List Index).
      validate_indexes merged props >> (let r : Result (List Index) = ok merged in r) in
    let a = bind-ok (merge_fields_loop visited []) last h in
    let b =
      bind-ok (validate_indexes a.0 props) (λ _. let r : Result (List Index) = ok a.0 in r) a.2 in
    let same : a.0 ≡ out = let q = b.2 in cc in
    subst (All (λ i. is_composite i ≡ false)) same (merge_fields_loop-single visited [] tt a.1)
