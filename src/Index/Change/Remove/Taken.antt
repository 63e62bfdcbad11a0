-- ===== src/Index/Change/Remove/Taken.antt =====
-- The index that RemoveIndex of internal/master/services/space_service.go takes out of the list, and the inline
-- indexes it clears.
use vearch.Prelude.{
  String, List, [], ◌∷◌, ◌++◌, true, false, Bool-cases, inl, inr, none, some, Option-cases, ok,
  has_str, str_eq, eq_iff, All, arith, ◌≡◌, ◌≢◌, refl, sym, ap, ◌∙◌,
}
use vearch.Index.{Index}
use vearch.Index.Fields.{Field}
use vearch.Index.Change.{Env}
use vearch.Index.Change.New.{index_names}
use vearch.Index.Change.Remove.{
  inline_index_matches, is_inline_of, clear_inline, or_else, clear_field_inline_index, take_out,
}

-- The index found is the first of its name; the others remain in their order.
abbrev pub IsTakenOut : String → List Index → Index → List Index → Type 0
IsTakenOut name indexes removed remaining =
    (before : List Index) × (later : List Index) × (indexes ≡ before ++ removed ∷ later)
    × (remaining ≡ before ++ later)
    × (removed.name ≡ name)
    × (has_str name (index_names before) ≡ false)

next_fresh :
    (first name : String) (names : List String)
    → str_eq first name ≡ false
    → has_str name names ≡ false
    → has_str name (first ∷ names) ≡ false
next_fresh first name names a b = ground arith

pub take_out-IsTakenOut :
    (name : String) (indexes : List Index) {removed : Index} {remaining : List Index}
    → take_out name indexes ≡ some (removed, remaining)
    → IsTakenOut name indexes removed remaining
unfolding take_out
take_out-IsTakenOut name [] h = absurd (cc)
take_out-IsTakenOut name (idx ∷ indexes) {removed} {remaining} h =
    elim (Bool-cases (str_eq idx.name name)) [
      | inl e ↦
          let found : some (idx, indexes) ≡ some (removed, remaining) = rw e at h in
          let pair : (idx, indexes) ≡ (removed, remaining) = cc in
          let same : idx ≡ removed = ap (λ (p : Index × List Index). p.0) pair in
          let rest : indexes ≡ remaining = ap (λ (p : Index × List Index). p.1) pair in
          (
            [],
            indexes,
            ap (λ i. i ∷ indexes) same,
            sym rest,
            ap (λ (i : Index). i.name) (sym same) ∙ (eq_iff idx.name name).0 e,
            refl,
          )
      | inr e ↦ elim (Option-cases (take_out name indexes)) [
        | inl n ↦ absurd (let bad : none ≡ some (removed, remaining) = rw (e, n) at h in cc)
        | inr ((found, rest), f) ↦
            let both : some (found, idx ∷ rest) ≡ some (removed, remaining) = rw (e, f) at h in
            let pair : (found, idx ∷ rest) ≡ (removed, remaining) = cc in
            let same : found ≡ removed = ap (λ (p : Index × List Index). p.0) pair in
            let kept : idx ∷ rest ≡ remaining = ap (λ (p : Index × List Index). p.1) pair in
            let ih = take_out-IsTakenOut name indexes f in
            (
              idx ∷ ih.0,
              ih.1,
              ap (◌∷◌ idx) (ih.2 ∙ ap (λ i. ih.0 ++ i ∷ ih.1) same),
              sym kept ∙ ap (◌∷◌ idx) ih.3,
              ap (λ (i : Index). i.name) (sym same) ∙ ih.4,
              next_fresh idx.name name (index_names ih.0) e ih.5,
            )
      ]
    ]

-- No field carries the index any more.
pub clear_inline-none :
    (removed : Index) (fields : List Field)
    → All (λ f. is_inline_of removed f ≡ false) (clear_inline removed fields).0
unfolding clear_inline is_inline_of inline_index_matches
clear_inline-none removed [] = tt
clear_inline-none removed (field ∷ fields) =
    let ih = clear_inline-none removed fields in
    elim (Bool-cases (is_inline_of removed field)) [
      | inl e ↦ rw (e) (ground arith, ih)
      | inr e ↦ rw (e) (e, ih)
    ]

-- Where nothing was cleared, nothing was carried.
clear_inline-unchanged :
    (removed : Index) (fields : List Field)
    → (clear_inline removed fields).1 ≡ false
    → (clear_inline removed fields).0 ≡ fields
unfolding clear_inline
clear_inline-unchanged removed [] h = refl
clear_inline-unchanged removed (field ∷ fields) h = elim (Bool-cases (is_inline_of removed field)) [
  | inl e ↦ absurd (let bad : true ≡ false = rw e at h in cc)
  | inr e ↦
      let later : (clear_inline removed fields).1 ≡ false = rw e at h in
      rw (e) (ap (◌∷◌ field) (clear_inline-unchanged removed fields later))
]

-- The fields that are stored, decoded again
pub clear_field_inline_index-decode :
    (env : Env) (text out : String) (removed : Index) (parsed : List Field)
    → env.encode (clear_inline removed parsed).0 ≡ ok out
    → env.decode out ≡ ok (clear_inline removed parsed).0
    → text ≢ ""
    → env.decode text ≡ ok parsed
    → env.decode (clear_field_inline_index env text removed) ≡ ok (clear_inline removed parsed).0
unfolding clear_field_inline_index or_else
clear_field_inline_index-decode env text out removed parsed written read n d =
    let t : str_eq text "" ≡ false = ground (arith, eq_iff text "") in
    elim (Bool-cases (clear_inline removed parsed).1) [
      | inl e ↦ rw (t, d, e, written) read
      | inr e ↦ rw (t, d, e) (d ∙ ap ok (sym (clear_inline-unchanged removed parsed e)))
    ]
