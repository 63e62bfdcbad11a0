-- ===== src/Update/Compatible.antt =====
-- The test of the old fields against the new ones in detectIndexChangesWithProperties and updateSpaceFields of
-- internal/master/services/space_service.go.
use vearch.Prelude.{
  String, List, [], ◌∷◌, ◌++◌, true, false, Bool-cases, inl, inr, Option, none, some, ok, >>-iff,
  length, All, arith, ◌≡◌, refl,
}
use vearch.Prelude.Assoc.{lookup}
use vearch.Index.{SpaceProperties, Props}
use vearch.Update.{
  has_index, are_properties_equal, is_only_index_option_change, differs, index_change_of,
  changed_indexes, new_index_of, new_indexed, check_compatible, check_all_compatible,
}

-- A field that stays has its type, dimension, format and store type, and an index or none as before.
abbrev KeptAs : SpaceProperties → Option SpaceProperties → Type 0
KeptAs old none = Unit
KeptAs old (some new) =
    (are_properties_equal old new ≡ true) × (differs (has_index old) (has_index new) ≡ false)

-- A field that is new has no index.
abbrev NewAs : SpaceProperties → Option SpaceProperties → Type 0
NewAs new none = has_index new ≡ false
NewAs new (some old) = Unit

abbrev pub IsCompatible : Props → Props → Type 0
IsCompatible olds news =
    All (λ e. KeptAs e.1 (lookup e.0 news)) olds × All (λ e. NewAs e.1 (lookup e.0 olds)) news

pub zero_append {ℓ} :
    {A : Type ℓ} (xs ys : List A) → length (xs ++ ys) ≡ 0 → (length xs ≡ 0) × (length ys ≡ 0)
zero_append [] ys h = (refl, h)
zero_append (x ∷ xs) ys h = absurd (omega arith)

index_change_of-none :
    (name : String) (old : SpaceProperties) (new : Option SpaceProperties)
    → check_compatible old new ≡ ok tt
    → length (index_change_of name old new) ≡ 0
    → KeptAs old new
unfolding index_change_of check_compatible is_only_index_option_change
index_change_of-none name old none c h = tt
index_change_of-none name old (some new) c h =
    elim (Bool-cases (differs (has_index old) (has_index new))) [
      | inl e ↦ absurd (let bad : 1 ≡ 0 = rw e at h in omega arith)
      | inr e ↦ (ground arith, e)
    ]

pub changed_indexes-none :
    (olds news : Props)
    → check_all_compatible olds news ≡ ok tt
    → length (changed_indexes olds news) ≡ 0
    → All (λ e. KeptAs e.1 (lookup e.0 news)) olds
unfolding changed_indexes check_all_compatible
changed_indexes-none [] news c h = tt
changed_indexes-none ((name, old) ∷ olds) news c h =
    let both =
      (>>-iff (check_compatible old (lookup name news)) (check_all_compatible olds news)).0 c in
    let parts =
      zero_append (index_change_of name old (lookup name news)) (changed_indexes olds news) h in
    (
      index_change_of-none name old (lookup name news) both.0 parts.0,
      changed_indexes-none olds news both.1 parts.1,
    )

new_index_of-none :
    (name : String) (new : SpaceProperties) (old : Option SpaceProperties)
    → length (new_index_of name new old) ≡ 0
    → NewAs new old
unfolding new_index_of
new_index_of-none name new (some old) h = tt
new_index_of-none name new none h = elim (Bool-cases (has_index new)) [
  | inl e ↦ absurd (let bad : 1 ≡ 0 = rw e at h in omega arith)
  | inr e ↦ e
]

pub new_indexed-none :
    (news olds : Props)
    → length (new_indexed news olds) ≡ 0
    → All (λ e. NewAs e.1 (lookup e.0 olds)) news
unfolding new_indexed
new_indexed-none [] olds h = tt
new_indexed-none ((name, new) ∷ news) olds h =
    let parts = zero_append (new_index_of name new (lookup name olds)) (new_indexed news olds) h in
    (new_index_of-none name new (lookup name olds) parts.0, new_indexed-none news olds parts.1)
