-- ===== src/Auth/Access/Checked.antt =====
-- Which requests HasPermissionForResources lets through.
use vearch.Prelude.{
  String, List, [], ◌∷◌, Bool, true, false, inl, inr, Option, none, some, err, ErrorEnum,
  if◌then◌else◌, has_str, All, eq_iff, arith, ◌≡◌, ◌≢◌, ◌↔◌, ◌⊎◌, refl,
}
use vearch.Prelude.Assoc.{lookup}
use vearch.Auth.Model.{Role, read_only, write_only, root_name, resource_map}
use vearch.Auth.Access.{
  contains_str, parse_resources, first_prefix, rest_resources, method_privilege, document_privilege,
  permission_of, has_permission_for_resources,
}
use text.Mathlib.Text.{starts_with}

permission_of_iff :
    (o : Option String) (p : String)
    → (permission_of o p ≡ err ErrorEnum.authentication_failed) ↔ (o ≡ none)
unfolding permission_of
permission_of_iff none p = (λ h. refl, λ h. refl)
permission_of_iff (some v) p = ground arith

-- HasPermissionForResources refuses a request exactly where the role is not called root and has no entry for the
-- resource that ParseResources names. The privilege that the entry grants does not matter.
pub has_permission_for_resources_iff :
    (role : Role) (endpoint method : String)
    → (has_permission_for_resources role endpoint method ≡ err ErrorEnum.authentication_failed) ↔ (
        (role.name ≢ root_name)
        × (lookup (parse_resources endpoint method).0 role.privileges ≡ none))
unfolding has_permission_for_resources
has_permission_for_resources_iff role endpoint method =
    let i =
      permission_of_iff (lookup (parse_resources endpoint method).0 role.privileges)
        (parse_resources endpoint method).1 in
    ground (arith, eq_iff role.name root_name)

-- What a request may need: a resource of ResourceMap, and ReadOnly or WriteOnly.
abbrev pub IsNeed : String → String → String × String → Type 0
IsNeed endpoint method (resource, privilege) =
    (has_str resource resource_map ≡ true)
    × ((privilege ≡ read_only) ⊎ (privilege ≡ write_only))
    × ((privilege ≡ method_privilege method) ⊎ (starts_with endpoint "/document" ≡ true))

if-P {ℓ κ} :
    {A : Type ℓ} (P : A → Type κ) (b : Bool) {x y : A}
    → ((b ≡ true) → P x)
    → ((b ≡ false) → P y)
    → P (if b then x else y)
if-P P true f g = f refl
if-P P false f g = g refl

method_privilege_cases :
    (method : String)
    → (method_privilege method ≡ read_only) ⊎ (method_privilege method ≡ write_only)
unfolding method_privilege
method_privilege_cases method = ground arith

document_privilege_cases :
    (endpoint : String)
    → (document_privilege endpoint ≡ read_only) ⊎ (document_privilege endpoint ≡ write_only)
unfolding document_privilege
document_privilege_cases endpoint = ground arith

first_prefix-known :
    (endpoint : String) (tests : List (String × String))
    → All (λ t. has_str t.1 resource_map ≡ true) tests
    → has_str (first_prefix endpoint tests) resource_map ≡ true
unfolding first_prefix
first_prefix-known endpoint [] a = refl
first_prefix-known endpoint ((p, r) ∷ tests) a =
    if-P (λ x. has_str x resource_map ≡ true) (starts_with endpoint p) (λ _. a.0)
      (λ _. first_prefix-known endpoint tests a.1)

-- ParseResources names a resource of ResourceMap, and asks for ReadOnly or WriteOnly: outside
-- /document by the method alone.
pub parse_resources-IsNeed :
    (endpoint method : String) → IsNeed endpoint method (parse_resources endpoint method)
unfolding parse_resources
parse_resources-IsNeed endpoint method =
    let by = method_privilege_cases method in
    let P = IsNeed endpoint method in
    if-P P (starts_with endpoint "/cluster") (λ _. (refl, by, inl refl))
      (λ _.
        if-P P (starts_with endpoint "/servers") (λ _. (refl, by, inl refl))
          (λ _.
            if-P P (starts_with endpoint "/partitions") (λ _. (refl, by, inl refl))
              (λ _.
                if-P P (starts_with endpoint "/dbs")
                  (λ _. (
                    if-P (λ x. has_str x resource_map ≡ true) (contains_str endpoint "/spaces")
                        (λ _. refl) (λ _. refl),
                    by,
                    inl refl,
                  ))
                  (λ _.
                    if-P P (starts_with endpoint "/backup") (λ _. (refl, by, inl refl))
                      (λ _.
                        if-P P (starts_with endpoint "/document")
                          (λ e. (refl, document_privilege_cases endpoint, inr e))
                          (λ _. (
                            first_prefix-known endpoint rest_resources
                                (refl, (refl, (refl, (refl, (refl, (refl, tt)))))),
                            by,
                            inl refl,
                          )))))))
