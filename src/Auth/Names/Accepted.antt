-- ===== src/Auth/Names/Accepted.antt =====
-- Which names, roles and users the checks of internal/entity/user.go accept.
use vearch.Prelude.{fail_if_iff, >>-iff}
use vearch.Prelude.{
  ℕ, String, List, [], ◌∷◌, Bool, true, false, ◌&&◌, not, Bool-cases, inl, inr, ok, ErrorEnum, ◌>>◌,
  fail_if, has_str, All, str_eq, eq_iff, ◌==◌, arith, ◌≡◌, ◌≢◌, ◌↔◌, ◌⊎◌, refl,
}
use vearch.Auth.Model.{Role, grant, revoke, resource_map, privi_map, root_name}
use vearch.Auth.Names.{
  runes, is_forbidden, has_forbidden, equal_fold, lower, first_rune, validate_name,
  validate_privileges, validate_role,
}

-- What a name must be: it starts with no digit and no underscore, holds none of the forbidden runes
-- and, where the check is asked for, does not read root in any capitals.
abbrev StartsWell : (ℕ → Bool) → List ℕ → Type 0
StartsWell is_number [] = ⊥
StartsWell is_number (r ∷ rs) = (is_number r ≡ false) × (r ≢ 95)

abbrev pub IsName : (ℕ → Bool) → String → Bool → Type 0
IsName is_number name check_root =
    StartsWell is_number (runes name)
    × All (λ r. is_forbidden r ≡ false) (runes name)
    × ((check_root && equal_fold (runes name) (runes root_name)) ≡ false)

first_rune_iff : (f : ℕ → Bool) (rs : List ℕ) → (first_rune f rs ≡ ok tt) ↔ StartsWell f rs
unfolding first_rune
first_rune_iff f [] = (λ h. absurd cc, λ h. absurd h)
first_rune_iff f (r ∷ rs) = ground (
  arith,
  >>-iff (fail_if (f r) ErrorEnum.param_error) (fail_if (r == 95) ErrorEnum.param_error),
  fail_if_iff (f r) ErrorEnum.param_error,
  fail_if_iff (r == 95) ErrorEnum.param_error,
)

has_forbidden_iff :
    (rs : List ℕ) → (has_forbidden rs ≡ false) ↔ All (λ r. is_forbidden r ≡ false) rs
unfolding has_forbidden
has_forbidden_iff [] = (λ h. tt, λ h. refl)
has_forbidden_iff (r ∷ rs) =
    let ih = has_forbidden_iff rs in
    elim (Bool-cases (is_forbidden r)) [
      | inl e ↦ (λ h. absurd (ground arith), λ h. absurd (ground arith))
      | inr e ↦ (λ h. (e, ih.0 (ground arith)), λ h. let rest = ih.1 h.1 in ground arith)
    ]

-- ValidateName accepts exactly the names that are not empty, start with no number and no underscore,
-- hold no forbidden rune and, where it is asked to look, do not fold to root.
pub validate_name_iff :
    (is_number : ℕ → Bool) (name : String) (check_root : Bool)
    → (validate_name is_number name check_root ≡ ok tt) ↔ IsName is_number name check_root
unfolding validate_name
validate_name_iff f name c =
    let a = first_rune_iff f (runes name) in
    let b = has_forbidden_iff (runes name) in
    let m = first_rune f (runes name) in
    let n = fail_if (has_forbidden (runes name)) ErrorEnum.param_error in
    let k = fail_if (c && equal_fold (runes name) (runes root_name)) ErrorEnum.param_error in
    let mn = >>-iff m n in
    let mnk = >>-iff (m >> n) k in
    let n_iff = fail_if_iff (has_forbidden (runes name)) ErrorEnum.param_error in
    let k_iff =
      fail_if_iff (c && equal_fold (runes name) (runes root_name)) ErrorEnum.param_error in
    (
      λ h. let x = mnk.0 h in let y = mn.0 x.0 in (a.0 y.0, b.0 (n_iff.0 y.1), k_iff.0 x.1),
      λ h. mnk.1 (mn.1 (a.1 h.0, n_iff.1 (b.1 h.1)), k_iff.1 h.2),
    )

-- Every privilege listed is one of PriviMap, for a resource of ResourceMap.
abbrev pub Known : List (String × String) → Type 0
Known ps = All (λ e. (has_str e.0 resource_map ≡ true) × (has_str e.1 privi_map ≡ true)) ps

not-false : (b : Bool) → not b ≡ false → b ≡ true
not-false b h = ground arith

validate_privileges_iff :
    (f : ℕ → Bool) (ps : List (String × String)) → (validate_privileges f ps ≡ ok tt) ↔ Known ps
unfolding validate_privileges
validate_privileges_iff f [] = (λ h. tt, λ h. refl)
validate_privileges_iff f ((r, p) ∷ ps) =
    let ih = validate_privileges_iff f ps in
    let x = has_str r resource_map in
    let y = has_str p privi_map in
    let e = ErrorEnum.param_error in
    let fx = fail_if (not x) e in
    let fy = fail_if (not y) e in
    let both = >>-iff fx fy in
    let all = >>-iff (fx >> fy) (validate_privileges f ps) in
    (
      λ h.
          let s = all.0 h in
          let t = both.0 s.0 in
          (
            (
              not-false x ((fail_if_iff (not x) e).0 t.0),
              not-false y ((fail_if_iff (not y) e).0 t.1),
            ),
            ih.0 s.1,
          ),
      λ h. all.1 (
        both.1 (
          (fail_if_iff (not x) e).1 (rw (h.0.0) refl),
          (fail_if_iff (not y) e).1 (rw (h.0.1) refl),
        ),
        ih.1 h.1,
      ),
    )

-- Role.Validate accepts exactly the roles with a name that is fit and not root, an operator that is
-- Grant, Revoke or empty, and privileges of PriviMap on resources of ResourceMap alone.
pub validate_role_iff :
    (is_number : ℕ → Bool) (role : Role)
    → (validate_role is_number role ≡ ok tt) ↔ (
        IsName is_number role.name true
        × ((role.operator ≡ "") ⊎ ((role.operator ≡ grant) ⊎ (role.operator ≡ revoke)))
        × Known role.privileges)
unfolding validate_role
validate_role_iff f role =
    let e = ErrorEnum.param_error in
    let n = validate_name f role.name true in
    let t =
      not (str_eq role.operator "")
      && not (str_eq role.operator grant)
      && not (str_eq role.operator revoke) in
    let two = >>-iff n (fail_if t e) in
    let three = >>-iff (n >> fail_if t e) (validate_privileges f role.privileges) in
    let ns = validate_name_iff f role.name true in
    let ps = validate_privileges_iff f role.privileges in
    let os : (t ≡ false)
        ↔ ((role.operator ≡ "") ⊎ ((role.operator ≡ grant) ⊎ (role.operator ≡ revoke))) =
      ground
        (arith, eq_iff role.operator "", eq_iff role.operator grant, eq_iff role.operator revoke) in
    (
      λ h.
          let a = three.0 h in
          let b = two.0 a.0 in (ns.0 b.0, os.0 ((fail_if_iff t e).0 b.1), ps.0 a.1),
      λ h. three.1 (two.1 (ns.1 h.0, (fail_if_iff t e).1 (os.1 h.1)), ps.1 h.2),
    )

equal_fold-root : equal_fold (runes root_name) (runes root_name) ≡ true
unfolding equal_fold lower
equal_fold-root = refl

-- No role that is accepted has the name that passes every check of privileges.
pub validate_role-not_root :
    (is_number : ℕ → Bool) (role : Role)
    → validate_role is_number role ≡ ok tt
    → role.name ≢ root_name
validate_role-not_root f role h e =
    let folded = ((validate_role_iff f role).0 h).0.2 in
    let root : equal_fold (runes role.name) (runes root_name) ≡ true = rw (e) equal_fold-root in cc
