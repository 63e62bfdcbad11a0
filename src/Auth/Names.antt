-- ===== src/Auth/Names.antt =====
-- The names of roles and users: ValidateName, Role.Validate and User.Validate of
-- internal/entity/user.go. `unicode.IsNumber` is a parameter.
pub mod Accepted
use vearch.Prelude.{
  ℕ, ◌+◌, String, List, [], ◌∷◌, Bool, true, false, ◌||◌, ◌&&◌, not, Option, none, some, Result, ok,
  err, ErrorEnum, ◌>>◌, fail_if, has_num, has_str, leb, if◌then◌else◌, str_eq, ◌==◌,
}
use vearch.Auth.Model.{Role, User, grant, revoke, resource_map, privi_map, root_name}
use Prim.Native.Char.{Char, code}
use Prim.Native.String.{[], ◌∷◌}

-- []rune(name), each rune by its number
abbrev pub runes : String → List ℕ
runes [] = []
runes (c ∷ s) = code c ∷ runes s

-- The runes that no name may have, in the order of the source.
abbrev pub forbidden_runes : List ℕ
forbidden_runes =
    9 ∷ 10 ∷ 11 ∷ 12 ∷ 13 ∷ 32 ∷ 133 ∷ 160 ∷ 92 ∷ 43 ∷ 45 ∷ 33 ∷ 42 ∷ 47 ∷ 40 ∷ 41 ∷ 58 ∷ 94 ∷ 91
    ∷ 93 ∷ 34 ∷ 123 ∷ 125 ∷ 126 ∷ 37 ∷ 38 ∷ 39 ∷ 60 ∷ 62 ∷ 63 ∷ []

unfoldable pub is_forbidden : ℕ → Bool
is_forbidden r = has_num r forbidden_runes

unfoldable pub has_forbidden : List ℕ → Bool
has_forbidden [] = false
has_forbidden (r ∷ rs) = is_forbidden r || has_forbidden rs

-- strings.EqualFold against a text of small letters other than k and s, which fold with capital
-- letters of ASCII alone
unfoldable pub lower : ℕ → ℕ
lower r = if leb 65 r && leb r 90 then r + 32 else r

unfoldable pub equal_fold : List ℕ → List ℕ → Bool
equal_fold [] [] = true
equal_fold [] (s ∷ ss) = false
equal_fold (r ∷ rs) [] = false
equal_fold (r ∷ rs) (s ∷ ss) = (lower r == s) && equal_fold rs ss

module _ (is_number : ℕ → Bool) where
  unfoldable pub first_rune : List ℕ → Result (Unit {0})
  first_rune [] = err ErrorEnum.param_error
  first_rune (r ∷ rs) =
      fail_if (is_number r) ErrorEnum.param_error >> fail_if (r == 95) ErrorEnum.param_error

  unfoldable pub validate_name : String → Bool → Result (Unit {0})
  validate_name name check_root =
      first_rune (runes name)
      >> fail_if (has_forbidden (runes name)) ErrorEnum.param_error
      >> fail_if (check_root && equal_fold (runes name) (runes root_name)) ErrorEnum.param_error

  -- The loop of Role.Validate over the role's privileges.
  unfoldable pub validate_privileges : List (String × String) → Result (Unit {0})
  validate_privileges [] = ok tt
  validate_privileges ((resource, privilege) ∷ ps) =
      fail_if (not (has_str resource resource_map)) ErrorEnum.param_error
      >> fail_if (not (has_str privilege privi_map)) ErrorEnum.param_error
      >> validate_privileges ps

  -- (role *Role) Validate
  unfoldable pub validate_role : Role → Result (Unit {0})
  validate_role role =
      validate_name role.name true
      >> fail_if
          (not (str_eq role.operator "")
            && not (str_eq role.operator grant)
            && not (str_eq role.operator revoke))
          ErrorEnum.param_error
      >> validate_privileges role.privileges

  unfoldable pub is_empty : Option String → Bool
  is_empty none = false
  is_empty (some s) = str_eq s ""

  unfoldable pub folds_to_root : Option String → Bool
  folds_to_root none = false
  folds_to_root (some s) = equal_fold (runes s) (runes root_name)

  -- (user *User) Validate
  unfoldable pub validate_user : User → Bool → Result (Unit {0})
  validate_user user check_root =
      validate_name user.name check_root
      >> fail_if (is_empty user.password) ErrorEnum.param_error
      >> fail_if (check_root && folds_to_root user.role_name) ErrorEnum.param_error
