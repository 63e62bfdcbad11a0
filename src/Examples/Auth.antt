-- ===== src/Examples/Auth.antt =====
-- The theorems on roles and privileges, at a small store.
use vearch.Prelude.{
  String, [], ◌∷◌, none, ok, err, ErrorEnum, leb, ◌&&◌, ◌≡◌, ◌≢◌, ◌↔◌, refl, str_eq, if◌then◌else◌,
  arith, eq_iff,
}
use vearch.Prelude.Assoc.{lookup}
use vearch.Auth.Model.{Role, write_read, read_only, root_name, role_map}
use vearch.Auth.Names.{
  validate_name, validate_role, validate_privileges, first_rune, has_forbidden, is_forbidden,
  equal_fold, lower,
}
use vearch.Auth.Access.{parse_resources, has_permission_for_resources}
use vearch.Auth.Access.Checked.{has_permission_for_resources_iff}
use vearch.Auth.Roles.{
  Store, Env, create_role, query_role, change_role_privilege, create_txn, stm_get, put_role,
  committed, role_key, blank_role, decoded, as_param_error, changed, changed_role, change_txn,
  old_role_of,
}
use vearch.Auth.Roles.Granted.{renewed, change_role_privilege-renewed}
use vearch.Auth.Roles.Stored.{create_role-query_role}

abbrev reader : Role
reader = record { name = "reader"; operator = ""; privileges = ("ResourceSpace", read_only) ∷ [] }

abbrev more : Role
more = record {
  name = "reader";
  operator = "Grant";
  privileges = ("ResourceIndex", write_read) ∷ [];
}

-- A codec that knows one role, and a store that always answers.
abbrev calm : Env
calm = record {
  prefix_role = "/role/";
  is_number = λ r. leb 48 r && leb r 57;
  marshal = λ _. ok "reader";
  unmarshal = λ _ _. ok reader;
  get = ok tt;
  lock = ok tt;
  commit = ok tt;
}

abbrev one_role : Store
one_role = ("/role/reader", "reader") ∷ []

has_permission_for_resources_iff_example :
    (has_permission_for_resources reader "/cluster/stats" "GET"
      ≡ err ErrorEnum.authentication_failed)
    ↔ ((reader.name ≢ root_name)
        × (lookup (parse_resources "/cluster/stats" "GET").0 reader.privileges ≡ none))
has_permission_for_resources_iff_example =
    has_permission_for_resources_iff reader "/cluster/stats" "GET"

reader-created : create_role calm reader [] ≡ (ok tt, one_role)
unfolding create_role create_txn stm_get put_role committed role_key validate_role validate_name
    validate_privileges first_rune has_forbidden is_forbidden equal_fold lower
reader-created = refl

reader-is_text : reader.name ≢ ""
reader-is_text e = absurd (let h = (eq_iff "reader" "").1 e in ground arith)

create_role-query_role_example :
    (query_role calm "reader" one_role ≡ ok reader)
    × (create_role calm reader one_role ≡ (err ErrorEnum.role_exist, one_role))
create_role-query_role_example =
    create_role-query_role calm reader [] one_role "reader" refl refl reader-is_text refl refl
      reader-created

-- A codec that knows the role before and after the change
abbrev changing : Env
changing = record calm {
  marshal = λ _. ok "more";
  unmarshal = λ text _. if str_eq text "more" then ok (changed_role more reader) else ok reader;
}

abbrev more_role : Store
more_role = ("/role/reader", "more") ∷ []

not_built_in : lookup (changed_role more reader).name role_map ≡ none
unfolding changed_role
not_built_in = refl

reader-changed :
    change_role_privilege changing more one_role ≡ (ok (changed_role more reader), more_role)
unfolding change_role_privilege changed change_txn put_role committed role_key old_role_of decoded
    as_param_error validate_role validate_name validate_privileges first_rune has_forbidden
    is_forbidden equal_fold lower changed_role
reader-changed = refl

change_role_privilege-renewed_example :
    (old : Role) × (decoded changing (blank_role "") (lookup (role_key "/role/" "reader") one_role)
      ≡ ok old)
    × ((changed_role more reader).name ≡ old.name)
    × ((r : String)
        → lookup r (changed_role more reader).privileges
          ≡ renewed "Grant" (lookup r more.privileges) (lookup r old.privileges))
    × (query_role changing (changed_role more reader).name more_role
        ≡ ok (changed_role more reader))
    × ((key : String)
        → role_key "/role/" (changed_role more reader).name ≢ key
        → lookup key more_role ≡ lookup key one_role)
change_role_privilege-renewed_example =
    change_role_privilege-renewed changing more (changed_role more reader) one_role more_role "more"
      (refl, tt) refl refl not_built_in refl reader-changed
