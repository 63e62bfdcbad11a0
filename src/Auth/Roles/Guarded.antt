-- ===== src/Auth/Roles/Guarded.antt =====
-- What a role that was created may do.
use vearch.Prelude.{String, ok, err, none, ErrorEnum, arith, ◌≡◌}
use vearch.Prelude.Assoc.{lookup}
use vearch.Auth.Model.{Role}
use vearch.Auth.Names.{validate_role}
use vearch.Auth.Names.Accepted.{validate_role-not_root}
use vearch.Auth.Access.{parse_resources, has_permission_for_resources}
use vearch.Auth.Access.Checked.{has_permission_for_resources_iff}
use vearch.Auth.Roles.{Store, Env, create_role}

create_role-valid :
    (env : Env) (role : Role) (store store' : Store)
    → create_role env role store ≡ (ok tt, store')
    → validate_role env.is_number role ≡ ok tt
unfolding create_role
create_role-valid env role store store' h = ground arith

-- A role that CreateRole has accepted never passes as root: a request for a resource that it has no
-- entry for is refused.
pub create_role-guarded :
    (env : Env) (role : Role) (store store' : Store) (endpoint method : String)
    → create_role env role store ≡ (ok tt, store')
    → lookup (parse_resources endpoint method).0 role.privileges ≡ none
    → has_permission_for_resources role endpoint method ≡ err ErrorEnum.authentication_failed
create_role-guarded env role store store' endpoint method h n =
    (has_permission_for_resources_iff role endpoint method).1
      (validate_role-not_root env.is_number role (create_role-valid env role store store' h), n)
