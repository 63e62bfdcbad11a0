-- ===== src/Auth/Access.antt =====
-- What a request needs and whether a role has it: ParseResources and HasPermissionForResources of
-- internal/entity/user.go.
pub mod Checked
use vearch.Prelude.{
  String, List, [], ◌∷◌, Bool, true, false, ◌||◌, Option, none, some, Result, ok, err, ErrorEnum,
  if◌then◌else◌, str_eq,
}
use vearch.Prelude.Assoc.{lookup}
use vearch.Auth.Model.{Role, read_only, write_only, write_read, root_name}
use text.Mathlib.Text.{starts_with, is_le}
use Prim.Native.String.{find, len}
use Prim.Native.Nat.{compare}

-- strings.Contains
abbrev pub contains_str : String → String → Bool
contains_str s t = is_le (compare (find s t) (len s))

-- The privilege that a method needs.
unfoldable pub method_privilege : String → String
method_privilege method = if str_eq method "GET" then read_only else write_only

-- The tests of ParseResources in their order: a prefix, and the resource that an endpoint with it has.
abbrev pub rest_resources : List (String × String)
rest_resources =
    ("/index", "ResourceIndex")
    ∷ ("/alias", "ResourceAlias")
    ∷ ("/config", "ResourceConfig")
    ∷ ("/users", "ResourceUser")
    ∷ ("/roles", "ResourceRole")
    ∷ ("/cache", "ResourceCache")
    ∷ []

unfoldable pub first_prefix : String → List (String × String) → String
first_prefix endpoint [] = "ResourceAll"
first_prefix endpoint ((p, r) ∷ tests) =
    if starts_with endpoint p then r else first_prefix endpoint tests

unfoldable pub document_privilege : String → String
document_privilege endpoint =
    if contains_str endpoint "query" || contains_str endpoint "search"
    then read_only
    else write_only

unfoldable pub parse_resources : String → String → String × String
parse_resources endpoint method =
    let privilege = method_privilege method in
    if starts_with endpoint "/cluster"
    then ("ResourceCluster", privilege)
    else if starts_with endpoint "/servers"
    then ("ResourceServer", privilege)
    else if starts_with endpoint "/partitions"
    then ("ResourcePartition", privilege)
    else if starts_with endpoint "/dbs"
    then (if contains_str endpoint "/spaces" then "ResourceSpace" else "ResourceDB", privilege)
    else if starts_with endpoint "/backup"
    then ("ResourceSpace", privilege)
    else if starts_with endpoint "/document"
    then ("ResourceDocument", document_privilege endpoint)
    else (first_prefix endpoint rest_resources, privilege)

-- The rest of HasPermissionForResources, for the entry that the role has of the resource.
unfoldable pub permission_of : Option String → String → Result (Unit {0})
permission_of none privilege = err ErrorEnum.authentication_failed
permission_of (some value) privilege =
    if str_eq privilege value || str_eq value write_read then ok tt else ok tt

unfoldable pub has_permission_for_resources : Role → String → String → Result (Unit {0})
has_permission_for_resources role endpoint method =
    if str_eq role.name root_name
    then ok tt
    else let needed = parse_resources endpoint method in
      permission_of (lookup needed.0 role.privileges) needed.1
