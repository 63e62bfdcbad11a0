-- ===== src/Auth/Roles.antt =====
-- The role service of the master, internal/master/services/role_service.go, over the key-value store
-- it keeps its roles in.
pub mod Granted
pub mod Stored
pub mod Guarded
use vearch.Prelude.{
  String, List, [], ◌∷◌, ℕ, Bool, true, false, Option, none, some, Result, ok, err, ErrorEnum,
  ◌>>=◌, ◌>>◌, if◌then◌else◌, str_eq, not,
}
use vearch.Prelude.Assoc.{lookup, insert, erase}
use vearch.Auth.Model.{Role, grant, revoke, role_map}
use vearch.Auth.Names.{validate_role}
use Prim.Native.String.{◌++◌}

-- The store of internal/client, by key.
abbrev pub Store : Type 0
Store = List (String × String)

-- RoleKey of internal/entity/meta.go
unfoldable pub role_key : String → String → String
role_key prefix_role role_name = prefix_role ++ role_name

-- The prefix that SetPrefixAndSequence has set, and what is not of this repository: the JSON codec,
-- `unicode.IsNumber`, and what the calls of the store
-- answer in one run of an operation, `get` for a read, `lock` for the mutex and `commit` for the
-- transaction, which writes only if it answers without an error.
pub record Env : Type 0 where
  pub prefix_role : String
  pub is_number : ℕ → Bool
  pub marshal : Role → Result String
  pub unmarshal : String → Role → Result Role
  pub get : Result (Unit {0})
  pub lock : Result (Unit {0})
  pub commit : Result (Unit {0})

-- stm.Get, which answers the empty text for a key that is missing
unfoldable pub stm_get : String → Store → String
stm_get key store = elim (lookup key store) [ none ↦ "" | some text ↦ text ]

-- The end of a transaction: its writes hold if the commit answers without an error.
unfoldable pub committed {ℓ} :
    {A : Type ℓ} → Result (Unit {0}) → A → Store → Store → Result A × Store
committed (ok _) a new old = (ok a, new)
committed (err e) a new old = (err e, old)

unfoldable pub put_role : Env → String → Result String → Store → Result (Unit {0}) × Store
put_role env key (err e) store = (err e, store)
put_role env key (ok text) store = committed env.commit tt (insert key text store) store

unfoldable pub create_txn : Env → Role → Store → Result (Unit {0}) × Store
create_txn env role store =
    if not (str_eq (stm_get (role_key env.prefix_role role.name) store) "")
    then (err ErrorEnum.role_exist, store)
    else put_role env (role_key env.prefix_role role.name) (env.marshal role) store

unfoldable pub create_role : Env → Role → Store → Result (Unit {0}) × Store
create_role env role store = elim (validate_role env.is_number role >> env.lock) [
  | err e ↦ (err e, store)
  | ok _ ↦ create_txn env role store
]

-- A failed json.Unmarshal is answered with PARAM_ERROR.
unfoldable pub as_param_error {ℓ} : {A : Type ℓ} → Result A → Result A
as_param_error (ok a) = ok a
as_param_error (err e) = err ErrorEnum.param_error

unfoldable pub blank_role : String → Role
blank_role role_name = record { name = role_name; operator = ""; privileges = [] }

-- The answer to a read of a role's key, decoded into `into`.
unfoldable pub decoded : Env → Role → Option String → Result Role
decoded env into none = err ErrorEnum.role_not_exist
decoded env into (some text) = as_param_error (env.unmarshal text into)

unfoldable pub query_role : Env → String → Store → Result Role
query_role env role_name store = elim (lookup role_name role_map) [
  | some role ↦ ok role
  | none ↦
      env.get
      >> decoded env (blank_role role_name) (lookup (role_key env.prefix_role role_name) store)
]

unfoldable pub delete_role : Env → String → Store → Result (Unit {0}) × Store
delete_role env role_name store =
    elim (query_role env role_name store >>= λ role. env.lock >>= λ _. ok role) [
      | err e ↦ (err e, store)
      | ok role ↦ committed env.commit tt (erase (role_key env.prefix_role role.name) store) store
    ]

-- The loop of ChangeRolePrivilege over the privileges asked for.
unfoldable pub apply_one :
    String → String → String → List (String × String) → List (String × String)
apply_one operator resource privilege old =
    let granted = if str_eq operator grant then insert resource privilege old else old in
    if str_eq operator revoke then erase resource granted else granted

unfoldable pub apply_privileges :
    String → List (String × String) → List (String × String) → List (String × String)
apply_privileges operator [] old = old
apply_privileges operator ((resource, privilege) ∷ ps) old =
    apply_privileges operator ps (apply_one operator resource privilege old)

unfoldable pub changed_role : Role → Role → Role
changed_role role old_role = record {
  name = old_role.name;
  operator = old_role.operator;
  privileges = apply_privileges role.operator role.privileges old_role.privileges;
}

-- The transaction of ChangeRolePrivilege, whose error is dropped.
unfoldable pub change_txn : Env → Role → Store → Store
change_txn env new_role store =
    (put_role env (role_key env.prefix_role new_role.name) (env.marshal new_role) store).1

-- The checks and reads of ChangeRolePrivilege before its transaction: the role as it is stored.
unfoldable pub old_role_of : Env → Role → Store → Result Role
old_role_of env role store =
    validate_role env.is_number role
    >> env.get
    >> decoded env (blank_role "") (lookup (role_key env.prefix_role role.name) store)
    >>= λ old_role. env.lock >>= λ _. ok old_role

-- The role that comes back is the one that the body of the transaction has changed in place.
unfoldable pub changed : Env → Role → Store → Result Role → Result Role × Store
changed env role store (err e) = (err e, store)
changed env role store (ok old_role) =
    (ok (changed_role role old_role), change_txn env (changed_role role old_role) store)

unfoldable pub change_role_privilege : Env → Role → Store → Result Role × Store
change_role_privilege env role store = changed env role store (old_role_of env role store)
