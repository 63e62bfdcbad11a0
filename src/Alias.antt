-- ===== src/Alias.antt =====
-- Aliases of spaces: internal/entity/alias.go and internal/master/services/alias_service.go, over the
-- same store as the roles.
pub mod Stored
use vearch.Prelude.{
  ℕ, String, List, Bool, false, Option, none, some, Result, ok, err, ErrorEnum, ◌>>=◌, ◌>>◌,
  fail_if, if◌then◌else◌, str_eq, not,
}
use vearch.Prelude.Assoc.{lookup, insert, erase}
use vearch.Auth.Names.{runes, first_rune, has_forbidden}
use vearch.Auth.Roles.{Store, stm_get, committed, as_param_error}
use Prim.Native.String.{◌++◌}

pub record Alias : Type 0 where
  pub name : String
  pub db_name : String
  pub space_name : String

-- The prefix of the keys, the codec, and what the store answers in one run of an operation.
pub record AliasEnv : Type 0 where
  pub prefix_alias : String
  pub is_number : ℕ → Bool
  pub marshal : Alias → Result String
  pub unmarshal : String → Alias → Result Alias
  pub get : Result (Unit {0})
  pub lock : Result (Unit {0})
  pub commit : Result (Unit {0})

unfoldable pub alias_key : String → String → String
alias_key prefix_alias alias_name = prefix_alias ++ alias_name

-- (alias *Alias) Validate; a name may be root here
unfoldable pub validate_alias : (ℕ → Bool) → Alias → Result (Unit {0})
validate_alias is_number alias =
    first_rune is_number (runes alias.name)
    >> fail_if (has_forbidden (runes alias.name)) ErrorEnum.param_error

unfoldable pub put_alias : AliasEnv → String → Result String → Store → Result (Unit {0}) × Store
put_alias env key (err e) store = (err e, store)
put_alias env key (ok text) store = committed env.commit tt (insert key text store) store

unfoldable pub create_alias_txn : AliasEnv → Alias → Store → Result (Unit {0}) × Store
create_alias_txn env alias store =
    if not (str_eq (stm_get (alias_key env.prefix_alias alias.name) store) "")
    then (err ErrorEnum.alias_exist, store)
    else put_alias env (alias_key env.prefix_alias alias.name) (env.marshal alias) store

unfoldable pub create_alias : AliasEnv → Alias → Store → Result (Unit {0}) × Store
create_alias env alias store = elim (validate_alias env.is_number alias >> env.lock) [
  | err e ↦ (err e, store)
  | ok _ ↦ create_alias_txn env alias store
]

-- The answer to a read of an alias's key.
unfoldable pub decoded_alias : AliasEnv → String → Option String → Result Alias
decoded_alias env alias_name none = err ErrorEnum.alias_not_exist
decoded_alias env alias_name (some text) =
    as_param_error
      (env.unmarshal text (record { name = alias_name; db_name = ""; space_name = "" }))

unfoldable pub query_alias : AliasEnv → String → Store → Result Alias
query_alias env alias_name store =
    env.get >> decoded_alias env alias_name (lookup (alias_key env.prefix_alias alias_name) store)

unfoldable pub delete_alias : AliasEnv → String → Store → Result (Unit {0}) × Store
delete_alias env alias_name store =
    elim (query_alias env alias_name store >>= λ alias. env.lock >>= λ _. ok alias) [
      | err e ↦ (err e, store)
      | ok alias ↦
          committed env.commit tt (erase (alias_key env.prefix_alias alias.name) store) store
    ]

-- `if bs == nil { return ALIAS_NOT_EXIST }`
unfoldable pub must_exist : Option String → Result (Unit {0})
must_exist none = err ErrorEnum.alias_not_exist
must_exist (some text) = ok tt

-- UpdateAlias checks no name, and drops the error of its transaction.
unfoldable pub update_alias : AliasEnv → Alias → Store → Result (Unit {0}) × Store
update_alias env alias store =
    elim (env.get
      >> must_exist (lookup (alias_key env.prefix_alias alias.name) store)
      >> env.lock) [
        | err e ↦ (err e, store)
        | ok _ ↦ (
          ok tt,
          (put_alias env (alias_key env.prefix_alias alias.name) (env.marshal alias) store).1,
        )
      ]
