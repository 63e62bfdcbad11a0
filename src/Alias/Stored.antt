-- ===== src/Alias/Stored.antt =====
-- What CreateAlias, UpdateAlias, DeleteAlias and QueryAlias answer one after the other.
use vearch.Prelude.{
  String, none, some, ok, err, ErrorEnum, if◌then◌else◌, eq_iff, eq_refl, arith, ◌≡◌, ◌≢◌, refl, ap,
  ◌∙◌,
}
use vearch.Prelude.Assoc.{lookup, insert, erase, lookup-insert, lookup-erase}
use vearch.Auth.Roles.{Store, stm_get, committed, as_param_error}
use vearch.Alias.{
  Alias, AliasEnv, alias_key, validate_alias, put_alias, create_alias_txn, create_alias,
  decoded_alias, query_alias, delete_alias, must_exist, update_alias,
}

abbrev blank : String → Alias
blank alias_name = record { name = alias_name; db_name = ""; space_name = "" }

create_alias-ok :
    (env : AliasEnv) (alias : Alias) (store store' : Store) (text : String)
    → env.marshal alias ≡ ok text
    → create_alias env alias store ≡ (ok tt, store')
    → (validate_alias env.is_number alias ≡ ok tt)
      × (env.lock ≡ ok tt)
      × (store' ≡ insert (alias_key env.prefix_alias alias.name) text store)
unfolding create_alias create_alias_txn put_alias committed
create_alias-ok env alias store store' text m h =
    ground (arith, eq_iff (stm_get (alias_key env.prefix_alias alias.name) store) "")

-- A text that was written under the key of an alias is what a query decodes.
query_alias-insert :
    (env : AliasEnv) (alias : Alias) (store : Store) (text : String)
    → env.unmarshal text (blank alias.name) ≡ ok alias
    → env.get ≡ ok tt
    → query_alias env alias.name (insert (alias_key env.prefix_alias alias.name) text store)
      ≡ ok alias
unfolding query_alias decoded_alias as_param_error
query_alias-insert env alias store text um g =
    let key = alias_key env.prefix_alias alias.name in
    let found : lookup key (insert key text store) ≡ some text =
      lookup-insert key key text store
      ∙ ap (λ b. if b then some text else lookup key store) (eq_refl key) in
    rw (g, found, um) refl

-- An alias that CreateAlias has stored is what QueryAlias answers for its name, and a second creation with
-- that name answers ALIAS_EXIST and writes nothing. Conditions: reads answer, and the codec
-- writes the alias as a text that is not empty and reads back.
pub create_alias-query_alias :
    (env : AliasEnv) (alias : Alias) (store store' : Store) (text : String)
    → env.marshal alias ≡ ok text
    → env.unmarshal text (blank alias.name) ≡ ok alias
    → text ≢ ""
    → env.get ≡ ok tt
    → create_alias env alias store ≡ (ok tt, store')
    → (query_alias env alias.name store' ≡ ok alias)
      × (create_alias env alias store' ≡ (err ErrorEnum.alias_exist, store'))
unfolding create_alias create_alias_txn stm_get
create_alias-query_alias env alias store store' text m um ne g h =
    let key = alias_key env.prefix_alias alias.name in
    let c = create_alias-ok env alias store store' text m h in
    let found : lookup key store' ≡ some text = rw (c.2) (
      lookup-insert key key text store
      ∙ ap (λ b. if b then some text else lookup key store) (eq_refl key)) in
    (rw (c.2) (query_alias-insert env alias store text um g), ground (arith, eq_iff text ""))

update_alias-ok :
    (env : AliasEnv) (alias : Alias) (store store' : Store) (text : String)
    → env.marshal alias ≡ ok text
    → env.commit ≡ ok tt
    → update_alias env alias store ≡ (ok tt, store')
    → store' ≡ insert (alias_key env.prefix_alias alias.name) text store
unfolding update_alias put_alias committed must_exist
update_alias-ok env alias store store' text m k h = ground arith

-- An alias that UpdateAlias has changed is what QueryAlias answers for its name. Conditions: the update
-- answers without an error, its commit holds, reads answer, and the codec reads back what it writes.
pub update_alias-query_alias :
    (env : AliasEnv) (alias : Alias) (store store' : Store) (text : String)
    → env.marshal alias ≡ ok text
    → env.unmarshal text (blank alias.name) ≡ ok alias
    → env.get ≡ ok tt
    → env.commit ≡ ok tt
    → update_alias env alias store ≡ (ok tt, store')
    → query_alias env alias.name store' ≡ ok alias
update_alias-query_alias env alias store store' text m um g k h =
    rw (update_alias-ok env alias store store' text m k h)
      (query_alias-insert env alias store text um g)

delete_alias-ok :
    (env : AliasEnv) (alias_name : String) (alias : Alias) (store store' : Store)
    → query_alias env alias_name store ≡ ok alias
    → delete_alias env alias_name store ≡ (ok tt, store')
    → store' ≡ erase (alias_key env.prefix_alias alias.name) store
unfolding delete_alias committed
delete_alias-ok env alias_name alias store store' q h = ground arith

-- After DeleteAlias the query answers ALIAS_NOT_EXIST. Conditions: the stored text decodes to an alias of that
-- name, the deletion succeeded, and reads answer.
pub delete_alias-query_alias :
    (env : AliasEnv) (alias_name : String) (alias : Alias) (store store' : Store)
    → query_alias env alias_name store ≡ ok alias
    → alias.name ≡ alias_name
    → env.get ≡ ok tt
    → delete_alias env alias_name store ≡ (ok tt, store')
    → query_alias env alias_name store' ≡ err ErrorEnum.alias_not_exist
unfolding query_alias decoded_alias
delete_alias-query_alias env alias_name alias store store' q n g h =
    let key = alias_key env.prefix_alias alias_name in
    let gone = delete_alias-ok env alias_name alias store store' q h in
    let at : lookup key store' ≡ none =
      rw (gone, n)
        (lookup-erase key key store
          ∙ ap (λ b. if b then none else lookup key store) (eq_refl key)) in
    rw (g, at) refl
