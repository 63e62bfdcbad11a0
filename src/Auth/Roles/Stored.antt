-- ===== src/Auth/Roles/Stored.antt =====
-- What CreateRole, QueryRole and DeleteRole answer one after the other.
use text.Mathlib.TextLemmas.{append_cancel_left}
use vearch.Prelude.{
  String, Bool-cases, inl, inr, ◌>>◌, false, none, some, ok, err, ErrorEnum, if◌then◌else◌, str_eq,
  eq_iff, eq_refl, arith, ◌≡◌, ◌≢◌, refl, ap, ◌∙◌,
}
use vearch.Prelude.Assoc.{lookup, insert, erase, lookup-insert, lookup-erase}
use vearch.Auth.Model.{Role, role_map}
use vearch.Auth.Names.{validate_role}
use vearch.Auth.Roles.{
  Store, Env, stm_get, committed, put_role, create_txn, create_role, delete_role, query_role,
  as_param_error, decoded, blank_role, role_key,
}

-- An accepted creation finds no text under the key and writes the role's.
create_role-ok :
    (env : Env) (role : Role) (store store' : Store) (text : String)
    → env.marshal role ≡ ok text
    → create_role env role store ≡ (ok tt, store')
    → (validate_role env.is_number role ≡ ok tt)
      × (env.lock ≡ ok tt)
      × (stm_get (role_key env.prefix_role role.name) store ≡ "")
      × (store' ≡ insert (role_key env.prefix_role role.name) text store)
unfolding create_role create_txn put_role committed
create_role-ok env role store store' text m h =
    ground (arith, eq_iff (stm_get (role_key env.prefix_role role.name) store) "")

-- A role that CreateRole has stored is what QueryRole answers for its name, and a second creation with
-- that name answers ROLE_EXIST and writes nothing. Conditions: the name is not one of a role built
-- in, reads and the lock answer, and the codec writes the role as a text that is not empty and reads back.
pub create_role-query_role :
    (env : Env) (role : Role) (store store' : Store) (text : String)
    → env.marshal role ≡ ok text
    → env.unmarshal text (blank_role role.name) ≡ ok role
    → text ≢ ""
    → lookup role.name role_map ≡ none
    → env.get ≡ ok tt
    → create_role env role store ≡ (ok tt, store')
    → (query_role env role.name store' ≡ ok role)
      × (create_role env role store' ≡ (err ErrorEnum.role_exist, store'))
unfolding query_role decoded as_param_error create_role create_txn stm_get
create_role-query_role env role store store' text m um ne nb g h =
    let key = role_key env.prefix_role role.name in
    let c = create_role-ok env role store store' text m h in
    let found : lookup key store' ≡ some text = rw (c.3) (
      lookup-insert key key text store
      ∙ ap (λ b. if b then some text else lookup key store) (eq_refl key)) in
    (ground arith, ground (arith, eq_iff text ""))

-- An accepted deletion erases the key of the role that the query has found.
delete_role-ok :
    (env : Env) (role_name : String) (store store' : Store) (role : Role)
    → query_role env role_name store ≡ ok role
    → delete_role env role_name store ≡ (ok tt, store')
    → store' ≡ erase (role_key env.prefix_role role.name) store
unfolding delete_role committed
delete_role-ok env role_name store store' role q h = ground arith

-- A name that no role built in has is looked up in the store.
query_role-stored :
    (env : Env) (role_name : String) (store : Store)
    → lookup role_name role_map ≡ none
    → query_role env role_name store ≡ (
        env.get
        >> decoded env (blank_role role_name) (lookup (role_key env.prefix_role role_name) store))
unfolding query_role
query_role-stored env role_name store nb = ground arith

role_key-inj : (p n o : String) → role_key p n ≡ role_key p o → n ≡ o
unfolding role_key
role_key-inj p n o = append_cancel_left p n o

-- DeleteRole takes away the role that QueryRole has found: the next query answers ROLE_NOT_EXIST, and the
-- texts under the other keys stay. Conditions: the name is not one of a role built in, the stored text
-- decodes to a role of that name, and the deletion succeeded.
pub delete_role-query_role :
    (env : Env) (role_name : String) (store store' : Store) (role : Role)
    → lookup role_name role_map ≡ none
    → query_role env role_name store ≡ ok role
    → role.name ≡ role_name
    → env.get ≡ ok tt
    → delete_role env role_name store ≡ (ok tt, store')
    → (query_role env role_name store' ≡ err ErrorEnum.role_not_exist)
      × ((other : String)
          → role_name ≢ other
          → lookup (role_key env.prefix_role other) store'
            ≡ lookup (role_key env.prefix_role other) store)
unfolding decoded
delete_role-query_role env role_name store store' role nb q n g h =
    let gone = delete_role-ok env role_name store store' role q h in
    let at : (k : String)
        → lookup k store'
          ≡ (if str_eq (role_key env.prefix_role role_name) k then none else lookup k store) =
      λ k. rw (gone, n) (lookup-erase (role_key env.prefix_role role_name) k store) in
    (
      rw
          (
            query_role-stored env role_name store' nb,
            g,
            at (role_key env.prefix_role role_name),
            eq_refl (role_key env.prefix_role role_name),
          )
          refl,
      λ other ne.
          let key = role_key env.prefix_role role_name in
          let apart : str_eq key (role_key env.prefix_role other) ≡ false =
            elim (Bool-cases (str_eq key (role_key env.prefix_role other))) [
              | inl e ↦
                  absurd (ne (role_key-inj env.prefix_role role_name other ((eq_iff _ _).0 e)))
              | inr e ↦ e
            ] in
          rw (at (role_key env.prefix_role other), apart) refl,
    )
