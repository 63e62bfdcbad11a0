-- ===== src/Auth/Roles/Granted.antt =====
-- What ChangeRolePrivilege makes of the privileges of a role.
use mathlib.Core.Path.{subst}
use vearch.Prelude.{
  ◌>>=◌, ◌>>◌, bind-ok, Bool-cases, inl, inr, String, List, [], ◌∷◌, Option, none, some, ok, err,
  Result-cases, if◌then◌else◌, str_eq, eq_iff, arith, eq_refl, ◌≢◌, sym, ap, ◌≡◌, refl, ◌∙◌,
}
use vearch.Prelude.Assoc.{lookup, insert, lookup-insert, lookup-erase}
use vearch.Auth.Model.{Role, grant, revoke, role_map}
use vearch.Auth.Names.{validate_role}
use vearch.Auth.Roles.{
  Store, Env, apply_one, apply_privileges, changed_role, change_role_privilege, changed, change_txn,
  old_role_of, decoded, blank_role, role_key, query_role, put_role, committed, as_param_error,
}

-- A Go map: no key stands twice.
abbrev pub IsMap : List (String × String) → Type 0
IsMap [] = Unit
IsMap ((k, v) ∷ m) = (lookup k m ≡ none) × IsMap m

-- What a grant or a revocation leaves of a resource it names.
abbrev pub renewed : String → Option String → Option String → Option String
renewed operator none old = old
renewed operator (some p) old =
    let granted = if str_eq operator grant then some p else old in
    if str_eq operator revoke then none else granted

lookup-apply_one :
    (op k p r : String) (old : List (String × String))
    → lookup r (apply_one op k p old)
      ≡ (if str_eq k r then renewed op (some p) (lookup r old) else lookup r old)
unfolding apply_one
lookup-apply_one op k p r old = ground (
  arith,
  lookup-insert k r p old,
  lookup-erase k r old,
  lookup-erase k r (insert k p old),
  eq_iff k r,
)

pub lookup-apply_privileges :
    (op : String) (ps old : List (String × String)) (r : String)
    → IsMap ps
    → lookup r (apply_privileges op ps old) ≡ renewed op (lookup r ps) (lookup r old)
unfolding apply_privileges
lookup-apply_privileges op [] old r m = refl
lookup-apply_privileges op ((k, p) ∷ ps) old r m =
    let ih = lookup-apply_privileges op ps (apply_one op k p old) r m.1 in
    let one = lookup-apply_one op k p r old in
    let absent : (k ≡ r) → lookup r ps ≡ none = λ e. subst (λ j. lookup j ps ≡ none) e m.0 in
    elim (Bool-cases (str_eq k r)) [
      | inl e ↦ rw (ih, one, e, absent ((eq_iff k r).0 e)) refl
      | inr e ↦ rw (ih, one, e) refl
    ]

-- The stored role that an accepted call starts from.
old_role_of-ok :
    (env : Env) (role old : Role) (store : Store)
    → old_role_of env role store ≡ ok old
    → (validate_role env.is_number role ≡ ok tt)
      × (decoded env (blank_role "") (lookup (role_key env.prefix_role role.name) store) ≡ ok old)
      × (env.get ≡ ok tt)
unfolding old_role_of
old_role_of-ok env role old store h =
    let valid = validate_role env.is_number role in
    let stored = decoded env (blank_role "") (lookup (role_key env.prefix_role role.name) store) in
    let locked = bind-ok (valid >> env.get >> stored) (λ a. env.lock >>= λ _. ok a) h in
    let free = bind-ok env.lock (λ _. ok locked.0) locked.2 in
    let read = bind-ok (valid >> env.get) (λ _. stored) locked.1 in
    let checked = bind-ok valid (λ _. env.get) read.1 in (checked.1, read.2 ∙ free.2, checked.2)

-- The role that the call answers with is the stored one, changed.
change_role_privilege-ok :
    (env : Env) (role new : Role) (store store' : Store)
    → change_role_privilege env role store ≡ (ok new, store')
    → (old : Role) × (old_role_of env role store ≡ ok old)
      × (new ≡ changed_role role old)
      × (store' ≡ change_txn env (changed_role role old) store)
unfolding change_role_privilege changed
change_role_privilege-ok env role new store store' h =
    elim (Result-cases (old_role_of env role store)) [
      | inl (old, e) ↦
          let h₂ : changed env role store (ok old) ≡ (ok new, store') =
            subst (λ o. changed env role store o ≡ (ok new, store')) e h in
          (old, e, cc, cc)
      | inr (code, e) ↦
          let h₂ : changed env role store (err code) ≡ (ok new, store') =
            subst (λ o. changed env role store o ≡ (ok new, store')) e h in
          absurd cc
    ]

-- The role that is written is what the next query finds, and no other key is touched.
change_txn-query_role :
    (env : Env) (role : Role) (store : Store) (text : String)
    → env.marshal role ≡ ok text
    → env.unmarshal text (blank_role role.name) ≡ ok role
    → lookup role.name role_map ≡ none
    → env.get ≡ ok tt
    → env.commit ≡ ok tt
    → (query_role env role.name (change_txn env role store) ≡ ok role)
      × ((key : String)
          → role_key env.prefix_role role.name ≢ key
          → lookup key (change_txn env role store) ≡ lookup key store)
unfolding change_txn put_role committed query_role decoded as_param_error
change_txn-query_role env role store text m um nb g c =
    let key = role_key env.prefix_role role.name in
    let written : change_txn env role store ≡ insert key text store = ground arith in
    let found : lookup key (insert key text store) ≡ some text =
      lookup-insert key key text store
      ∙ ap (λ b. if b then some text else lookup key store) (eq_refl key) in
    (
      ground arith,
      λ other n. let at = lookup-insert key other text store in ground (arith, eq_iff key other, n),
    )

-- ChangeRolePrivilege with the operator Grant gives the role each privilege it names, and with Revoke
-- takes away each resource it names; the others stay as the stored role had them, and so do all where
-- the operator is neither. The role that it answers with is what a query finds afterwards under its name, and no
-- other key of the store changes. Conditions: the privileges asked for are a map, the call and its commit
-- succeeded, the changed role is written as a text that reads back as it, and its name is not one of a role built
-- in.
pub change_role_privilege-renewed :
    (env : Env) (role new : Role) (store store' : Store) (text : String)
    → IsMap role.privileges
    → env.marshal new ≡ ok text
    → env.unmarshal text (blank_role new.name) ≡ ok new
    → lookup new.name role_map ≡ none
    → env.commit ≡ ok tt
    → change_role_privilege env role store ≡ (ok new, store')
    → (old : Role) × (decoded env
          (blank_role "")
          (lookup (role_key env.prefix_role role.name) store)
        ≡ ok old)
      × (new.name ≡ old.name)
      × ((r : String)
          → lookup r new.privileges
            ≡ renewed role.operator (lookup r role.privileges) (lookup r old.privileges))
      × (query_role env new.name store' ≡ ok new)
      × ((key : String)
          → role_key env.prefix_role new.name ≢ key
          → lookup key store' ≡ lookup key store)
unfolding changed_role
change_role_privilege-renewed env role new store store' text m w b nb c h =
    let r = change_role_privilege-ok env role new store store' h in
    let stored : store' ≡ change_txn env new store =
      r.3 ∙ ap (λ x. change_txn env x store) (sym r.2) in
    let reads = old_role_of-ok env role r.0 store r.1 in
    let after = change_txn-query_role env new store text w b nb reads.2 c in
    (
      r.0,
      reads.1,
      ap (λ (x : Role). x.name) r.2,
      λ k.
          ap (λ (x : Role). lookup k x.privileges) r.2
          ∙ lookup-apply_privileges role.operator role.privileges r.0.privileges k m,
      ap (query_role env new.name) stored ∙ after.0,
      λ key n. ap (lookup key) stored ∙ after.1 key n,
    )
