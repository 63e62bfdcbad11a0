-- ===== src/Index/Change/Remove.antt =====
-- RemoveIndex of internal/master/services/space_service.go: the index goes from the list of the space, and
-- from the field that declares it.
pub mod Gone
pub mod Back
pub mod Taken
use vearch.Prelude.{
  ℕ, zero, suc, ◌+◌, ◌-◌, ◌*◌, ◌/◌, ◌%◌, ◌^◌, ◌≤◌, ◌<◌, String, List, [], ◌∷◌, ◌++◌, map, Bool,
  true, false, ◌&&◌, ◌||◌, not, Bool-cases, inl, inr, ◌⊎◌, ◌↔◌, Option, none, some, Option-cases,
  Result, ok, err, ErrorEnum, ◌>>=◌, ◌>>◌, fail_if, bind-ok, fail_if_iff, >>-iff, Result-cases,
  Outcome, done, failed, panic, out_of_fuel, and_then, lift, lift-done, and_then-done,
  if◌then◌else◌, has_str, has_num, filter_by, str_eq, eq_iff, eq_refl, ltb, leb, ◌==◌, ==_iff,
  get_elem?, get_elem?-lt, length, length-append, take, drop, All, key64, lt64, le64, mul64, sub64,
  add64, arith, ◌≡◌, ◌≢◌, refl, sym, ap, ◌∙◌,
}
use vearch.Prelude.Assoc.{lookup, insert, erase, lookup-insert, lookup-erase}
use mathlib.Core.Path.{subst}
use mathlib.Core.List.{append_assoc, append-nil}
use vearch.Index.{Index, FieldOption, no_option, SpaceProperties, Props, is_composite}
use vearch.Index.Fields.{Field}
use vearch.Index.Change.{
  SpaceMeta, IndexChange, add_index, remove_index, Env, Cluster, load_locked_space,
  notify_partitions_index_change, land_late, settle, to_store,
}

-- `removed` is never nil here.
unfoldable pub inline_index_matches : Option Index → Index → Bool
inline_index_matches none removed = false
inline_index_matches (some inline) removed =
    if not (str_eq inline.name "") && not (str_eq removed.name "")
    then str_eq inline.name removed.name
    else str_eq inline.type removed.type

unfoldable pub is_inline_of : Index → Field → Bool
is_inline_of removed field =
    str_eq field.name removed.field_name && inline_index_matches field.index removed

-- The loop of clearFieldInlineIndex, with `changed`
unfoldable pub clear_inline : Index → List Field → List Field × Bool
clear_inline removed [] = ([], false)
clear_inline removed (field ∷ fields) =
    let rest = clear_inline removed fields in
    if is_inline_of removed field
    then (record field { index = none } ∷ rest.0, true)
    else (field ∷ rest.0, rest.1)

-- The text that stays where it cannot be decoded or encoded
unfoldable pub or_else : Result String → String → String
or_else (ok text) fields = text
or_else (err e) fields = fields

unfoldable pub clear_field_inline_index : Env → String → Index → String
clear_field_inline_index env fields removed =
    if str_eq fields "" then fields else elim (env.decode fields) [
      | err e ↦ fields
      | ok parsed ↦
          let cleared = clear_inline removed parsed in
          if cleared.1 then or_else (env.encode cleared.0) fields else fields
    ]

unfoldable pub clear_property : Option SpaceProperties → Index → Props → Props
clear_property none removed props = props
clear_property (some prop) removed props =
    if inline_index_matches prop.index removed
    then insert removed.field_name (record prop { index = none; option = no_option }) props
    else props

unfoldable pub clear_properties : Option Props → Index → Option Props
clear_properties none removed = none
clear_properties (some props) removed =
    some (clear_property (lookup removed.field_name props) removed props)

-- The loop that looks for the name: the index and the ones that remain
unfoldable pub take_out : String → List Index → Option (Index × List Index)
take_out name [] = none
take_out name (idx ∷ indexes) =
    if str_eq idx.name name then some (idx, indexes) else elim (take_out name indexes) [
      | none ↦ none
      | some (found, rest) ↦ some (found, idx ∷ rest)
    ]

unfoldable pub without_index : Env → SpaceMeta → Index → List Index → SpaceMeta
without_index env space removed remaining =
    if not (is_composite removed) && not (str_eq removed.field_name "")
    then record space {
      indexes = remaining;
      fields = clear_field_inline_index env space.fields removed;
      space_properties = clear_properties space.space_properties removed;
    }
    else record space { indexes = remaining }

module _ {ℓ} {Engine : Type ℓ} (apply_change : IndexChange → Engine → Engine) where
  -- compensateRemove: no round if the index cannot be encoded
  unfoldable pub compensate_remove : Env → SpaceMeta → Index → (ℕ → Engine) → ℕ → Engine
  compensate_remove env space removed engines = elim (env.encode_indexes (removed ∷ [])) [
    | err e ↦ engines
    | ok text ↦
        let change = add_index text in
        let notified =
          notify_partitions_index_change apply_change env 1 change space.partitions engines in
        land_late apply_change env 1 change space.partitions notified.1 notified.0
  ]

  unfoldable pub remove_from :
      Env
      → String
      → SpaceMeta
      → Cluster Engine
      → Option (Index × List Index)
      → Cluster Engine × Outcome SpaceMeta
  unfolding notify_partitions_index_change compensate_remove land_late without_index settle to_store
  remove_from env index_name space cluster none = (cluster, failed ErrorEnum.param_error)
  remove_from env index_name space cluster (some (removed, remaining)) =
      let change = remove_index index_name in
      let notified =
        notify_partitions_index_change apply_change env 0 change space.partitions cluster.engines in
      let space' = to_store (without_index env space removed remaining) in
      settle cluster space' notified.0
        (λ engines.
          land_late apply_change env 0 change space.partitions notified.1
            (compensate_remove env space removed engines))
        (notified.1 >> env.put space')

  unfoldable pub remove_loaded :
      Env → String → Cluster Engine → Result SpaceMeta → Cluster Engine × Outcome SpaceMeta
  unfolding remove_from
  remove_loaded env index_name cluster (err e) = (cluster, failed e)
  remove_loaded env index_name cluster (ok space) =
      remove_from env index_name space cluster (take_out index_name space.indexes)

  unfoldable pub remove_index_of :
      Env → String → String → Cluster Engine → Cluster Engine × Outcome SpaceMeta
  unfolding remove_loaded
  remove_index_of env db_name index_name cluster = remove_loaded env index_name cluster (
      fail_if (str_eq index_name "") ErrorEnum.param_error
      >> load_locked_space env db_name cluster.stored)
