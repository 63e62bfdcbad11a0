-- ===== src/Update/Config.antt =====
-- What handleConfigurationUpdate of internal/master/services/space_service.go keeps of a space.
use vearch.Prelude.{
  ◌⊎◌, ◌+◌, ◌%◌, ◌^◌, ◌<◌, String, List, [], ◌++◌, true, false, ◌||◌, Bool-cases, inl, inr, some,
  ok, ErrorEnum, fail_if, Outcome, done, failed, and_then, lift, lift-done, and_then-done,
  if◌then◌else◌, str_eq, eq_iff, ltb, length, All, arith, ◌≡◌, ◌≢◌, refl, sym, ap, ◌∙◌,
}
use mathlib.Core.Path.{subst}
use vearch.Index.{Index, Props, is_composite, merge_field_indexes}
use vearch.Index.Merged.{merge_field_indexes-single}
use vearch.Index.Change.{SpaceMeta, properties_of_json, to_store}
use vearch.Update.{
  UpdateEnv, UpdateRequest, merge_schema_array, validate_space, changed_indexes, new_indexed,
  detect_index_changes, check_all_compatible, count_new, extend_fields, update_space_fields,
  notify_partitions_config_update, is_changed, or_keep, renamed, update_fields, tell_and_store,
  handle_configuration_update,
}
use vearch.Update.Compatible.{IsCompatible, zero_append, changed_indexes-none, new_indexed-none}

-- What an update of the fields leaves alone
abbrev pub SameRest : SpaceMeta → SpaceMeta → Type 0
SameRest a b =
    (a.version ≡ b.version)
    × (a.db_id ≡ b.db_id)
    × (a.replica_num ≡ b.replica_num)
    × (a.partitions ≡ b.partitions)
    × (a.partition_rule ≡ b.partition_rule)

update_fields-done :
    (env : UpdateEnv) (space : SpaceMeta) (fields : String) (new_props : Props) {out : SpaceMeta}
    → update_fields env space fields new_props ≡ done out
    → (olds : Props) × (properties_of_json env.base space.fields ≡ done olds)
      × (length (changed_indexes olds new_props ++ new_indexed new_props olds) ≡ 0)
      × (update_space_fields env space fields ≡ done out)
unfolding update_fields detect_index_changes
update_fields-done env space fields new_props {out} h =
    let found = λ (olds : Props).
      let r : Outcome (List String) =
        done (changed_indexes olds new_props ++ new_indexed new_props olds) in
      r in
    let go = λ (changes : List String).
      if ltb 0 (length changes)
      then failed ErrorEnum.param_error
      else update_space_fields env space fields in
    let a = and_then-done (and_then (properties_of_json env.base space.fields) found) go h in
    let b = and_then-done (properties_of_json env.base space.fields) found a.1 in
    let same : changed_indexes b.0 new_props ++ new_indexed new_props b.0 ≡ a.0 =
      let q = b.2 in cc in
    elim (Bool-cases (ltb 0 (length a.0))) [
      | inl e ↦ absurd (let bad : failed ErrorEnum.param_error ≡ done out = rw e at a.2 in cc)
      | inr e ↦ (b.0, b.1, ap length same ∙ ground arith, rw e at a.2)
    ]

extend_fields-SameRest :
    (env : UpdateEnv) (space : SpaceMeta) (fields : String) {out : SpaceMeta}
    → extend_fields env space fields ≡ done out
    → (props : Props) × (merge_field_indexes (env.visit_properties props) props [] ≡ ok out.indexes)
      × (merge_schema_array env space.fields fields ≡ done out.fields)
      × (properties_of_json env.base out.fields ≡ done props)
      × SameRest out space
unfolding extend_fields
extend_fields-SameRest env space fields {out} h =
    let keep = λ (schema : String) (props : Props) (indexes : List Index).
      let r : Outcome SpaceMeta =
        done (record space { fields = schema; indexes = indexes; space_properties = some props }) in
      r in
    let last = λ (schema : String) (props : Props).
      and_then (lift (merge_field_indexes (env.visit_properties props) props []))
        (keep schema props) in
    let a =
      and_then-done (merge_schema_array env space.fields fields)
        (λ schema. and_then (properties_of_json env.base schema) (last schema)) h in
    let b = and_then-done (properties_of_json env.base a.0) (last a.0) a.2 in
    let merged = merge_field_indexes (env.visit_properties b.0) b.0 [] in
    let c = and_then-done (lift merged) (keep a.0 b.0) b.2 in
    let made : SpaceMeta = record space {
      fields = a.0;
      indexes = c.0;
      space_properties = some b.0;
    } in
    let same : made ≡ out = let q = c.2 in cc in
    (
      b.0,
      lift-done merged c.1 ∙ ap (λ (s : SpaceMeta). ok s.indexes) same,
      a.1 ∙ ap (λ (s : SpaceMeta). done s.fields) same,
      subst (λ (s : SpaceMeta). properties_of_json env.base s.fields ≡ done b.0) same b.1,
      subst (λ (s : SpaceMeta). SameRest s space) same (refl, refl, refl, refl, refl),
    )

update_space_fields-done :
    (env : UpdateEnv) (space : SpaceMeta) (fields : String) (olds news : Props) {out : SpaceMeta}
    → properties_of_json env.base space.fields ≡ done olds
    → properties_of_json env.base fields ≡ done news
    → update_space_fields env space fields ≡ done out
    → (check_all_compatible olds news ≡ ok tt)
      × ((if ltb 0 (count_new news olds) then extend_fields env space fields else done space)
          ≡ done out)
unfolding update_space_fields
update_space_fields-done env space fields olds news {out} o n h =
    let rest = λ (os ns : Props).
      and_then (lift (check_all_compatible os ns))
        λ _. if ltb 0 (count_new ns os) then extend_fields env space fields else done space in
    let moved : rest olds news ≡ done out = rw (o, n) at h in
    let c =
      and_then-done (lift (check_all_compatible olds news))
        (λ _. if ltb 0 (count_new news olds) then extend_fields env space fields else done space)
        moved in
    (lift-done (check_all_compatible olds news) c.1, c.2)

-- The fields of a space, updated: what stays, and what the new fields must be.
update_fields-IsCompatible :
    (env : UpdateEnv) (space : SpaceMeta) (fields : String) (news : Props) {out : SpaceMeta}
    → properties_of_json env.base fields ≡ done news
    → update_fields env space fields news ≡ done out
    → (olds : Props) × (properties_of_json env.base space.fields ≡ done olds)
      × IsCompatible olds news
      × ((if ltb 0 (count_new news olds) then extend_fields env space fields else done space)
          ≡ done out)
update_fields-IsCompatible env space fields news {out} n h =
    let a = update_fields-done env space fields news h in
    let b = update_space_fields-done env space fields a.0 news a.1 n a.3 in
    let parts = zero_append (changed_indexes a.0 news) (new_indexed news a.0) a.2 in
    (a.0, a.1, (changed_indexes-none a.0 news b.0 parts.0, new_indexed-none news a.0 parts.1), b.1)

-- The schema and the indexes of a space after an update of its fields: where a field is new, the schema is the merged
-- one and the indexes are those on its fields; otherwise both are as they were.
abbrev pub FieldsAfter :
    UpdateEnv → String → List Index → String → Props → Props → String → List Index → Type 0
FieldsAfter env old_fields old_indexes fields olds news new_fields new_indexes =
    ((count_new news olds ≡ 0) × (new_fields ≡ old_fields) × (new_indexes ≡ old_indexes))
    ⊎ ((props : Props) × (0 < count_new news olds)
        × (merge_schema_array env old_fields fields ≡ done new_fields)
        × (properties_of_json env.base new_fields ≡ done props)
        × (merge_field_indexes (env.visit_properties props) props [] ≡ ok new_indexes))

tell_and_store-done :
    (env : UpdateEnv) (space : SpaceMeta) {out : SpaceMeta}
    → tell_and_store env space ≡ done out
    → to_store space ≡ out
unfolding tell_and_store
tell_and_store-done env space {out} h =
    let last = λ (u : Unit {0}). let r : Outcome SpaceMeta = done (to_store space) in r in
    let a =
      and_then-done
        (lift (
          notify_partitions_config_update env
            (record space { version = (space.version + 1) % 2 ^ 64 }) space.partitions))
        (λ _. and_then (lift (env.base.put (to_store space))) last) h in
    let b = and_then-done (lift (env.base.put (to_store space))) last a.2 in let q = b.2 in cc

-- What one configuration update is made of, if it is done.
abbrev pub IsUpdated : UpdateEnv → SpaceMeta → UpdateRequest → SpaceMeta → Type 0
IsUpdated env space temp out =
    (placed : SpaceMeta) × (updated : SpaceMeta) × (news : Props) × (placed
      ≡ record (renamed space temp) {
        partitions = or_keep temp.partitions (renamed space temp).partitions;
      })
    × (validate_space env.is_number (renamed space temp) ≡ ok tt)
    × (properties_of_json env.base temp.fields ≡ done news)
    × ((if str_eq temp.fields "" then done placed else update_fields env placed temp.fields news)
        ≡ done updated)
    × (to_store updated ≡ out)

handle_configuration_update-IsUpdated :
    (env : UpdateEnv) (space : SpaceMeta) (temp : UpdateRequest) {out : SpaceMeta}
    → handle_configuration_update env space temp ≡ done out
    → IsUpdated env space temp out
unfolding handle_configuration_update
handle_configuration_update-IsUpdated env space temp {out} h =
    let bad =
      is_changed temp.db_id space.db_id
      || is_changed temp.partition_num space.partition_num
      || is_changed temp.replica_num space.replica_num in
    let named = renamed space temp in
    let placed : SpaceMeta = record named {
      partitions = or_keep temp.partitions named.partitions;
    } in
    let third = λ (news : Props).
      and_then
        (if str_eq temp.fields "" then done placed else update_fields env placed temp.fields news)
        (tell_and_store env) in
    let second = λ (u : Unit {0}). and_then (properties_of_json env.base temp.fields) third in
    let first = λ (u : Unit {0}). and_then (lift (validate_space env.is_number named)) second in
    let a = and_then-done (lift (fail_if bad ErrorEnum.param_error)) first h in
    let b = and_then-done (lift (validate_space env.is_number named)) second a.2 in
    let c = and_then-done (properties_of_json env.base temp.fields) third b.2 in
    let d =
      and_then-done
        (if str_eq temp.fields "" then done placed else update_fields env placed temp.fields c.0)
        (tell_and_store env) c.2 in
    (
      placed,
      d.0,
      c.0,
      refl,
      lift-done (validate_space env.is_number named) b.1,
      c.1,
      d.1,
      tell_and_store-done env d.0 d.2,
    )

renamed-fields :
    (space : SpaceMeta) (temp : UpdateRequest) → (renamed space temp).fields ≡ space.fields
unfolding renamed
renamed-fields space temp = refl

-- A configuration update that adds a field leaves no composite index in the metadata, whichever the space had.
-- Conditions: the request declares fields, at least one of which the space does not have.
pub handle_configuration_update-composites :
    (env : UpdateEnv) (space : SpaceMeta) (temp : UpdateRequest) (out : SpaceMeta)
    (olds news : Props)
    → temp.fields ≢ ""
    → properties_of_json env.base space.fields ≡ done olds
    → properties_of_json env.base temp.fields ≡ done news
    → 0 < count_new news olds
    → handle_configuration_update env space temp ≡ done out
    → All (λ i. is_composite i ≡ false) out.indexes
unfolding to_store
handle_configuration_update-composites env space temp out olds news n o w c h =
    let u = handle_configuration_update-IsUpdated env space temp h in
    let t : str_eq temp.fields "" ≡ false = ground (arith, eq_iff temp.fields "") in
    let updated : update_fields env u.0 temp.fields u.2 ≡ done u.1 = rw t at u.6 in
    let f = update_fields-IsCompatible env u.0 temp.fields u.2 u.5 updated in
    let same_news : u.2 ≡ news = let q = sym u.5 ∙ w in cc in
    let same_olds : f.0 ≡ olds =
      let q =
        sym f.1
        ∙ ap (properties_of_json env.base)
            (ap (λ (s : SpaceMeta). s.fields) u.3 ∙ renamed-fields space temp)
        ∙ o in
      cc in
    let counted : 0 < count_new u.2 f.0 = rw (same_news, same_olds) c in
    let test : ltb 0 (count_new u.2 f.0) ≡ true = ground arith in
    let extended : extend_fields env u.0 temp.fields ≡ done u.1 = rw test at f.3 in
    let e = extend_fields-SameRest env u.0 temp.fields extended in
    subst (λ (s : SpaceMeta). All (λ i. is_composite i ≡ false) s.indexes) u.7
      (merge_field_indexes-single (env.visit_properties e.0) e.0 e.1)
