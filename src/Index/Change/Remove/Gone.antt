-- ===== src/Index/Change/Remove/Gone.antt =====
-- What RemoveIndex of internal/master/services/space_service.go leaves.
use vearch.Prelude.{
  ℕ, String, List, true, false, ◌&&◌, not, Bool-cases, inl, inr, Option, none, some, Result, ok,
  err, ErrorEnum, ◌>>◌, fail_if, bind-ok, >>-iff, done, str_eq, eq_iff, All, arith, ◌≡◌, ◌≢◌, refl,
  sym, ap, ◌∙◌,
}
use mathlib.Core.Path.{subst}
use vearch.Prelude.{Distinct}
use vearch.Index.{Index, is_composite}
use vearch.Index.Fields.{Field}
use vearch.Index.Change.{
  SpaceMeta, IndexChange, remove_index, Env, Cluster, load_locked_space,
  notify_partitions_index_change, land_late, to_store,
}
use vearch.Index.Change.Fanout.{ids, Applied, notify_partitions_index_change-Applied}
use vearch.Index.Change.Add.{settle-done}
use vearch.Index.Change.Remove.{
  is_inline_of, clear_inline, clear_field_inline_index, take_out, without_index, compensate_remove,
  remove_from, remove_loaded, remove_index_of,
}
use vearch.Index.Change.Remove.Taken.{
  IsTakenOut, take_out-IsTakenOut, clear_inline-none, clear_field_inline_index-decode,
}

module _ {ℓ} {Engine : Type ℓ} (apply_change : IndexChange → Engine → Engine) where
  remove_loaded-done :
      (env : Env) (name : String) (cluster after : Cluster Engine) (loaded : Result SpaceMeta)
      {space' : SpaceMeta}
      → remove_loaded apply_change env name cluster loaded ≡ (after, done space')
      → (space : SpaceMeta) × (loaded ≡ ok space)
        × (remove_from apply_change env name space cluster (take_out name space.indexes)
            ≡ (after, done space'))
  unfolding remove_loaded
  remove_loaded-done env name cluster after (err e) h = absurd (cc)
  remove_loaded-done env name cluster after (ok space) h = (space, refl, h)

  remove_from-done :
      (env : Env) (name : String) (space : SpaceMeta) (cluster after : Cluster Engine)
      (found : Option (Index × List Index)) {space' : SpaceMeta}
      → remove_from apply_change env name space cluster found ≡ (after, done space')
      → (parts : Index × List Index) × (found ≡ some parts)
        × ((notify_partitions_index_change apply_change env 0
              (remove_index name)
              space.partitions
              cluster.engines).1
            ≡ ok tt)
        × (to_store (without_index env space parts.0 parts.1) ≡ space')
        × (after.stored ≡ some space')
        × (after.engines
            ≡ (notify_partitions_index_change apply_change env 0
                (remove_index name)
                space.partitions
                cluster.engines).0)
  unfolding remove_from
  remove_from-done env name space cluster after none h = absurd (cc)
  remove_from-done env name space cluster after (some (removed, remaining)) h =
      let space' = to_store (without_index env space removed remaining) in
      let notified =
        notify_partitions_index_change apply_change env 0 (remove_index name) space.partitions
          cluster.engines in
      let s =
        settle-done cluster after space' notified.0
          (λ engines.
            land_late apply_change env 0 (remove_index name) space.partitions notified.1
              (compensate_remove apply_change env space removed engines))
          (notified.1 >> env.put space') h in
      (
        (removed, remaining),
        refl,
        ((>>-iff notified.1 (env.put space')).0 s.0).0,
        s.1,
        ap (λ (c : Cluster Engine). c.stored) s.2 ∙ ap some s.1,
        ap (λ (c : Cluster Engine). c.engines) s.2,
      )

  remove_index_of-from :
      (env : Env) (db_name name : String) (cluster after : Cluster Engine)
      (space space' : SpaceMeta)
      → load_locked_space env db_name cluster.stored ≡ ok space
      → remove_index_of apply_change env db_name name cluster ≡ (after, done space')
      → remove_from apply_change env name space cluster (take_out name space.indexes)
        ≡ (after, done space')
  unfolding remove_index_of
  remove_index_of-from env db_name name cluster after space space' l h =
      let first = fail_if (str_eq name "") ErrorEnum.param_error in
      let a =
        remove_loaded-done env name cluster after
          (first >> load_locked_space env db_name cluster.stored) h in
      let loaded = (bind-ok first (λ _. load_locked_space env db_name cluster.stored) a.1).2 in
      let same : a.0 ≡ space = let q = sym loaded ∙ l in cc in
      subst
        (λ s.
          remove_from apply_change env name s cluster (take_out name s.indexes)
          ≡ (after, done space'))
        same a.2

  without_index-indexes :
      (env : Env) (space : SpaceMeta) (removed : Index) (remaining : List Index)
      → (to_store (without_index env space removed remaining)).indexes ≡ remaining
  unfolding without_index to_store
  without_index-indexes env space removed remaining =
      elim (Bool-cases (not (is_composite removed) && not (str_eq removed.field_name ""))) [
        | inl e ↦ rw (e) refl
        | inr e ↦ rw (e) refl
      ]

  -- After a RemoveIndex that succeeds the store holds the loaded space without the first index of the name,
  -- the others in their order. The engine of every partition has applied the removal once and no other engine has
  -- changed. Conditions: a partition that answers without an error has applied the change, and the
  -- partitions have different numbers.
  pub remove_index_of-done :
      (env : Env)
      → ((round : ℕ) (addr : String) (id : ℕ) (change : IndexChange)
          → (env.index_change round addr id change).1 ≡ ok tt
          → (env.index_change round addr id change).0 ≡ true)
      → (db_name name : String) (cluster after : Cluster Engine) (space space' : SpaceMeta)
      → load_locked_space env db_name cluster.stored ≡ ok space
      → Distinct (ids space.partitions)
      → remove_index_of apply_change env db_name name cluster ≡ (after, done space')
      → (after.stored ≡ some space')
        × ((removed : Index) × IsTakenOut name space.indexes removed space'.indexes)
        × Applied apply_change
            (remove_index name)
            (ids space.partitions)
            cluster.engines
            after.engines
  remove_index_of-done env sound db_name name cluster after space space' l d h =
      let b =
        remove_from-done env name space cluster after (take_out name space.indexes)
          (remove_index_of-from env db_name name cluster after space space' l h) in
      let out = take_out-IsTakenOut name space.indexes {removed = b.0.0} {remaining = b.0.1} b.1 in
      let kept : b.0.1 ≡ space'.indexes =
        sym (without_index-indexes env space b.0.0 b.0.1) ∙ ap (λ (s : SpaceMeta). s.indexes) b.3 in
      (
        b.4,
        (b.0.0, subst (λ r. IsTakenOut name space.indexes b.0.0 r) kept out),
        (λ k.
            ap (λ (e : ℕ → Engine). e k) b.5
            ∙ notify_partitions_index_change-Applied apply_change env sound 0 (remove_index name)
                space.partitions cluster.engines d b.2 k),
      )

  -- The list that is stored is what is left of the one that was loaded.
  pub remove_index_of-take_out :
      (env : Env) (db_name name : String) (cluster after : Cluster Engine)
      (space space' : SpaceMeta)
      → load_locked_space env db_name cluster.stored ≡ ok space
      → remove_index_of apply_change env db_name name cluster ≡ (after, done space')
      → (removed : Index) × (take_out name space.indexes ≡ some (removed, space'.indexes))
  remove_index_of-take_out env db_name name cluster after space space' l h =
      let b =
        remove_from-done env name space cluster after (take_out name space.indexes)
          (remove_index_of-from env db_name name cluster after space space' l h) in
      let kept : b.0.1 ≡ space'.indexes =
        sym (without_index-indexes env space b.0.0 b.0.1) ∙ ap (λ (s : SpaceMeta). s.indexes) b.3 in
      (b.0.0, subst (λ r. take_out name space.indexes ≡ some (b.0.0, r)) kept b.1)

  without_index-fields :
      (env : Env) (space : SpaceMeta) (removed : Index) (remaining : List Index)
      → is_composite removed ≡ false
      → removed.field_name ≢ ""
      → (to_store (without_index env space removed remaining)).fields
        ≡ clear_field_inline_index env space.fields removed
  unfolding without_index to_store
  without_index-fields env space removed remaining c n =
      let t : str_eq removed.field_name "" ≡ false = ground (arith, eq_iff removed.field_name "") in
      rw (c, t) refl

  -- After a RemoveIndex of an index of one field that succeeds, the declared fields that are stored are those
  -- from before, but none of that field carries an inline index that matches the removed one, so that the
  -- index cannot come back from there. Conditions: the fields decoded before, and the text that the
  -- fields left are encoded to is decoded to them.
  pub remove_index_of-fields :
      (env : Env) (db_name name : String) (cluster after : Cluster Engine)
      (space space' : SpaceMeta) (removed : Index) (remaining : List Index) (parsed : List Field)
      (out : String)
      → load_locked_space env db_name cluster.stored ≡ ok space
      → take_out name space.indexes ≡ some (removed, remaining)
      → is_composite removed ≡ false
      → removed.field_name ≢ ""
      → space.fields ≢ ""
      → env.decode space.fields ≡ ok parsed
      → env.encode (clear_inline removed parsed).0 ≡ ok out
      → env.decode out ≡ ok (clear_inline removed parsed).0
      → remove_index_of apply_change env db_name name cluster ≡ (after, done space')
      → (env.decode space'.fields ≡ ok (clear_inline removed parsed).0)
        × All (λ f. is_inline_of removed f ≡ false) (clear_inline removed parsed).0
  remove_index_of-fields env db_name name cluster after space space' removed remaining parsed out l
        t c n f d written read h =
      let b =
        remove_from-done env name space cluster after (take_out name space.indexes)
          (remove_index_of-from env db_name name cluster after space space' l h) in
      let pair : b.0 ≡ (removed, remaining) = let q = sym b.1 ∙ t in cc in
      let stored : space'.fields ≡ clear_field_inline_index env space.fields removed =
        ap (λ (s : SpaceMeta). s.fields) (sym b.3)
        ∙ ap (λ (p : Index × List Index). (to_store (without_index env space p.0 p.1)).fields) pair
        ∙ without_index-fields env space removed remaining c n in
      (
        ap env.decode stored
            ∙ clear_field_inline_index-decode env space.fields out removed parsed written read f d,
        clear_inline-none removed parsed,
      )
