-- ===== src/Index/Change/Add.antt =====
-- AddIndexes of internal/master/services/space_service.go as a whole: what it stores, and what it leaves
-- after a failure.
use vearch.Prelude.{
  ℕ, ◌+◌, ◌%◌, ◌^◌, ◌≤◌, String, List, ◌++◌, true, false, Bool-cases, inl, inr, Option, some,
  Result, ok, err, ErrorEnum, ◌>>◌, fail_if, bind-ok, >>-iff, Outcome, done, failed, panic,
  out_of_fuel, if◌then◌else◌, has_num, ◌==◌, length, ◌≡◌, refl, sym, ap, ◌∙◌,
}
use mathlib.Core.Path.{subst}
use vearch.Prelude.{Distinct}
use vearch.Index.{Index}
use vearch.Index.Change.{
  SpaceMeta, IndexChange, Env, Cluster, load_locked_space, prepare_add,
  notify_partitions_index_change, compensate_add, land_late, settle, add_to, add_loaded,
  add_indexes, to_store,
}
use vearch.Index.Change.Fanout.{
  ids, Touched, Applied, notify_partitions_index_change-Touched,
  notify_partitions_index_change-Applied, removes, compensate_add_lem, land_late-none,
}
use vearch.Index.Change.Prepared.{IsPrepared, prepare_add-IsPrepared}

-- The answer of a write, taken apart
pub settle-done {ℓ} :
    {Engine : Type ℓ} (cluster after : Cluster Engine) (space : SpaceMeta) (engines : ℕ → Engine)
    (compensate : (ℕ → Engine) → ℕ → Engine) (answer : Result (Unit {0})) {space' : SpaceMeta}
    → settle cluster space engines compensate answer ≡ (after, done space')
    → (answer ≡ ok tt)
      × (space ≡ space')
      × (after ≡ record { stored = some space; engines = engines })
unfolding settle
settle-done cluster after space engines compensate (err e) h = absurd (cc)
settle-done cluster after space engines compensate (ok _) h = (refl, cc, cc)

settle-failed {ℓ} :
    {Engine : Type ℓ} (cluster after : Cluster Engine) (space : SpaceMeta) (engines : ℕ → Engine)
    (compensate : (ℕ → Engine) → ℕ → Engine) (answer : Result (Unit {0})) {code : ErrorEnum}
    → settle cluster space engines compensate answer ≡ (after, failed code)
    → after ≡ record cluster { engines = compensate engines }
unfolding settle
settle-failed cluster after space engines compensate (err e) h = cc
settle-failed cluster after space engines compensate (ok _) h = absurd (cc)

module _ {ℓ} {Engine : Type ℓ} (apply_change : IndexChange → Engine → Engine) where
  -- A call that is done has loaded the space and made all checks.
  add_loaded-done :
      (env : Env) (entries : List (Option Index)) (cluster after : Cluster Engine)
      (loaded : Result SpaceMeta) {space' : SpaceMeta}
      → add_loaded apply_change env entries cluster loaded ≡ (after, done space')
      → (space : SpaceMeta) × (loaded ≡ ok space)
        × (add_to apply_change env space cluster (prepare_add env space entries)
            ≡ (after, done space'))
  unfolding add_loaded
  add_loaded-done env entries cluster after (err e) h = absurd (cc)
  add_loaded-done env entries cluster after (ok space) h = (space, refl, h)

  add_to-done :
      (env : Env) (space : SpaceMeta) (cluster after : Cluster Engine)
      (prepared : Outcome (List Index × IndexChange)) {space' : SpaceMeta}
      → add_to apply_change env space cluster prepared ≡ (after, done space')
      → (new : List Index × IndexChange) × (prepared ≡ done new)
        × ((notify_partitions_index_change apply_change env 0 new.1 space.partitions
              cluster.engines).1
            ≡ ok tt)
        × (to_store (record space { indexes = space.indexes ++ new.0 }) ≡ space')
        × (after.stored ≡ some space')
        × (after.engines
            ≡ (notify_partitions_index_change apply_change env 0 new.1 space.partitions
                cluster.engines).0)
  unfolding add_to
  add_to-done env space cluster after (failed e) h = absurd (cc)
  add_to-done env space cluster after panic h = absurd (cc)
  add_to-done env space cluster after out_of_fuel h = absurd (cc)
  add_to-done env space cluster after (done (new_indexes, change)) h =
      let space' = to_store (record space { indexes = space.indexes ++ new_indexes }) in
      let notified =
        notify_partitions_index_change apply_change env 0 change space.partitions cluster.engines in
      let s =
        settle-done cluster after space' notified.0
          (λ engines.
            land_late apply_change env 0 change space.partitions notified.1
              (compensate_add apply_change env 1 new_indexes space.partitions engines))
          (notified.1 >> env.put space') h in
      (
        (new_indexes, change),
        refl,
        ((>>-iff notified.1 (env.put space')).0 s.0).0,
        s.1,
        ap (λ (c : Cluster Engine). c.stored) s.2 ∙ ap some s.1,
        ap (λ (c : Cluster Engine). c.engines) s.2,
      )

  -- After an AddIndexes that succeeds the store holds the loaded space with the new indexes, those of the
  -- request, behind the old ones: all of them are valid for the fields of the space and their names are
  -- different, and if no field had two indexes of its own and no list of fields two composite ones, that is
  -- still so. The version is the next one. The engine of every partition has applied the addition once and no other
  -- engine has changed. Conditions: a partition that answers without an error has applied the change, and
  -- the partitions of the space have different numbers.
  pub add_indexes-done :
      (env : Env)
      → ((round : ℕ) (addr : String) (id : ℕ) (change : IndexChange)
          → (env.index_change round addr id change).1 ≡ ok tt
          → (env.index_change round addr id change).0 ≡ true)
      → (db_name : String) (entries : List (Option Index)) (cluster after : Cluster Engine)
        (space space' : SpaceMeta)
      → load_locked_space env db_name cluster.stored ≡ ok space
      → Distinct (ids space.partitions)
      → add_indexes apply_change env db_name entries cluster ≡ (after, done space')
      → (after.stored ≡ some space')
        × (space'.version ≡ (space.version + 1) % 2 ^ 64)
        × ((new : List Index) × (change : IndexChange) × (space'.indexes ≡ space.indexes ++ new)
            × IsPrepared env space entries new change
            × Applied apply_change change (ids space.partitions) cluster.engines after.engines)
  unfolding add_indexes to_store
  add_indexes-done env sound db_name entries cluster after space space' l d h =
      let first = fail_if (length entries == 0) ErrorEnum.param_error in
      let a =
        add_loaded-done env entries cluster after
          (first >> load_locked_space env db_name cluster.stored) h in
      let loaded = (bind-ok first (λ _. load_locked_space env db_name cluster.stored) a.1).2 in
      let same : a.0 ≡ space = let q = sym loaded ∙ l in cc in
      let moved =
        subst
          (λ s.
            add_to apply_change env s cluster (prepare_add env s entries) ≡ (after, done space'))
          same a.2 in
      let b = add_to-done env space cluster after (prepare_add env space entries) moved in
      (
        b.4,
        ap (λ (s : SpaceMeta). s.version) (sym b.3),
        (
          b.0.0,
          b.0.1,
          ap (λ (s : SpaceMeta). s.indexes) (sym b.3),
          prepare_add-IsPrepared env space entries b.1,
          (λ k.
              ap (λ (e : ℕ → Engine). e k) b.5
              ∙ notify_partitions_index_change-Applied apply_change env sound 0 b.0.1
                  space.partitions cluster.engines d b.2 k),
        ),
      )

  add_to-failed :
      (env : Env) (space : SpaceMeta) (cluster after : Cluster Engine) (new : List Index)
      (change : IndexChange) {code : ErrorEnum}
      → add_to apply_change env space cluster (done (new, change)) ≡ (after, failed code)
      → after ≡ record cluster {
        engines =
            (let notified =
                notify_partitions_index_change apply_change env 0 change space.partitions
                  cluster.engines in
              land_late apply_change env 0 change space.partitions notified.1
                (compensate_add apply_change env 1 new space.partitions notified.0));
      }
  unfolding add_to
  add_to-failed env space cluster after new change h =
      let space' = to_store (record space { indexes = space.indexes ++ new }) in
      let notified =
        notify_partitions_index_change apply_change env 0 change space.partitions cluster.engines in
      settle-failed cluster after space' notified.0
        (λ engines.
          land_late apply_change env 0 change space.partitions notified.1
            (compensate_add apply_change env 1 new space.partitions engines))
        (notified.1 >> env.put space') h

  -- What the removals make of an engine that may have applied the addition
  undone :
      (new : List Index) (change : IndexChange) (among : List ℕ) (old now : ℕ → Engine) (k : ℕ)
      → Touched apply_change change among old now
      → removes apply_change new (old k) ≡ old k
      → removes apply_change new (apply_change change (old k)) ≡ old k
      → (if has_num k among then removes apply_change new (now k) else now k) ≡ old k
  undone new change among old now k t missing applied = elim (t k) [
    | inl same ↦ elim (Bool-cases (has_num k among)) [
      | inl e ↦ rw (e) (ap (removes apply_change new) same ∙ missing)
      | inr e ↦ rw (e) same
    ]
    | inr (at, new_at) ↦ rw (at) (ap (removes apply_change new) new_at ∙ applied)
  ]

  -- An AddIndexes that fails after the checks, because a partition has failed or the write has, leaves the
  -- store and the engine of every partition as they were, also where only some partitions had applied
  -- the addition. Conditions: no call of the addition is still under way when the first error returns, a
  -- partition that answers without an error has applied the change, the partitions have different numbers, every partition answers in the rounds after the first, and for the engine the removals of the new
  -- indexes undo their addition and change nothing where they are missing.
  pub add_indexes-failed :
      (env : Env)
      → ((round : ℕ) (addr : String) (id : ℕ) (change : IndexChange)
          → (env.index_change round addr id change).1 ≡ ok tt
          → (env.index_change round addr id change).0 ≡ true)
      → ((k : ℕ) → env.is_late 0 k ≡ false)
      → (db_name : String) (entries : List (Option Index)) (cluster after : Cluster Engine)
        (space : SpaceMeta) (new : List Index) (change : IndexChange) (code : ErrorEnum)
      → load_locked_space env db_name cluster.stored ≡ ok space
      → prepare_add env space entries ≡ done (new, change)
      → Distinct (ids space.partitions)
      → ((r : ℕ) (later : IndexChange) (now : ℕ → Engine)
          → 1 ≤ r
          → (notify_partitions_index_change apply_change env r later space.partitions now).1
            ≡ ok tt)
      → ((k : ℕ) → removes apply_change new (cluster.engines k) ≡ cluster.engines k)
      → ((k : ℕ)
          → removes apply_change new (apply_change change (cluster.engines k)) ≡ cluster.engines k)
      → add_indexes apply_change env db_name entries cluster ≡ (after, failed code)
      → (after.stored ≡ cluster.stored) × ((k : ℕ) → after.engines k ≡ cluster.engines k)
  unfolding add_indexes add_loaded
  add_indexes-failed env sound prompt db_name entries cluster after space new change code l p d
        answers missing applied h =
      let notified =
        notify_partitions_index_change apply_change env 0 change space.partitions cluster.engines in
      let now = notified.0 in
      let touched =
        notify_partitions_index_change-Touched apply_change env 0 change space.partitions
          cluster.engines d in
      elim (Bool-cases (length entries == 0)) [
        | inl e ↦
            let same : cluster ≡ after =
              ap (λ (r : Cluster Engine × Outcome SpaceMeta). r.0) (rw e at h) in
            (
              ap (λ (c : Cluster Engine). c.stored) (sym same),
              λ k. ap (λ (c : Cluster Engine). c.engines k) (sym same),
            )
        | inr e ↦
            let moved : add_to apply_change env space cluster (done (new, change))
                ≡ (after, failed code) =
              rw (e, l, p) at h in
            let same = add_to-failed env space cluster after new change moved in
            (
              ap (λ (c : Cluster Engine). c.stored) same,
              λ k.
                  ap (λ (c : Cluster Engine). c.engines k) same
                  ∙ land_late-none apply_change env 0 change space.partitions notified.1
                      (compensate_add apply_change env 1 new space.partitions now) k (prompt k)
                  ∙ compensate_add_lem apply_change env sound 1 new space.partitions now d answers k
                  ∙ undone new change (ids space.partitions) cluster.engines now k touched
                      (missing k) (applied k),
            )
      ]
