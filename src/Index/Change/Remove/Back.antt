-- ===== src/Index/Change/Remove/Back.antt =====
-- AddIndexes and then RemoveIndex of internal/master/services/space_service.go.
use vearch.Prelude.{
  ℕ, String, List, [], ◌∷◌, ◌++◌, map, true, false, Option, none, some, ok, err, ErrorEnum, ◌>>=◌,
  ◌>>◌, bind-ok, done, has_str, str_eq, eq_iff, eq_refl, arith, ◌≡◌, refl, sym, ap, ◌∙◌,
}
use mathlib.Core.Path.{subst}
use vearch.Prelude.{Nodup, Distinct}
use vearch.Index.{Index}
use vearch.Index.Change.{
  SpaceMeta, IndexChange, Env, Cluster, load_locked_space, as_read_error, add_indexes,
}
use vearch.Index.Change.New.{index_names}
use vearch.Index.Change.Fanout.{ids}
use vearch.Index.Change.Add.{add_indexes-done}
use vearch.Index.Change.Remove.{take_out, remove_index_of}
use vearch.Index.Change.Remove.Gone.{remove_index_of-take_out}

last-apart :
    (k : String) (idx : Index) (old : List Index)
    → has_str k (index_names (old ++ idx ∷ [])) ≡ false
    → str_eq k idx.name ≡ false
last-apart k idx [] h = ground (arith, eq_iff k idx.name, eq_iff idx.name k)
last-apart k idx (x ∷ old) h = last-apart k idx old (ground arith)

last-fresh :
    (old : List Index) (idx : Index)
    → Nodup (index_names (old ++ idx ∷ []))
    → has_str idx.name (index_names old) ≡ false
last-fresh [] idx d = refl
last-fresh (x ∷ old) idx d =
    let ih = last-fresh old idx d.1 in
    let apart : str_eq x.name idx.name ≡ false = last-apart x.name idx old d.0 in ground arith

-- The last index, if no other has its name, is taken out and the others remain.
take_out-last :
    (old : List Index) (idx : Index)
    → has_str idx.name (index_names old) ≡ false
    → take_out idx.name (old ++ idx ∷ []) ≡ some (idx, old)
unfolding take_out
take_out-last [] idx h = rw (eq_refl idx.name) refl
take_out-last (x ∷ old) idx h =
    let apart : str_eq x.name idx.name ≡ false = ground arith in
    rw (apart, take_out-last old idx (ground arith)) refl

only-one : (idx : Index) (new : List Index) → some idx ∷ [] ≡ map some new → new ≡ idx ∷ []
only-one idx [] h = absurd (cc)
only-one idx (x ∷ []) h = cc
only-one idx (x ∷ y ∷ new) h = absurd (cc)

-- The calls before the space answer as they did.
load-again :
    (env : Env) (db_name : String) (stored : Option SpaceMeta) (space space' : SpaceMeta)
    → load_locked_space env db_name stored ≡ ok space
    → load_locked_space env db_name (some space') ≡ ok space'
unfolding load_locked_space
load-again env db_name stored space space' l =
    let a =
      bind-ok env.lock
        (λ _. as_read_error (env.db_id db_name) >>= λ id.
          as_read_error env.get
          >> elim stored [ none ↦ err ErrorEnum.space_not_exist | some s ↦ ok s ])
        l in
    let b =
      bind-ok (as_read_error (env.db_id db_name))
        (λ id.
          as_read_error env.get
          >> elim stored [ none ↦ err ErrorEnum.space_not_exist | some s ↦ ok s ])
        a.2 in
    let c =
      bind-ok (as_read_error env.get)
        (λ _. elim stored [ none ↦ err ErrorEnum.space_not_exist | some s ↦ ok s ]) b.2 in
    let lock : env.lock ≡ ok tt = a.1 in
    let get : as_read_error env.get ≡ ok tt = c.1 in rw (lock, b.1, get) refl

module _ {ℓ} {Engine : Type ℓ} (apply_change : IndexChange → Engine → Engine) where
  -- An index that AddIndexes has added and RemoveIndex then has removed by its name leaves the list of the
  -- indexes of the space as it was, in its order. Conditions: both answer without an error, a partition that does
  -- so has applied the change, and the partitions have different numbers.
  pub add_indexes-remove_index_of :
      (env : Env)
      → ((round : ℕ) (addr : String) (id : ℕ) (change : IndexChange)
          → (env.index_change round addr id change).1 ≡ ok tt
          → (env.index_change round addr id change).0 ≡ true)
      → (db_name : String) (idx : Index) (cluster added after : Cluster Engine)
        (space space' space'' : SpaceMeta)
      → load_locked_space env db_name cluster.stored ≡ ok space
      → Distinct (ids space.partitions)
      → add_indexes apply_change env db_name (some idx ∷ []) cluster ≡ (added, done space')
      → remove_index_of apply_change env db_name idx.name added ≡ (after, done space'')
      → space''.indexes ≡ space.indexes
  add_indexes-remove_index_of env sound db_name idx cluster added after space space' space'' l d a
        r =
      let first =
        add_indexes-done apply_change env sound db_name (some idx ∷ []) cluster added space space' l
          d a in
      let new = first.2.0 in
      let one = only-one idx new first.2.3.0 in
      let fresh =
        last-fresh space.indexes idx
          (subst (λ n. Nodup (index_names (space.indexes ++ n))) one first.2.3.2) in
      let listed : space'.indexes ≡ space.indexes ++ idx ∷ [] =
        first.2.2 ∙ ap (λ n. space.indexes ++ n) one in
      let again : load_locked_space env db_name added.stored ≡ ok space' =
        ap (load_locked_space env db_name) first.0
        ∙ load-again env db_name cluster.stored space space' l in
      let out =
        remove_index_of-take_out apply_change env db_name idx.name added after space' space'' again
          r in
      let both : some (out.0, space''.indexes) ≡ some (idx, space.indexes) =
        sym out.1 ∙ ap (take_out idx.name) listed ∙ take_out-last space.indexes idx fresh in
      let pair : (out.0, space''.indexes) ≡ (idx, space.indexes) = cc in
      ap (λ (p : Index × List Index). p.1) pair
