-- ===== src/Raft/Kept.antt =====
-- The space of the store and the one in the partition's meta file, over all that raft and the clients make a
-- store of internal/ps/storage/raftstore do.
use vearch.Prelude.{
  ℕ, ◌+◌, ◌%◌, ◌^◌, String, List, Bool, true, false, Option, none, some, Result, ok, err, ErrorEnum,
  if◌then◌else◌, lt64, ◌≡◌, refl,
}
use vearch.Index.{Index}
use vearch.Index.Change.{SpaceMeta}
use vearch.Raft.{
  ChangeOp, RaftCommand, write, update_space, index_change, flush, unknown_type, add_op, remove_op,
  unknown_op, Env, Store, with_engine, save_schema, update_schema_by_space, set_copy, saved,
  mirror_space, add_decoded, apply_index_change, run_command, inner_apply, apply_decoded, apply,
  handle_leader_change, close_with, count_docs, counted_write, may_submit, check_writable,
}

module _ {ℓ} {Engine : Type ℓ} where
  -- What a restart would load is what the store answers with.
  abbrev pub InSync : Store Engine → Type 0
  InSync store = store.space ≡ store.meta

  -- One thing that happens to a store
  pub data Step (env : Env Engine) : Store Engine → Store Engine → Type ℓ where
    applied :
        (entry : String) (index : ℕ) (s : Store Engine) → Step env s (apply env entry index s).0
    leader_changed : (leader : ℕ) (s : Store Engine) → Step env s (handle_leader_change leader s)
    closed : (answer : Result (Unit {0})) (s : Store Engine) → Step env s (close_with answer s).0
    checked :
        (is_bulk : Bool) (docs : ℕ) (check : Bool × Result (Unit {0})) (s : Store Engine)
        → Step env s (may_submit is_bulk docs check s).0

  pub data Reach (env : Env Engine) (s : Store Engine) : Store Engine → Type ℓ where
    here : Reach env s s
    next : {t u : Store Engine} → Reach env s t → Step env t u → Reach env s u

  close_with-InSync :
      (answer : Result (Unit {0})) (s : Store Engine) → InSync s → InSync (close_with answer s).0
  unfolding close_with
  close_with-InSync (err e) s i = i
  close_with-InSync (ok _) s i = i

  if-InSync :
      (b : Bool) (x y : Store Engine × Result (Unit {0}))
      → InSync x.0
      → InSync y.0
      → InSync (if b then x else y).0
  if-InSync true x y i j = i
  if-InSync false x y i j = j

  count_docs-InSync :
      (is_bulk : Bool) (docs : ℕ) (check : Bool × Result (Unit {0})) (s : Store Engine)
      → InSync s
      → InSync (count_docs is_bulk docs check s).0
  unfolding count_docs
  count_docs-InSync false docs check s i = i
  count_docs-InSync true docs check s i =
      let added = (s.add_num + docs) % 2 ^ 64 in
      let short : Store Engine × Result (Unit {0}) = (record s { add_num = added }, ok tt) in
      let full : Store Engine × Result (Unit {0}) = (
        record s { add_num = 0; resource_exhausted = check.0 },
        (if check.0 then check.1 else ok tt),
      ) in
      if-InSync s.resource_exhausted (s, err ErrorEnum.partition_resource_exhausted)
        (if lt64 added 50000 then short else full) i (if-InSync (lt64 added 50000) short full i i)

  counted_write-InSync :
      (answer : Result (Unit {0})) (is_bulk : Bool) (docs : ℕ) (check : Bool × Result (Unit {0}))
      (s : Store Engine)
      → InSync s
      → InSync (counted_write answer is_bulk docs check s).0
  unfolding counted_write
  counted_write-InSync (err e) is_bulk docs check s i = i
  counted_write-InSync (ok _) is_bulk docs check s i = count_docs-InSync is_bulk docs check s i

  may_submit-InSync :
      (is_bulk : Bool) (docs : ℕ) (check : Bool × Result (Unit {0})) (s : Store Engine)
      → InSync s
      → InSync (may_submit is_bulk docs check s).0
  unfolding may_submit
  may_submit-InSync is_bulk docs check s i =
      counted_write-InSync (check_writable s.status) is_bulk docs check s i

  module _ (env : Env Engine) (copies : (s : SpaceMeta) → env.copy_space s ≡ ok s)
      (writes : (engine : Engine) → env.save_meta (env.get_space engine) ≡ ok tt) where
    with_engine-InSync :
        (store : Store Engine) (answer : Engine × Result (Unit {0}))
        (later : Store Engine → Store Engine × Result (Unit {0}))
        → ((s : Store Engine) → InSync s → InSync (later s).0)
        → InSync store
        → InSync (with_engine store answer later).0
    unfolding with_engine
    with_engine-InSync store (engine, err e) later keep i = i
    with_engine-InSync store (engine, ok _) later keep i = keep (record store { engine = engine }) i

    save_schema-InSync :
        (space : SpaceMeta) (answer : Result (Unit {0})) (store : Store Engine)
        → InSync store
        → InSync (save_schema space answer store).0
    unfolding save_schema
    save_schema-InSync space (err e) store i = i
    save_schema-InSync space (ok _) store i = refl

    mirror_space-InSync : (store : Store Engine) → InSync store → InSync (mirror_space env store).0
    unfolding mirror_space saved set_copy
    mirror_space-InSync store i = rw (writes store.engine, copies (env.get_space store.engine)) refl

    add_decoded-InSync :
        (indexes : Result (List Index)) (store : Store Engine)
        → InSync store
        → InSync (add_decoded env indexes store).0
    unfolding add_decoded
    add_decoded-InSync (err e) store i = i
    add_decoded-InSync (ok indexes) store i =
        with_engine-InSync store (env.add_indexes store.engine indexes) (mirror_space env)
          mirror_space-InSync i

    apply_index_change-InSync :
        (op : Option ChangeOp) (store : Store Engine)
        → InSync store
        → InSync (apply_index_change env op store).0
    unfolding apply_index_change
    apply_index_change-InSync none store i = i
    apply_index_change-InSync (some (add_op text)) store i =
        add_decoded-InSync (env.decode_indexes text) store i
    apply_index_change-InSync (some (remove_op name)) store i =
        with_engine-InSync store (env.remove_index store.engine name) (mirror_space env)
          mirror_space-InSync i
    apply_index_change-InSync (some unknown_op) store i = i

    update_schema_by_space-InSync :
        (decoded : Result SpaceMeta) (store : Store Engine)
        → InSync store
        → InSync (update_schema_by_space env decoded store).0
    unfolding update_schema_by_space
    update_schema_by_space-InSync (err e) store i = i
    update_schema_by_space-InSync (ok space) store i =
        with_engine-InSync store (env.update_mapping store.engine space)
          (save_schema space (env.save_meta space)) (save_schema-InSync space (env.save_meta space))
          i

    run_command-InSync :
        (index : ℕ) (command : RaftCommand) (store : Store Engine)
        → InSync store
        → InSync (run_command env index command store).0
    unfolding run_command
    run_command-InSync index (write text) store i =
        with_engine-InSync store (env.write store.engine text) (λ s. (s, ok tt)) (λ s k. k) i
    run_command-InSync index (update_space text) store i =
        update_schema_by_space-InSync (env.decode_space text) store i
    run_command-InSync index (index_change op) store i = apply_index_change-InSync op store i
    run_command-InSync index flush store i =
        with_engine-InSync store (env.commit store.engine index) (λ s. (s, ok tt)) (λ s k. k) i
    run_command-InSync index unknown_type store i = i

    apply_decoded-InSync :
        (index : ℕ) (command : Result RaftCommand) (store : Store Engine)
        → InSync store
        → InSync (apply_decoded env index command store).0
    unfolding apply_decoded inner_apply
    apply_decoded-InSync index (err e) store i = i
    apply_decoded-InSync index (ok command) store i = run_command-InSync index command store i

    Step-InSync : {s t : Store Engine} → Step env s t → InSync s → InSync t
    unfolding apply handle_leader_change
    Step-InSync (applied entry index s) i =
        apply_decoded-InSync index (env.decode_command entry) s i
    Step-InSync (leader_changed leader s) i = i
    Step-InSync (closed answer s) i = close_with-InSync answer s i
    Step-InSync (checked is_bulk docs check s) i = may_submit-InSync is_bulk docs check s i

    -- Over the entries of the log that a store applies, with whatever answers of the engine, and the changes of the
    -- leader, closings and checks of writes in between, the space that the store answers with is the one in the
    -- partition's meta file, if it was so at the start. An update of the space whose meta file cannot be written leaves
    -- both as they were. Conditions: a space that is encoded is decoded to the same, and the space of the engine
    -- can be written after a change of an index, which changes the space of the store itself while both share it.
    pub Reach-InSync : {s t : Store Engine} → Reach env s t → InSync s → InSync t
    Reach-InSync here i = i
    Reach-InSync (next r step) i = Step-InSync step (Reach-InSync r i)
