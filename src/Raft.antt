-- ===== src/Raft.antt =====
-- The store of a partition as raft drives it: internal/ps/storage/raftstore. The engine and raft itself are
-- parameters.
pub mod Kept
pub mod Closed
pub mod Members
pub mod Replicas
pub mod Job
use vearch.Prelude.{
  ℕ, zero, suc, ◌+◌, ◌-◌, ◌*◌, ◌/◌, ◌%◌, ◌^◌, ◌≤◌, ◌<◌, String, List, [], ◌∷◌, ◌++◌, map, Bool,
  true, false, ◌&&◌, ◌||◌, not, Bool-cases, inl, inr, ◌⊎◌, ◌↔◌, Option, none, some, Option-cases,
  Result, ok, err, ErrorEnum, ◌>>=◌, ◌>>◌, fail_if, bind-ok, fail_if_iff, >>-iff, Result-cases,
  Outcome, done, failed, panic, out_of_fuel, and_then, lift, lift-done, and_then-done,
  if◌then◌else◌, has_str, has_num, filter_by, str_eq, eq_iff, eq_refl, ltb, leb, ◌==◌, ==_iff,
  get_elem?, get_elem?-lt, length, length-append, take, drop, All, All-append, key64, lt64, le64,
  mul64, sub64, add64, arith, ◌≡◌, ◌≢◌, refl, sym, ap, ◌∙◌,
}
use vearch.Prelude.Assoc.{lookup, insert, erase, lookup-insert, lookup-erase}
use mathlib.Core.Path.{subst}
use mathlib.Core.List.{append_assoc, append-nil}
use vearch.Space.Model.{
  PartitionStatus, pa_unknow, pa_invalid, pa_closed, pa_readonly, pa_readwrite,
}
use vearch.Index.{Index}
use vearch.Index.Change.{SpaceMeta}

-- vearchpb.IndexChange as a replica reads it
pub data ChangeOp : Type 0 where
  add_op : String → ChangeOp
  remove_op : String → ChangeOp
  unknown_op : ChangeOp

-- vearchpb.RaftCommand by its type
pub data RaftCommand : Type 0 where
  write : String → RaftCommand
  update_space : String → RaftCommand
  index_change : Option ChangeOp → RaftCommand
  flush : RaftCommand
  unknown_type : RaftCommand

-- The gamma engine behind its interface, the files of the partition and the codec. A call of the engine answers with
-- the engine as it is then.
pub record Env {ℓ} (Engine : Type ℓ) : Type ℓ where
  pub write : Engine → String → Engine × Result (Unit {0})
  pub update_mapping : Engine → SpaceMeta → Engine × Result (Unit {0})
  pub add_indexes : Engine → List Index → Engine × Result (Unit {0})
  pub remove_index : Engine → String → Engine × Result (Unit {0})
  pub commit : Engine → ℕ → Engine × Result (Unit {0})
  pub get_space : Engine → SpaceMeta
  pub save_meta : SpaceMeta → Result (Unit {0})
  pub decode_command : String → Result RaftCommand
  pub decode_space : String → Result SpaceMeta
  pub decode_indexes : String → Result (List Index)
  pub copy_space : SpaceMeta → Result SpaceMeta  -- json.Marshal and json.Unmarshal

-- raftstore.Store with its StoreBase and Partition; `meta` is the space in the partition's meta file. `shared` says
-- that the store and the engine point to one entity.Space, as they do after the start and after an update of the space.
pub record Store {ℓ} (Engine : Type ℓ) : Type ℓ where
  pub node_id : ℕ  -- uint64
  pub status : PartitionStatus
  pub replicas : List ℕ  -- uint64
  pub engine : Engine
  pub space : SpaceMeta
  pub shared : Bool
  pub meta : SpaceMeta
  pub sn : ℕ  -- int64
  pub add_num : ℕ  -- int64
  pub resource_exhausted : Bool

unfoldable pub check_writable : PartitionStatus → Result (Unit {0})
check_writable pa_invalid = err ErrorEnum.partition_is_invalid
check_writable pa_closed = err ErrorEnum.partition_is_closed
check_writable pa_readonly = err ErrorEnum.partition_not_leader
check_writable pa_readwrite = ok tt
check_writable pa_unknow = err ErrorEnum.internal_error

unfoldable pub not_leader : Bool → Result (Unit {0})
not_leader read_leader = fail_if read_leader ErrorEnum.partition_not_leader

unfoldable pub check_readable : Bool → PartitionStatus → Result (Unit {0})
check_readable read_leader pa_closed = err ErrorEnum.partition_is_closed
check_readable read_leader pa_invalid = err ErrorEnum.partition_is_invalid
check_readable read_leader pa_readwrite = ok tt
check_readable read_leader pa_readonly = not_leader read_leader
check_readable read_leader pa_unknow = not_leader read_leader

module _ {ℓ} {Engine : Type ℓ} where
  -- The engine after a call, and what follows where the call answers without an error
  unfoldable pub with_engine :
      Store Engine
      → Engine × Result (Unit {0})
      → (Store Engine → Store Engine × Result (Unit {0}))
      → Store Engine × Result (Unit {0})
  with_engine store (engine, err e) next = (record store { engine = engine }, err e)
  with_engine store (engine, ok _) next = next (record store { engine = engine })

  -- `return` with the named result, which has no error in it, where the meta file cannot be written: the engine has
  -- the new space by then, the store the old one.
  unfoldable pub save_schema :
      SpaceMeta → Result (Unit {0}) → Store Engine → Store Engine × Result (Unit {0})
  save_schema space (err e) store = (record store { shared = false }, ok tt)
  save_schema space (ok _) store =
      (record store { meta = space; space = space; shared = true }, ok tt)

  unfoldable pub update_schema_by_space :
      Env Engine → Result SpaceMeta → Store Engine → Store Engine × Result (Unit {0})
  unfolding save_schema with_engine
  update_schema_by_space env (err e) store = (store, err e)
  update_schema_by_space env (ok space) store =
      with_engine store (env.update_mapping store.engine space)
        (save_schema space (env.save_meta space))

  unfoldable pub set_copy : Result SpaceMeta → Store Engine → Store Engine × Result (Unit {0})
  set_copy (err e) store = (store, err ErrorEnum.plain)
  set_copy (ok space) store = (record store { space = space; shared = false }, ok tt)

  unfoldable pub saved :
      SpaceMeta
      → Result (Unit {0})
      → Result SpaceMeta
      → Store Engine
      → Store Engine × Result (Unit {0})
  unfolding set_copy
  saved space (err e) copy store = (store, err e)
  saved space (ok _) copy store = set_copy copy (record store { meta = space })

  -- AddIndexes and RemoveIndex of the engine change the space that the engine points to, once they cannot fail.
  unfoldable pub follow : Env Engine → Store Engine → Store Engine
  follow env store = record store {
    space = if store.shared then env.get_space store.engine else store.space;
  }

  -- The engine's space goes to the meta file, and a copy of it to the store.
  unfoldable pub mirror_space : Env Engine → Store Engine → Store Engine × Result (Unit {0})
  unfolding saved follow
  mirror_space env store =
      let space = env.get_space store.engine in
      saved space (env.save_meta space) (env.copy_space space) (follow env store)

  unfoldable pub add_decoded :
      Env Engine → Result (List Index) → Store Engine → Store Engine × Result (Unit {0})
  unfolding with_engine mirror_space
  add_decoded env (err e) store = (store, err ErrorEnum.plain)
  add_decoded env (ok indexes) store =
      with_engine store (env.add_indexes store.engine indexes) (mirror_space env)

  unfoldable pub apply_index_change :
      Env Engine → Option ChangeOp → Store Engine → Store Engine × Result (Unit {0})
  unfolding add_decoded with_engine mirror_space
  apply_index_change env none store = (store, err ErrorEnum.plain)
  apply_index_change env (some (add_op text)) store =
      add_decoded env (env.decode_indexes text) store
  apply_index_change env (some (remove_op name)) store =
      with_engine store (env.remove_index store.engine name) (mirror_space env)
  apply_index_change env (some unknown_op) store = (store, err ErrorEnum.plain)

  unfoldable pub run_command :
      Env Engine → ℕ → RaftCommand → Store Engine → Store Engine × Result (Unit {0})
  unfolding with_engine update_schema_by_space apply_index_change
  run_command env index (write text) store =
      with_engine store (env.write store.engine text) (λ s. (s, ok tt))
  run_command env index (update_space text) store =
      update_schema_by_space env (env.decode_space text) store
  run_command env index (index_change op) store = apply_index_change env op store
  run_command env index flush store =
      with_engine store (env.commit store.engine index) (λ s. (s, ok tt))
  run_command env index unknown_type store = (store, err ErrorEnum.plain)

  -- s.Sn is set whatever the command answers.
  unfoldable pub inner_apply :
      Env Engine → ℕ → RaftCommand → Store Engine → Store Engine × Result (Unit {0})
  unfolding run_command
  inner_apply env index command store =
      let ran = run_command env index command store in (record (ran.0) { sn = index }, ran.1)

  -- Apply: the answer of the command stands inside the one for raft, which is an error only if the entry of the log
  -- cannot be decoded.
  unfoldable pub apply_decoded :
      Env Engine → ℕ → Result RaftCommand → Store Engine → Store Engine × Result (Result (Unit {0}))
  unfolding inner_apply
  apply_decoded env index (err e) store = (store, err e)
  apply_decoded env index (ok command) store =
      let ran = inner_apply env index command store in (ran.0, ok ran.1)

  unfoldable pub apply :
      Env Engine → String → ℕ → Store Engine → Store Engine × Result (Result (Unit {0}))
  unfolding apply_decoded
  apply env entry index store = apply_decoded env index (env.decode_command entry) store

  -- The log of raft, from the index after `index` on
  unfoldable pub apply_log : Env Engine → List String → ℕ → Store Engine → Store Engine
  unfolding apply
  apply_log env [] index store = store
  apply_log env (entry ∷ entries) index store =
      apply_log env entries (index + 1) (apply env entry (index + 1) store).0

  unfoldable pub handle_leader_change : ℕ → Store Engine → Store Engine
  handle_leader_change leader store = record store {
    status = if leader == store.node_id then pa_readwrite else pa_readonly;
  }

  -- Close: an error of RemoveRaft ends it.
  unfoldable pub close_with : Result (Unit {0}) → Store Engine → Store Engine × Result (Unit {0})
  close_with (err e) store = (store, err e)
  close_with (ok _) store = (record store { status = pa_closed }, ok tt)

  -- The checks of Write before the entry is submitted: `check` is what entity.CheckResource answers.
  unfoldable pub count_docs :
      Bool → ℕ → Bool × Result (Unit {0}) → Store Engine → Store Engine × Result (Unit {0})
  count_docs false docs check store = (store, ok tt)
  count_docs true docs check store =
      let added = (store.add_num + docs) % 2 ^ 64 in
      if store.resource_exhausted
      then (store, err ErrorEnum.partition_resource_exhausted)
      else if lt64 added 50000
      then (record store { add_num = added }, ok tt)
      else (
        record store { add_num = 0; resource_exhausted = check.0 },
        (if check.0 then check.1 else ok tt),
      )

  unfoldable pub counted_write :
      Result (Unit {0})
      → Bool
      → ℕ
      → Bool × Result (Unit {0})
      → Store Engine
      → Store Engine × Result Bool
  unfolding count_docs
  counted_write (err e) is_bulk docs check store = (store, err e)
  counted_write (ok _) is_bulk docs check store =
      let counted = count_docs is_bulk docs check store in
      (counted.0, counted.1 >>= λ _. ok (not (is_bulk && counted.0.resource_exhausted)))

  -- Write up to the submission: the error, or whether the entry is submitted. What CheckResource answers when the
  -- resources are used up is the answer of the write.
  unfoldable pub may_submit :
      Bool → ℕ → Bool × Result (Unit {0}) → Store Engine → Store Engine × Result Bool
  unfolding counted_write
  may_submit is_bulk docs check store =
      counted_write (check_writable store.status) is_bulk docs check store
