-- ===== src/Examples/Raft.antt =====
-- The theorems on the store of a partition, at an engine that counts its commands.
use vearch.Prelude.{
  ℕ, ◌+◌, [], ◌∷◌, true, false, none, some, Result, ok, err, ErrorEnum, done, and_then,
  if◌then◌else◌, has_num, str_eq, arith, ◌≡◌, refl,
}
use vearch.Prelude.{Distinct}
use vearch.Space.Model.{pa_readonly}
use vearch.Space.Placement.{count_of}
use vearch.Index.Change.{SpaceMeta}
use vearch.Raft.{
  write, update_space, Env, Store, apply, handle_leader_change, apply_index_change, add_op,
  add_decoded, with_engine, mirror_space, saved, follow,
}
use vearch.Raft.Kept.{InSync, applied, leader_changed, here, next, Reach-InSync}
use vearch.Raft.Members.{
  ConfChange, add_node, remove_node, apply_member_change, member_change, add_replica, node_of,
  is_member_after, apply_member_change-members, apply_member_change-back,
}
use vearch.Raft.Replicas.{status_in, replicas_status_change, replicas_status_change-count_of}
use vearch.Raft.Job.{truncate_rounds, CutsSafely, truncate_rounds-CutsSafely}

abbrev small_space : SpaceMeta
small_space = record {
  name = "people";
  version = 4;
  db_id = 1;
  enabled = some true;
  partitions = [];
  partition_num = 1;
  replica_num = 1;
  fields = "";
  indexes = [];
  partition_rule = none;
  space_properties = none;
  partition_name = none;
  operator_type = none;
}

abbrev larger_space : SpaceMeta
larger_space = record small_space { version = 5 }

-- The meta file can be written, or not.
abbrev env_saving : Result (Unit {0}) → Env ℕ
env_saving answer = record {
  write = λ n _. (n + 1, ok tt);
  update_mapping = λ n _. (n + 1, ok tt);
  add_indexes = λ n _. (n + 1, ok tt);
  remove_index = λ n _. (n + 1, ok tt);
  commit = λ n _. (n, ok tt);
  get_space = λ _. larger_space;
  save_meta = λ _. answer;
  decode_command = λ text. ok (if str_eq text "space" then update_space "5" else write text);
  decode_space = λ _. ok larger_space;
  decode_indexes = λ _. ok [];
  copy_space = λ s. ok s;
}

abbrev fresh_store : Store ℕ
fresh_store = record {
  node_id = 3;
  status = pa_readonly;
  replicas = 3 ∷ 4 ∷ [];
  engine = 0;
  space = small_space;
  shared = true;
  meta = small_space;
  sn = 0;
  add_num = 0;
  resource_exhausted = false;
}

abbrev leading : Store ℕ
leading = handle_leader_change 3 fresh_store

Reach-InSync_example : InSync (apply (env_saving (ok tt)) "space" 1 leading).0
Reach-InSync_example =
    Reach-InSync (env_saving (ok tt)) (λ s. refl) (λ n. refl) {s = fresh_store}
      {t = (apply (env_saving (ok tt)) "space" 1 leading).0}
      (next (next here (leader_changed 3 fresh_store)) (applied "space" 1 leading)) refl

-- Store and engine share the space: where it cannot be written after an addition, the store answers with another space
-- than the meta file holds.
shared_addition :
    ((apply_index_change (env_saving (err ErrorEnum.plain)) (some (add_op "i")) fresh_store).0.space
      ≡ larger_space)
    × ((apply_index_change
          (env_saving (err ErrorEnum.plain))
          (some (add_op "i"))
          fresh_store).0.meta
        ≡ small_space)
unfolding apply_index_change add_decoded with_engine mirror_space saved follow
shared_addition = (refl, refl)

abbrev joins : ConfChange
joins = record { type = add_node; peer = 5; context = some 5 }

abbrev joined : Store ℕ
joined = record fresh_store { replicas = 3 ∷ 4 ∷ 5 ∷ [] }

joined_done : apply_member_change joins fresh_store ≡ done joined
unfolding apply_member_change member_change add_replica node_of
joined_done = refl

apply_member_change-members_example :
    Distinct joined.replicas
    × ((k : ℕ)
        → has_num k joined.replicas ≡ is_member_after joins.type joins.peer k fresh_store.replicas)
apply_member_change-members_example =
    apply_member_change-members joins fresh_store joined refl (refl, (refl, tt)) joined_done

apply_member_change-back_example :
    and_then
      (apply_member_change joins fresh_store)
      (apply_member_change (record { type = remove_node; peer = 5; context = some 5 }))
    ≡ done fresh_store
apply_member_change-back_example = apply_member_change-back 5 fresh_store refl

replicas_status_change-count_of_example :
    count_of 4 (replicas_status_change 3 100 10 ((3, 100) ∷ (4, 50) ∷ []) []).0
    ≡ status_in 3 100 10 ((3, 100) ∷ (4, 50) ∷ []) 4 none
replicas_status_change-count_of_example =
    replicas_status_change-count_of 3 100 10 ((3, 100) ∷ (4, 50) ∷ []) [] 4 (refl, (refl, tt))

truncate_rounds-CutsSafely_example :
    CutsSafely 10
      ((ok 50, 0) ∷ (err ErrorEnum.plain, 0) ∷ (ok 70, 0) ∷ [])
      5
      (truncate_rounds 10 ((ok 50, 0) ∷ (err ErrorEnum.plain, 0) ∷ (ok 70, 0) ∷ []) 5)
truncate_rounds-CutsSafely_example =
    truncate_rounds-CutsSafely 10 ((ok 50, 0) ∷ (err ErrorEnum.plain, 0) ∷ (ok 70, 0) ∷ []) 5
      (omega arith) (omega arith) (omega arith, (omega arith, tt))
