-- ===== src/Raft/Closed.antt =====
-- When a store of internal/ps/storage/raftstore takes writes and reads, and what its log counts up.
use vearch.Prelude.{
  ℕ, ◌+◌, String, List, [], ◌∷◌, Bool, true, false, Bool-cases, inl, inr, Result, ok, err,
  ErrorEnum, if◌then◌else◌, ◌==◌, length, All, arith, ◌≡◌, refl, ◌∙◌,
}
use vearch.Raft.{
  RaftCommand, Env, Store, inner_apply, apply_decoded, apply, apply_log, handle_leader_change,
  close_with, count_docs, counted_write, may_submit, check_writable, check_readable, not_leader,
}

module _ {ℓ} {Engine : Type ℓ} where
  -- After a change of the leader the store lets a write that is no bulk through and serves reads of the leader if it is
  -- the leader itself, and refuses both with PARTITION_NOT_LEADER otherwise; other reads it serves in any case.
  pub handle_leader_change_lem :
      (leader docs : ℕ) (check : Bool × Result (Unit {0})) (store : Store Engine)
      → ((may_submit false docs check (handle_leader_change leader store)).1
          ≡ (if leader == store.node_id then ok true else err ErrorEnum.partition_not_leader))
        × (check_readable true (handle_leader_change leader store).status
            ≡ (if leader == store.node_id then ok tt else err ErrorEnum.partition_not_leader))
        × (check_readable false (handle_leader_change leader store).status ≡ ok tt)
  unfolding handle_leader_change may_submit counted_write count_docs check_writable check_readable
      not_leader
  handle_leader_change_lem leader docs check store = elim (Bool-cases (leader == store.node_id)) [
    | inl e ↦ rw (e) (refl, refl, refl)
    | inr e ↦ rw (e) (refl, refl, refl)
  ]

  -- A store that is closed refuses every write and every read, of the leader or not, with PARTITION_IS_CLOSED.
  pub close_with-refused :
      (store : Store Engine) (is_bulk read_leader : Bool) (docs : ℕ)
      (check : Bool × Result (Unit {0}))
      → (may_submit is_bulk docs check (close_with (ok tt) store).0
          ≡ ((close_with (ok tt) store).0, err ErrorEnum.partition_is_closed))
        × (check_readable read_leader (close_with (ok tt) store).0.status
            ≡ err ErrorEnum.partition_is_closed)
  unfolding close_with may_submit counted_write check_writable check_readable
  close_with-refused store is_bulk read_leader docs check = (refl, refl)

  -- Every entry decodes.
  abbrev pub Decodes : Env Engine → List String → Type 0
  Decodes env entries =
      All (λ entry. (command : RaftCommand) × (env.decode_command entry ≡ ok command)) entries

  apply-sn :
      (env : Env Engine) (entry : String) (index : ℕ) (store : Store Engine)
      → (command : RaftCommand) × (env.decode_command entry ≡ ok command)
      → (apply env entry index store).0.sn ≡ index
  unfolding apply apply_decoded inner_apply
  apply-sn env entry index store (command, e) = rw (e) refl

  -- After a log of entries that decode, applied from behind an index on, the number that the store goes by is that
  -- of the last entry, whatever the commands have answered.
  pub apply_log-sn :
      (env : Env Engine) (entries : List String) (index : ℕ) (store : Store Engine)
      → Decodes env entries
      → store.sn ≡ index
      → (apply_log env entries index store).sn ≡ index + length entries
  unfolding apply_log
  apply_log-sn env [] index store d s = s ∙ omega arith
  apply_log-sn env (entry ∷ entries) index store d s =
      apply_log-sn env entries (index + 1) (apply env entry (index + 1) store).0 d.1
        (apply-sn env entry (index + 1) store d.0)
      ∙ omega arith
