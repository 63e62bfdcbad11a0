-- ===== src/Raft/Replicas.antt =====
-- Which replicas are behind the leader: ReplicasStatusChange of
-- internal/ps/storage/raftstore/raft_state_machine.go.
use vearch.Prelude.{
  ℕ, List, [], ◌∷◌, map, Bool, true, false, ◌||◌, Bool-cases, inl, inr, Option, none, some,
  if◌then◌else◌, has_num, ltb, ◌==◌, ==_iff, sub64, arith, ◌≡◌, refl, sym, ap, ◌∙◌,
}
use mathlib.Core.Path.{subst}
use vearch.Prelude.{Distinct}
use vearch.Space.Placement.{Counts, count_of, put_count}

abbrev pub replicas_ok : ℕ
replicas_ok = 1

abbrev pub replicas_not_ready : ℕ
replicas_not_ready = 2

-- The status of a replica from its commit; the difference is one of uint64.
unfoldable pub status_of : ℕ → ℕ → ℕ → ℕ → ℕ → ℕ
status_of leader_id leader_commit diff node commit =
    if (node == leader_id) || ltb (sub64 leader_commit commit) diff
    then replicas_ok
    else replicas_not_ready

-- One replica: RsStatusMap and whether a status changed
unfoldable pub track : ℕ → ℕ → Option ℕ → Counts × Bool → Counts × Bool
track node current none state = (put_count node current state.0, true)
track node current (some held) state =
    if held == current then state else (put_count node current state.0, true)

-- The loop that deletes what is no replica any more
unfoldable pub prune : List ℕ → Counts → Counts × Bool
prune nodes [] = ([], false)
prune nodes ((node, held) ∷ states) =
    let rest = prune nodes states in
    if has_num node nodes then ((node, held) ∷ rest.0, rest.1) else (rest.0, true)

module _ (leader_id leader_commit diff : ℕ) where
  -- The loop over s.Status().Replicas, the nodes with their commits
  unfoldable pub track_all : List (ℕ × ℕ) → Counts × Bool → Counts × Bool
  unfolding track status_of
  track_all [] state = state
  track_all ((node, commit) ∷ replicas) state = track_all replicas (
      track node (status_of leader_id leader_commit diff node commit) (count_of node state.0) state)

  unfoldable pub replicas_status_change : List (ℕ × ℕ) → Counts → Counts × Bool
  unfolding track_all prune
  replicas_status_change replicas states =
      let tracked = track_all replicas (states, false) in
      let pruned = prune (map (λ r. r.0) replicas) tracked.0 in (pruned.0, tracked.1 || pruned.1)

count_of-put_count :
    (node n : ℕ) (states : Counts) (k : ℕ)
    → count_of k (put_count node n states) ≡ (if node == k then some n else count_of k states)
unfolding count_of put_count
count_of-put_count node n [] k = refl
count_of-put_count node n ((j, held) ∷ states) k =
    let ih = count_of-put_count node n states k in ground arith

kept_status :
    (node k held current : ℕ) (states : Counts)
    → count_of node states ≡ some held
    → held ≡ current
    → count_of k states ≡ (if node == k then some current else count_of k states)
kept_status node k held current states h e = elim (Bool-cases (node == k)) [
  | inl s ↦
      let same : node ≡ k = (==_iff node k).0 s in
      rw (s) (ap (λ n. count_of n states) (sym same) ∙ h ∙ ap some e)
  | inr s ↦ rw (s) refl
]

track-count_of :
    (node current : ℕ) (held : Option ℕ) (state : Counts × Bool) (k : ℕ)
    → count_of node state.0 ≡ held
    → count_of k (track node current held state).0
      ≡ (if node == k then some current else count_of k state.0)
unfolding track
track-count_of node current none state k h = count_of-put_count node current state.0 k
track-count_of node current (some held) state k h = elim (Bool-cases (held == current)) [
  | inl e ↦ rw (e) (kept_status node k held current state.0 h ((==_iff held current).0 e))
  | inr e ↦ rw (e) (count_of-put_count node current state.0 k)
]

prune-count_of :
    (among : List ℕ) (states : Counts) (k : ℕ)
    → count_of k (prune among states).0 ≡ (if has_num k among then count_of k states else none)
unfolding prune count_of
prune-count_of among [] k = ground arith
prune-count_of among ((node, held) ∷ states) k =
    let ih = prune-count_of among states k in
    elim (Bool-cases (node == k)) [
      | inl e ↦
          let same : node ≡ k = (==_iff node k).0 e in
          let at : has_num node among ≡ has_num k among = ap (λ n. has_num n among) same in
          ground arith
      | inr e ↦ ground arith
    ]

track-true :
    (node current : ℕ) (held : Option ℕ) (state : Counts × Bool)
    → state.1 ≡ true
    → (track node current held state).1 ≡ true
unfolding track
track-true node current none state h = refl
track-true node current (some held) state h = ground arith

track-unchanged :
    (node current : ℕ) (held : Option ℕ) (state : Counts × Bool)
    → (track node current held state).1 ≡ false
    → track node current held state ≡ state
unfolding track
track-unchanged node current none state h = absurd (cc)
track-unchanged node current (some held) state h = elim (Bool-cases (held == current)) [
  | inl e ↦ rw (e) refl
  | inr e ↦ absurd (let bad : true ≡ false = rw e at h in cc)
]

prune-unchanged :
    (among : List ℕ) (states : Counts)
    → (prune among states).1 ≡ false
    → (prune among states).0 ≡ states
unfolding prune
prune-unchanged among [] h = refl
prune-unchanged among ((node, held) ∷ states) h = elim (Bool-cases (has_num node among)) [
  | inl e ↦
      let later : (prune among states).1 ≡ false = rw e at h in
      rw (e) (ap (◌∷◌ (node, held)) (prune-unchanged among states later))
  | inr e ↦ absurd (let bad : true ≡ false = rw e at h in cc)
]

-- The status a node has after the loop: that of its entry, or the one held
module _ (leader_id leader_commit diff : ℕ) where
  abbrev pub status_in : List (ℕ × ℕ) → ℕ → Option ℕ → Option ℕ
  status_in [] k held = held
  status_in ((node, commit) ∷ replicas) k held =
      let rest = status_in replicas k held in
      if node == k then some (status_of leader_id leader_commit diff node commit) else rest

  abbrev nodes : List (ℕ × ℕ) → List ℕ
  nodes replicas = map (λ r. r.0) replicas

  status_in-absent :
      (replicas : List (ℕ × ℕ)) (k : ℕ) (held : Option ℕ)
      → has_num k (nodes replicas) ≡ false
      → status_in replicas k held ≡ held
  status_in-absent [] k held h = refl
  status_in-absent ((node, commit) ∷ replicas) k held h =
      let ih = status_in-absent replicas k held in ground arith

  -- A node that is reported has a status whatever was held.
  status_in-present :
      (replicas : List (ℕ × ℕ)) (k : ℕ) (held other : Option ℕ)
      → has_num k (nodes replicas) ≡ true
      → status_in replicas k held ≡ status_in replicas k other
  status_in-present [] k held other h = absurd (cc)
  status_in-present ((node, commit) ∷ replicas) k held other h = elim (Bool-cases (node == k)) [
    | inl e ↦ rw (e) refl
    | inr e ↦
        let later : has_num k (nodes replicas) ≡ true = rw e at h in
        rw (e) (status_in-present replicas k held other later)
  ]

  track_all-count_of :
      (replicas : List (ℕ × ℕ)) (state : Counts × Bool) (k : ℕ)
      → Distinct (nodes replicas)
      → count_of k (track_all leader_id leader_commit diff replicas state).0
        ≡ status_in replicas k (count_of k state.0)
  unfolding track_all
  track_all-count_of [] state k d = refl
  track_all-count_of ((node, commit) ∷ replicas) state k d =
      let current = status_of leader_id leader_commit diff node commit in
      let after = track node current (count_of node state.0) state in
      let ih = track_all-count_of replicas after k d.1 in
      let one = track-count_of node current (count_of node state.0) state k refl in
      elim (Bool-cases (node == k)) [
        | inl e ↦
            let same : node ≡ k = (==_iff node k).0 e in
            let absent : has_num k (nodes replicas) ≡ false =
              subst (λ n. has_num n (nodes replicas) ≡ false) same d.0 in
            let here : count_of k after.0 ≡ some current = rw e at one in
            rw (e) (ih ∙ status_in-absent replicas k (count_of k after.0) absent ∙ here)
        | inr e ↦
            let still : count_of k after.0 ≡ count_of k state.0 = rw e at one in
            rw (e) (ih ∙ ap (status_in replicas k) still)
      ]

  -- After ReplicasStatusChange the map holds, for each replica that raft reports, the status that comes of its commit,
  -- and nothing for any other node. Condition: raft reports no node twice.
  pub replicas_status_change-count_of :
      (replicas : List (ℕ × ℕ)) (states : Counts) (k : ℕ)
      → Distinct (nodes replicas)
      → count_of k (replicas_status_change leader_id leader_commit diff replicas states).0
        ≡ status_in replicas k none
  unfolding replicas_status_change
  replicas_status_change-count_of replicas states k d =
      let t = track_all-count_of replicas (states, false) k d in
      prune-count_of (nodes replicas)
        (track_all leader_id leader_commit diff replicas (states, false)).0 k
      ∙ elim (Bool-cases (has_num k (nodes replicas))) [
        | inl e ↦ rw (e) (t ∙ status_in-present replicas k (count_of k states) none e)
        | inr e ↦ rw (e) (sym (status_in-absent replicas k none e))
      ]

  track_all-true :
      (replicas : List (ℕ × ℕ)) (state : Counts × Bool)
      → state.1 ≡ true
      → (track_all leader_id leader_commit diff replicas state).1 ≡ true
  unfolding track_all
  track_all-true [] state h = h
  track_all-true ((node, commit) ∷ replicas) state h =
      let current = status_of leader_id leader_commit diff node commit in
      track_all-true replicas (track node current (count_of node state.0) state)
        (track-true node current (count_of node state.0) state h)

  track_all-unchanged :
      (replicas : List (ℕ × ℕ)) (state : Counts × Bool)
      → (track_all leader_id leader_commit diff replicas state).1 ≡ false
      → track_all leader_id leader_commit diff replicas state ≡ state
  unfolding track_all
  track_all-unchanged [] state h = refl
  track_all-unchanged ((node, commit) ∷ replicas) state h =
      let after =
        track node (status_of leader_id leader_commit diff node commit) (count_of node state.0)
          state in
      let quiet : after.1 ≡ false = elim (Bool-cases after.1) [
        | inl e ↦ absurd (let bad = track_all-true replicas after e in cc)
        | inr e ↦ e
      ] in
      track_all-unchanged replicas after h
      ∙ track-unchanged node (status_of leader_id leader_commit diff node commit)
          (count_of node state.0) state quiet

  -- Where ReplicasStatusChange reports no change, it has left the map as it was.
  pub replicas_status_change-unchanged :
      (replicas : List (ℕ × ℕ)) (states : Counts)
      → (replicas_status_change leader_id leader_commit diff replicas states).1 ≡ false
      → (replicas_status_change leader_id leader_commit diff replicas states).0 ≡ states
  unfolding replicas_status_change
  replicas_status_change-unchanged replicas states h =
      let tracked = track_all leader_id leader_commit diff replicas (states, false) in
      let pruned = prune (nodes replicas) tracked.0 in
      let first : tracked.1 ≡ false = ground arith in
      let second : pruned.1 ≡ false = ground arith in
      prune-unchanged (nodes replicas) tracked.0 second
      ∙ ap (λ (s : Counts × Bool). s.0) (track_all-unchanged replicas (states, false) first)
