-- ===== src/Raft/Members.antt =====
-- The members of a partition: ApplyMemberChange of internal/ps/storage/raftstore/raft_state_machine.go.
use vearch.Prelude.{
  ℕ, List, [], ◌∷◌, ◌++◌, Bool, true, false, ◌&&◌, ◌||◌, not, Bool-cases, inl, inr, Option, none,
  some, Outcome, done, panic, and_then, and_then-done, if◌then◌else◌, has_num, filter_by, ◌==◌,
  ==_iff, length, length-append, arith, ◌≡◌, refl, sym, ap, ◌∙◌,
}
use mathlib.Core.Path.{subst}
use vearch.Prelude.{Distinct}
use vearch.Raft.{Store}

-- proto.ConfChange: its type, the peer, and the node of the replica in its context, where that decodes
pub data ConfChangeType : Type 0 where
  add_node remove_node other_change : ConfChangeType

pub record ConfChange : Type 0 where
  pub type : ConfChangeType
  pub peer : ℕ  -- uint64
  pub context : Option ℕ

-- replica.NodeID, 0 in a replica that was not decoded
unfoldable pub node_of : Option ℕ → ℕ
node_of none = 0
node_of (some node) = node

unfoldable pub add_replica : ℕ → ℕ → List ℕ → List ℕ
add_replica peer node replicas = if has_num peer replicas then replicas else replicas ++ node ∷ []

unfoldable pub remove_replica : ℕ → List ℕ → List ℕ
remove_replica node replicas = filter_by (λ r. not (r == node)) replicas

-- The new slice is made for one replica less than there are, which is a panic if there is none.
unfoldable pub member_change : ConfChangeType → ℕ → ℕ → List ℕ → Outcome (List ℕ)
member_change add_node peer node replicas = done (add_replica peer node replicas)
member_change remove_node peer node replicas =
    if length replicas == 0 then panic else done (remove_replica node replicas)
member_change other_change peer node replicas = done replicas

unfoldable pub apply_member_change {ℓ} :
    {Engine : Type ℓ} → ConfChange → Store Engine → Outcome (Store Engine)
unfolding node_of member_change
apply_member_change change store =
    and_then (member_change change.type change.peer (node_of change.context) store.replicas)
      λ replicas. done (record store { replicas = replicas })

has_num-last :
    (k node : ℕ) (replicas : List ℕ)
    → has_num k (replicas ++ node ∷ []) ≡ ((node == k) || has_num k replicas)
has_num-last k node [] = refl
has_num-last k node (r ∷ replicas) = let ih = has_num-last k node replicas in ground arith

has_num-remove :
    (k node : ℕ) (replicas : List ℕ)
    → has_num k (remove_replica node replicas) ≡ (not (node == k) && has_num k replicas)
unfolding remove_replica
has_num-remove k node [] = ground arith
has_num-remove k node (r ∷ replicas) = let ih = has_num-remove k node replicas in ground arith

Distinct-last :
    (node : ℕ) (replicas : List ℕ)
    → has_num node replicas ≡ false
    → Distinct replicas
    → Distinct (replicas ++ node ∷ [])
Distinct-last node [] h d = (refl, tt)
Distinct-last node (r ∷ replicas) h d =
    let at = has_num-last r node replicas in
    let f = d.0 in (ground arith, Distinct-last node replicas (ground arith) d.1)

kept_fresh :
    (r node : ℕ) (replicas : List ℕ)
    → has_num r replicas ≡ false
    → has_num r (remove_replica node replicas) ≡ false
kept_fresh r node replicas f = let at = has_num-remove r node replicas in ground arith

Distinct-remove :
    (node : ℕ) (replicas : List ℕ) → Distinct replicas → Distinct (remove_replica node replicas)
unfolding remove_replica
Distinct-remove node [] d = tt
Distinct-remove node (r ∷ replicas) d =
    let ih = Distinct-remove node replicas d.1 in
    elim (Bool-cases (r == node)) [
      | inl e ↦
          let same : remove_replica node (r ∷ replicas) ≡ remove_replica node replicas =
            ground arith in
          subst Distinct (sym same) ih
      | inr e ↦
          let same : remove_replica node (r ∷ replicas) ≡ r ∷ remove_replica node replicas =
            ground arith in
          subst Distinct (sym same) (kept_fresh r node replicas d.0, ih)
    ]

remove-last :
    (node : ℕ) (replicas : List ℕ)
    → has_num node replicas ≡ false
    → remove_replica node (replicas ++ node ∷ []) ≡ replicas
unfolding remove_replica
remove-last node [] h = ground arith
remove-last node (r ∷ replicas) h = let ih = remove-last node replicas in ground arith

-- What a change makes of the members, told by membership
abbrev pub is_member_after : ConfChangeType → ℕ → ℕ → List ℕ → Bool
is_member_after add_node peer k replicas = (peer == k) || has_num k replicas
is_member_after remove_node peer k replicas = not (peer == k) && has_num k replicas
is_member_after other_change peer k replicas = has_num k replicas

known :
    (peer k : ℕ) (replicas : List ℕ)
    → has_num peer replicas ≡ true
    → has_num k replicas ≡ ((peer == k) || has_num k replicas)
known peer k replicas e = elim (Bool-cases (peer == k)) [
  | inl s ↦
      let same : peer ≡ k = (==_iff peer k).0 s in
      rw (s) (subst (λ n. has_num n replicas ≡ true) same e)
  | inr s ↦ rw (s) refl
]

not_empty : (node : ℕ) (replicas : List ℕ) → (length (replicas ++ node ∷ []) == 0) ≡ false
not_empty node replicas = let l = length-append replicas (node ∷ []) in ground arith

add_replica-members :
    (peer : ℕ) (replicas : List ℕ)
    → Distinct replicas
    → Distinct (add_replica peer peer replicas)
      × ((k : ℕ) → has_num k (add_replica peer peer replicas) ≡ ((peer == k) || has_num k replicas))
unfolding add_replica
add_replica-members peer replicas d = elim (Bool-cases (has_num peer replicas)) [
  | inl e ↦ rw (e) (d, λ k. known peer k replicas e)
  | inr e ↦ rw (e) (Distinct-last peer replicas e d, λ k. has_num-last k peer replicas)
]

member_change-members :
    (type : ConfChangeType) (peer : ℕ) (replicas : List ℕ) {out : List ℕ}
    → Distinct replicas
    → member_change type peer peer replicas ≡ done out
    → Distinct out × ((k : ℕ) → has_num k out ≡ is_member_after type peer k replicas)
unfolding member_change
member_change-members add_node peer replicas {out} d h =
    let same : add_replica peer peer replicas ≡ out = cc in
    subst
      (λ (l : List ℕ). Distinct l × ((k : ℕ) → has_num k l ≡ ((peer == k) || has_num k replicas)))
      same (add_replica-members peer replicas d)
member_change-members remove_node peer replicas {out} d h =
    let same : remove_replica peer replicas ≡ out = ground arith in
    subst
      (λ (l : List ℕ).
        Distinct l × ((k : ℕ) → has_num k l ≡ (not (peer == k) && has_num k replicas)))
      same (Distinct-remove peer replicas d, λ k. has_num-remove k peer replicas)
member_change-members other_change peer replicas {out} d h =
    let same : replicas ≡ out = cc in
    subst (λ (l : List ℕ). Distinct l × ((k : ℕ) → has_num k l ≡ has_num k replicas)) same
      (d, λ k. refl)

module _ {ℓ} {Engine : Type ℓ} where
  apply_member_change-done :
      (change : ConfChange) (store : Store Engine) {out : Store Engine}
      → apply_member_change change store ≡ done out
      → member_change change.type change.peer (node_of change.context) store.replicas
        ≡ done out.replicas
  unfolding apply_member_change
  apply_member_change-done change store {out} h =
      let last = λ (replicas : List ℕ).
        let r : Outcome (Store Engine) = done (record store { replicas = replicas }) in r in
      let a =
        and_then-done
          (member_change change.type change.peer (node_of change.context) store.replicas) last h in
      let same : record store { replicas = a.0 } ≡ out = let q = a.2 in cc in
      a.1 ∙ ap (λ (s : Store Engine). done s.replicas) same

  -- A change of the members that does not panic leaves no replica twice if there was none twice; after it the peer is a
  -- member if it was added and none if it was removed, and all others are members exactly if they were.
  -- Condition: the change's context decodes to a replica on the node of the peer.
  pub apply_member_change-members :
      (change : ConfChange) (store out : Store Engine)
      → change.context ≡ some change.peer
      → Distinct store.replicas
      → apply_member_change change store ≡ done out
      → Distinct out.replicas
        × ((k : ℕ)
            → has_num k out.replicas ≡ is_member_after change.type change.peer k store.replicas)
  unfolding node_of
  apply_member_change-members change store out c d h =
      let m : member_change change.type change.peer change.peer store.replicas ≡ done out.replicas =
        ap (λ o. member_change change.type change.peer (node_of o) store.replicas) (sym c)
        ∙ apply_member_change-done change store h in
      member_change-members change.type change.peer store.replicas d m

  -- A replica that is added and then removed leaves the list of the replicas as it was, in its order. Conditions: the
  -- node was no member, and the contexts decode to it.
  pub apply_member_change-back :
      (node : ℕ) (store : Store Engine)
      → has_num node store.replicas ≡ false
      → and_then
          (apply_member_change (record { type = add_node; peer = node; context = some node }) store)
          (apply_member_change (record { type = remove_node; peer = node; context = some node }))
        ≡ done store
  unfolding apply_member_change member_change node_of add_replica
  apply_member_change-back node store f =
      let some_left : (length (store.replicas ++ node ∷ []) == 0) ≡ false =
        not_empty node store.replicas in
      rw (f, some_left)
        (ap
          (λ (l : List ℕ).
            let r : Outcome (Store Engine) = done (record store { replicas = l }) in r)
          (remove-last node store.replicas f))
