-- ===== src/Index/Change/Fanout.antt =====
-- What a call of all partitions leaves in their engines, and how the calls that follow a failure undo it.
use vearch.Prelude.{
  ℕ, ◌+◌, ◌≤◌, String, List, [], ◌∷◌, map, Bool, true, false, ◌&&◌, Bool-cases, inl, inr, ◌⊎◌,
  Result, ok, err, ErrorEnum, ◌>>=◌, >>-iff, if◌then◌else◌, has_num, ◌==◌, arith, ◌≡◌, refl, ap,
  ◌∙◌,
}
use vearch.Prelude.{Distinct}
use vearch.Space.Model.{Partition}
use vearch.Index.{Index}
use vearch.Index.Change.{
  IndexChange, remove_index, Env, put_engine, notify_leader, notify_partition, call_partitions,
  without_late, land_late, notify_partitions_index_change, compensate_add,
}

abbrev pub ids : List Partition → List ℕ
ids partitions = map (λ p. p.id) partitions

module _ {ℓ} {Engine : Type ℓ} (apply_change : IndexChange → Engine → Engine) where
  -- Every engine has stayed or has applied the change once, and none but those of the partitions has.
  abbrev pub Touched : IndexChange → List ℕ → (ℕ → Engine) → (ℕ → Engine) → Type ℓ
  Touched change among old new =
      (k : ℕ) → (new k ≡ old k) ⊎ ((has_num k among ≡ true) × (new k ≡ apply_change change (old k)))

  -- All engines of the partitions have applied the change once, and no other.
  abbrev pub Applied : IndexChange → List ℕ → (ℕ → Engine) → (ℕ → Engine) → Type ℓ
  Applied change among old new =
      (k : ℕ) → new k ≡ (if has_num k among then apply_change change (old k) else old k)

  put_engine-cases :
      (id : ℕ) (change : IndexChange) (applied : Bool) (engines : ℕ → Engine) (k : ℕ)
      → (put_engine apply_change id change applied engines k ≡ engines k)
        ⊎ ((id ≡ k)
            × (put_engine apply_change id change applied engines k
                ≡ apply_change change (engines k)))
  unfolding put_engine
  put_engine-cases id change applied engines k = elim (Bool-cases (applied && (id == k))) [
    | inl e ↦ inr (ground arith, rw (e) refl)
    | inr e ↦ inl (rw (e) refl)
  ]

  notify_leader-cases :
      (env : Env) (round : ℕ) (change : IndexChange) (id : ℕ) (engines : ℕ → Engine)
      (leader : Result String) (k : ℕ)
      → ((notify_leader apply_change env round change id engines leader).0 k ≡ engines k)
        ⊎ ((id ≡ k)
            × ((notify_leader apply_change env round change id engines leader).0 k
                ≡ apply_change change (engines k)))
  unfolding notify_leader
  notify_leader-cases env round change id engines (err e) k = inl refl
  notify_leader-cases env round change id engines (ok addr) k =
      elim (Bool-cases (env.is_live round addr)) [
        | inl l ↦
            rw (l) (put_engine-cases id change (env.index_change round addr id change).0 engines k)
        | inr l ↦ rw (l) (inl refl)
      ]

  notify_partition-cases :
      (env : Env) (round : ℕ) (change : IndexChange) (p : Partition) (engines : ℕ → Engine) (k : ℕ)
      → ((notify_partition apply_change env round change p engines).0 k ≡ engines k)
        ⊎ ((p.id ≡ k)
            × ((notify_partition apply_change env round change p engines).0 k
                ≡ apply_change change (engines k)))
  unfolding notify_partition
  notify_partition-cases env round change p engines k =
      notify_leader-cases env round change p.id engines
        (env.query_partition round p.id >>= λ leader. env.query_server round leader) k

  call_partitions-Touched :
      (env : Env) (round : ℕ) (change : IndexChange) (partitions : List Partition)
      (engines : ℕ → Engine)
      → Distinct (ids partitions)
      → Touched change
          (ids partitions)
          engines
          (call_partitions apply_change env round change partitions engines).0
  unfolding call_partitions
  call_partitions-Touched env round change [] engines d k = inl refl
  call_partitions-Touched env round change (p ∷ ps) engines d k =
      let mid = (notify_partition apply_change env round change p engines).0 in
      elim (call_partitions-Touched env round change ps mid d.1 k) [
        | inl same ↦ elim (notify_partition-cases env round change p engines k) [
          | inl still ↦ inl (same ∙ still)
          | inr (at, new) ↦ inr (ground arith, same ∙ new)
        ]
        | inr (later, new) ↦ elim (notify_partition-cases env round change p engines k) [
          | inl still ↦ inr (ground arith, new ∙ ap (apply_change change) still)
          | inr (at, twice) ↦ absurd (let f = d.0 in ground arith)
        ]
      ]

  -- A round that returns early leaves some engines as they were.
  without_late-cases :
      (env : Env) (round : ℕ) (answer : Result (Unit {0})) (engines called : ℕ → Engine) (k : ℕ)
      → (without_late apply_change env round answer engines called k ≡ engines k)
        ⊎ (without_late apply_change env round answer engines called k ≡ called k)
  unfolding without_late
  without_late-cases env round (ok _) engines called k = inr refl
  without_late-cases env round (err e) engines called k = elim (Bool-cases (env.is_late round k)) [
    | inl l ↦ inl (rw l refl)
    | inr l ↦ inr (rw l refl)
  ]

  pub notify_partitions_index_change-Touched :
      (env : Env) (round : ℕ) (change : IndexChange) (partitions : List Partition)
      (engines : ℕ → Engine)
      → Distinct (ids partitions)
      → Touched change
          (ids partitions)
          engines
          (notify_partitions_index_change apply_change env round change partitions engines).0
  unfolding notify_partitions_index_change
  notify_partitions_index_change-Touched env round change partitions engines d k =
      let called = call_partitions apply_change env round change partitions engines in
      elim (without_late-cases env round called.1 engines called.0 k) [
        | inl still ↦ inl still
        | inr made ↦ elim (call_partitions-Touched env round change partitions engines d k) [
          | inl same ↦ inl (made ∙ same)
          | inr (at, new) ↦ inr (at, made ∙ new)
        ]
      ]

  without_late-ok :
      (env : Env) (round : ℕ) (answer : Result (Unit {0})) (engines called : ℕ → Engine) (k : ℕ)
      → answer ≡ ok tt
      → without_late apply_change env round answer engines called k ≡ called k
  unfolding without_late
  without_late-ok env round (ok _) engines called k h = refl
  without_late-ok env round (err e) engines called k h = absurd cc

  -- Nothing lands late after a round without an error.
  pub land_late-ok :
      (env : Env) (round : ℕ) (change : IndexChange) (partitions : List Partition)
      (answer : Result (Unit {0})) (engines : ℕ → Engine) (k : ℕ)
      → answer ≡ ok tt
      → land_late apply_change env round change partitions answer engines k ≡ engines k
  unfolding land_late
  land_late-ok env round change partitions (ok _) engines k h = refl
  land_late-ok env round change partitions (err e) engines k h = absurd cc

  -- No call of the round is late.
  pub land_late-none :
      (env : Env) (round : ℕ) (change : IndexChange) (partitions : List Partition)
      (answer : Result (Unit {0})) (engines : ℕ → Engine) (k : ℕ)
      → env.is_late round k ≡ false
      → land_late apply_change env round change partitions answer engines k ≡ engines k
  unfolding land_late
  land_late-none env round change partitions (ok _) engines k h = refl
  land_late-none env round change partitions (err e) engines k h = rw h refl

  -- A partition that answers without an error has applied the change.
  module _ (env : Env)
      (sound : (round : ℕ) (addr : String) (id : ℕ) (change : IndexChange)
        → (env.index_change round addr id change).1 ≡ ok tt
        → (env.index_change round addr id change).0 ≡ true) where
    notify_leader-applied :
        (round : ℕ) (change : IndexChange) (id : ℕ) (engines : ℕ → Engine) (leader : Result String)
        (k : ℕ)
        → (notify_leader apply_change env round change id engines leader).1 ≡ ok tt
        → (notify_leader apply_change env round change id engines leader).0 k
          ≡ (if id == k then apply_change change (engines k) else engines k)
    unfolding notify_leader put_engine
    notify_leader-applied round change id engines (err e) k h = absurd (cc)
    notify_leader-applied round change id engines (ok addr) k h =
        elim (Bool-cases (env.is_live round addr)) [
          | inl l ↦
              let answered : (env.index_change round addr id change).1 ≡ ok tt = rw l at h in
              rw (l, sound round addr id change answered) refl
          | inr l ↦ absurd (let bad : err ErrorEnum.partition_is_closed ≡ ok tt = rw l at h in cc)
        ]

    -- A round in which all answer without an error
    call_partitions-Applied :
        (round : ℕ) (change : IndexChange) (partitions : List Partition) (engines : ℕ → Engine)
        → Distinct (ids partitions)
        → (call_partitions apply_change env round change partitions engines).1 ≡ ok tt
        → Applied change
            (ids partitions)
            engines
            (call_partitions apply_change env round change partitions engines).0
    unfolding call_partitions notify_partition
    call_partitions-Applied round change [] engines d h k = refl
    call_partitions-Applied round change (p ∷ ps) engines d h k =
        let leader = env.query_partition round p.id >>= λ leader. env.query_server round leader in
        let here = notify_leader apply_change env round change p.id engines leader in
        let rest = call_partitions apply_change env round change ps here.0 in
        let both = (>>-iff here.1 rest.1).0 h in
        let one = notify_leader-applied round change p.id engines leader k both.0 in
        let later = call_partitions-Applied round change ps here.0 d.1 both.1 k in
        elim (Bool-cases (p.id == k)) [
          | inl e ↦
              let fresh : has_num k (ids ps) ≡ false = let f = d.0 in ground arith in
              let x : rest.0 k ≡ here.0 k = rw fresh at later in
              let y : here.0 k ≡ apply_change change (engines k) = rw e at one in rw (e) (x ∙ y)
          | inr e ↦ let y : here.0 k ≡ engines k = rw e at one in rw (e) (later ∙ rw (y) refl)
        ]

  -- A round in which all answer without an error waits for all.
  pub notify_partitions_index_change-Applied :
      (env : Env)
      → ((round : ℕ) (addr : String) (id : ℕ) (change : IndexChange)
          → (env.index_change round addr id change).1 ≡ ok tt
          → (env.index_change round addr id change).0 ≡ true)
      → (round : ℕ) (change : IndexChange) (partitions : List Partition) (engines : ℕ → Engine)
      → Distinct (ids partitions)
      → (notify_partitions_index_change apply_change env round change partitions engines).1 ≡ ok tt
      → Applied change
          (ids partitions)
          engines
          (notify_partitions_index_change apply_change env round change partitions engines).0
  unfolding notify_partitions_index_change
  notify_partitions_index_change-Applied env sound round change partitions engines d h k =
      let called = call_partitions apply_change env round change partitions engines in
      without_late-ok env round called.1 engines called.0 k h
      ∙ call_partitions-Applied env sound round change partitions engines d h k

  -- The engine after the removals of a list of indexes, one after the other
  abbrev pub removes : List Index → Engine → Engine
  removes [] engine = engine
  removes (idx ∷ indexes) engine = removes indexes (apply_change (remove_index idx.name) engine)

  module _ (env : Env)
      (sound : (round : ℕ) (addr : String) (id : ℕ) (change : IndexChange)
        → (env.index_change round addr id change).1 ≡ ok tt
        → (env.index_change round addr id change).0 ≡ true) where
    -- compensateAdd, where the partitions answer
    pub compensate_add_lem :
        (round : ℕ) (indexes : List Index) (partitions : List Partition) (engines : ℕ → Engine)
        → Distinct (ids partitions)
        → ((r : ℕ) (change : IndexChange) (now : ℕ → Engine)
            → round ≤ r
            → (notify_partitions_index_change apply_change env r change partitions now).1 ≡ ok tt)
        → (k : ℕ)
        → compensate_add apply_change env round indexes partitions engines k
          ≡ (if has_num k (ids partitions) then removes indexes (engines k) else engines k)
    unfolding compensate_add
    compensate_add_lem round [] partitions engines d a k = ground arith
    compensate_add_lem round (idx ∷ indexes) partitions engines d a k =
        let change = remove_index idx.name in
        let next =
          (notify_partitions_index_change apply_change env round change partitions engines).0 in
        let ih =
          compensate_add_lem (round + 1) indexes partitions next d
            (λ r c now l. a r c now (omega arith)) k in
        let answered = a round change engines (omega arith) in
        let one =
          notify_partitions_index_change-Applied env sound round change partitions engines d
            answered k in
        let landed =
          land_late-ok env round change partitions
            (notify_partitions_index_change apply_change env round change partitions engines).1
            (compensate_add apply_change env (round + 1) indexes partitions next) k answered in
        elim (Bool-cases (has_num k (ids partitions))) [
          | inl e ↦
              let x : compensate_add apply_change env (round + 1) indexes partitions next k
                  ≡ removes indexes (next k) =
                rw e at ih in
              let y : next k ≡ apply_change change (engines k) = rw e at one in
              rw (e) (landed ∙ x ∙ ap (removes indexes) y)
          | inr e ↦
              let x : compensate_add apply_change env (round + 1) indexes partitions next k
                  ≡ next k =
                rw e at ih in
              let y : next k ≡ engines k = rw e at one in rw (e) (landed ∙ x ∙ y)
        ]
