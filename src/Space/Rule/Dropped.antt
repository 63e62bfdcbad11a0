-- ===== src/Space/Rule/Dropped.antt =====
-- What dropping a range leaves of a space: updateSpacePartitonRule of
-- internal/master/services/space_service.go.
use vearch.Prelude.{
  ℕ, ◌*◌, String, List, [], ◌∷◌, ◌++◌, map, true, false, ◌||◌, not, Bool-cases, inl, inr, some,
  Result, ok, ◌>>=◌, panic, filter_by, str_eq, eq_iff, eq_refl, length, All, arith, ◌≡◌, ◌≢◌, refl,
  sym, ap, ◌∙◌,
}
use mathlib.Core.List.{append_assoc, append-nil}
use vearch.Space.Model.{Partition, PartitionRule, Range, Space}
use vearch.Space.Slots.{reslot}
use vearch.Space.Rule.{
  RuleEnv, has_range, drop_ranges, drop_next, drop_partitions, finish_rule, finish_drop, drop_rule,
}

-- The partitions of other names, and the numbers of those of the name
abbrev pub others : String → List Partition → List Partition
others name ps = filter_by (λ p. not (str_eq p.name name)) ps

abbrev pub named : String → List Partition → List ℕ
named name ps = map (λ p. p.id) (filter_by (λ p. str_eq p.name name) ps)

pair_eq {ℓ κ} :
    {A : Type ℓ} {B : Type κ} (p : A × B) {a : A} {b : B} → p.0 ≡ a → p.1 ≡ b → p ≡ (a, b)
pair_eq (x, y) e f = cc

drop_partitions-all :
    (env : RuleEnv) (name : String) (ps : List Partition) (deleted : List ℕ)
    → All (λ p. env.delete_key p.id ≡ ok tt) ps
    → drop_partitions env name ps deleted ≡ (ok (others name ps), deleted ++ named name ps)
unfolding drop_partitions drop_next
drop_partitions-all env name [] deleted a =
    ap (λ (l : List ℕ). let r : Result (List Partition) × List ℕ = (ok [], l) in r)
      (sym (append-nil deleted))
drop_partitions-all env name (p ∷ ps) deleted a = elim (Bool-cases (str_eq p.name name)) [
  | inl e ↦
      let ih = drop_partitions-all env name ps (deleted ++ p.id ∷ []) a.1 in
      let same : named name (p ∷ ps) ≡ p.id ∷ named name ps = ground arith in
      let left : others name (p ∷ ps) ≡ others name ps = ground arith in
      let joined : (deleted ++ p.id ∷ []) ++ named name ps ≡ deleted ++ named name (p ∷ ps) =
        append_assoc deleted (p.id ∷ []) (named name ps) ∙ ap (λ l. deleted ++ l) (sym same) in
      let step : drop_partitions env name (p ∷ ps) deleted
          ≡ drop_partitions env name ps (deleted ++ p.id ∷ []) =
        rw (e, a.0) refl in
      step
      ∙ ih
      ∙ pair_eq (ok (others name ps), (deleted ++ p.id ∷ []) ++ named name ps) (ap ok (sym left))
          joined
  | inr e ↦
      let ih = drop_partitions-all env name ps deleted a.1 in
      let same : named name (p ∷ ps) ≡ named name ps = ground arith in
      let left : others name (p ∷ ps) ≡ p ∷ others name ps = ground arith in
      let rest = drop_partitions env name ps deleted in
      let cons = λ (k : List Partition). let r : Result (List Partition) = ok (p ∷ k) in r in
      let step : drop_partitions env name (p ∷ ps) deleted ≡ (rest.0 >>= cons, rest.1) =
        rw (e) refl in
      step
      ∙ ap (λ (r : Result (List Partition) × List ℕ). (r.0 >>= cons, r.1)) ih
      ∙ pair_eq (ok (p ∷ others name ps), deleted ++ named name ps) (ap ok (sym left))
          (ap (λ l. deleted ++ l) (sym same))
]

reslot-zero : (total : ℕ) (ps : List Partition) → total ≡ 0 → reslot total ps ≡ panic
unfolding reslot
reslot-zero total ps z = ground arith

drop_ranges-only : (r : Range) → drop_ranges r.name (r ∷ []) ≡ []
unfolding drop_ranges
drop_ranges-only r = let t = eq_refl r.name in ground arith

finish_drop-panic :
    (env : RuleEnv) (name : String) (space : Space) (rule : PartitionRule) (kept : List Partition)
    → drop_ranges name rule.ranges ≡ []
    → finish_drop env name space rule (ok kept) ≡ panic
unfolding finish_drop finish_rule
finish_drop-panic env name space rule kept none_left =
    let z : space.partition_num * length (drop_ranges name rule.ranges) ≡ 0 =
      ap (λ (l : List Range). space.partition_num * length l) none_left ∙ omega arith in
    rw (reslot-zero (space.partition_num * length (drop_ranges name rule.ranges)) kept z) refl

-- Dropping the only range of a space deletes the keys of all its partitions of that name and then panics with a
-- division by zero, before the space is stored. Conditions: the name is not empty, and the keys can be deleted.
pub drop_rule-panic :
    (env : RuleEnv) (space : Space) (rule : PartitionRule) (r : Range)
    → r.name ≢ ""
    → rule.ranges ≡ r ∷ []
    → All (λ p. env.delete_key p.id ≡ ok tt) space.partitions
    → drop_rule env (some r.name) space rule ≡ (panic, named r.name space.partitions)
unfolding drop_rule has_range
drop_rule-panic env space rule r n only a =
    let dropped = drop_partitions env r.name space.partitions [] in
    let kept = drop_partitions-all env r.name space.partitions [] a in
    let there : has_range r.name rule.ranges ≡ true =
      ap (has_range r.name) only ∙ (let t = eq_refl r.name in ground arith) in
    let t : (str_eq r.name "" || not (has_range r.name rule.ranges)) ≡ false =
      ground (arith, eq_iff r.name "") in
    let nothing : drop_ranges r.name rule.ranges ≡ [] =
      ap (drop_ranges r.name) only ∙ drop_ranges-only r in
    let step : drop_rule env (some r.name) space rule
        ≡ (finish_drop env r.name space rule dropped.0, dropped.1) =
      rw (t) refl in
    step
    ∙ ap (λ (d : Result (List Partition) × List ℕ). (finish_drop env r.name space rule d.0, d.1))
        kept
    ∙ pair_eq
        (
          finish_drop env r.name space rule (ok (others r.name space.partitions)),
          named r.name space.partitions,
        )
        (finish_drop-panic env r.name space rule (others r.name space.partitions) nothing) refl
