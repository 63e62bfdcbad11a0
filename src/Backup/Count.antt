-- ===== src/Backup/Count.antt =====
-- One reference added: the count against the versions that hold the file.
use vearch.Prelude.{
  ◌+◌, ◌^◌, ◌<◌, String, List, [], ◌∷◌, ◌++◌, true, false, some, if◌then◌else◌, str_eq, eq_iff,
  add64, length, length-append, arith, ◌≡◌, refl,
}
use vearch.Prelude.Assoc.{lookup}
use vearch.Backup.{FileRefCount, RefCountManager, contains, retain}

-- No version stands twice.
abbrev pub Distinct : List String → Type 0
Distinct [] = Unit
Distinct (v ∷ vs) = (contains vs v ≡ false) × Distinct vs

-- A count that is right: as many references as versions, each version once.
abbrev pub Counted : FileRefCount → Type 0
Counted e =
    (0 < e.ref_count)
    × (e.ref_count < 2 ^ 63)
    × (length e.versions ≡ e.ref_count)
    × Distinct e.versions

-- Every file of the manager is counted right.
abbrev pub AllCounted : RefCountManager → Type 0
AllCounted rcm = (k : String) (e : FileRefCount) → lookup k rcm.ref_count_map ≡ some e → Counted e

contains-append :
    (vs : List String) (v w : String)
    → contains (vs ++ v ∷ []) w ≡ (if contains vs w then true else str_eq v w)
unfolding contains
contains-append [] v w = ground arith
contains-append (x ∷ vs) v w = ground (arith, contains-append vs v w)

Distinct-append :
    (vs : List String) (v : String) → Distinct vs → contains vs v ≡ false → Distinct (vs ++ v ∷ [])
unfolding contains
Distinct-append [] v d n = (refl, tt)
Distinct-append (x ∷ vs) v d n = (
  ground (arith, contains-append vs v x, eq_iff v x, eq_iff x v, d.0),
  Distinct-append vs v d.1 (ground arith),
)

-- The counts stay right when a version that does not hold the file yet is added.
pub retain-Counted :
    (v : String) (e : FileRefCount)
    → Counted e
    → contains e.versions v ≡ false
    → e.ref_count + 1 < 2 ^ 63
    → Counted (retain v e)
unfolding retain
retain-Counted v e c n b =
    let bump : add64 e.ref_count 1 ≡ e.ref_count + 1 = omega arith in
    rw (n, bump)
      (
        omega arith,
        b,
        omega (arith, length-append e.versions (v ∷ []), c.2),
        Distinct-append e.versions v c.3 n,
      )
