-- ===== src/Examples/Backup.antt =====
-- The theorems on the references of backup versions, at one file with two versions.
use vearch.Prelude.{
  ◌+◌, ◌<◌, ◌^◌, ◌⊎◌, false, true, List, String, [], ◌∷◌, some, Result, ok, ◌≡◌, refl, arith,
}
use mathlib.Core.Path.{subst}
use vearch.Prelude.Assoc.{lookup}
use vearch.Backup.{
  FileRefCount, RefCountManager, returned, contains, add_reference, remove_version_references,
}
use vearch.Backup.Count.{Counted, AllCounted}
use vearch.Backup.Version.{add_reference-AllCounted}
use vearch.Backup.Waits.{holds, Waiting, remove_version_references_cases}

abbrev uploaded : List (String × FileRefCount) → Result (Unit {0})
uploaded _ = ok tt

abbrev shared_file : FileRefCount
shared_file = record {
  crc32 = "c";
  s3_path = "p";
  ref_count = 2;
  size = 10;
  versions = "v1" ∷ "v2" ∷ [];
}

abbrev one_file : RefCountManager
one_file = record { ref_count_map = ("c", shared_file) ∷ []; delete_calls = []; locked = false }

shared_file-Counted : Counted shared_file
unfolding contains
shared_file-Counted = (omega arith, omega arith, refl, (refl, (refl, tt)))

found : (k : String) (e : FileRefCount) → lookup k one_file.ref_count_map ≡ some e → shared_file ≡ e
found k e h = ground arith

one_file-AllCounted : AllCounted one_file
one_file-AllCounted k e h = subst Counted (found k e h) shared_file-Counted

fresh_here :
    (e : FileRefCount)
    → lookup "c" one_file.ref_count_map ≡ some e
    → (contains e.versions "v3" ≡ false) × (e.ref_count + 1 < 2 ^ 63)
unfolding contains
fresh_here e h =
    subst (λ (e : FileRefCount). (contains e.versions "v3" ≡ false) × (e.ref_count + 1 < 2 ^ 63))
      (found "c" e h) (refl, omega arith)

add_reference-AllCounted_example :
    (after : RefCountManager) × (add_reference uploaded one_file "c" "p" "v3" 10
      ≡ returned (uploaded after.ref_count_map, after))
    × (after.locked ≡ false)
    × AllCounted after
    × (after.delete_calls ≡ [])
add_reference-AllCounted_example =
    add_reference-AllCounted uploaded one_file "c" "p" "v3" 10 refl one_file-AllCounted fresh_here

remove_version_references_cases_example :
    ((crc : String) × (holds "v1" (lookup crc one_file.ref_count_map) ≡ true)
      × Waiting uploaded (remove_version_references uploaded one_file "v1"))
    ⊎ ((remove_version_references uploaded one_file "v1" ≡ returned (ok tt, one_file))
        × ((k : String) → holds "v1" (lookup k one_file.ref_count_map) ≡ false))
remove_version_references_cases_example =
    remove_version_references_cases uploaded one_file "v1" (refl, tt) refl
