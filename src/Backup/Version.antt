-- ===== src/Backup/Version.antt =====
-- The manager after a reference was added.
use vearch.Prelude.{
  ℕ, ◌+◌, ◌^◌, ◌<◌, String, List, false, Bool-cases, inl, inr, Option, none, some, Result, str_eq,
  arith, ◌≡◌, refl,
}
use mathlib.Core.Path.{subst}
use vearch.Prelude.Assoc.{lookup, insert, lookup-insert}
use vearch.Backup.{
  FileRefCount, RefCountManager, contains, referenced, add_reference, returned, acquire, and_run,
  save_to_s3_impl, release_lock,
}
use vearch.Backup.Count.{Counted, AllCounted, retain-Counted}

-- The entry that AddReference stores is counted right.
referenced-Counted :
    (crc path version : String) (size : ℕ) (o : Option FileRefCount)
    → ((e : FileRefCount) → o ≡ some e → Counted e)
    → ((e : FileRefCount)
        → o ≡ some e
        → (contains e.versions version ≡ false) × (e.ref_count + 1 < 2 ^ 63))
    → Counted (referenced crc path version size o)
unfolding referenced contains
referenced-Counted crc path version size none all new = (omega arith, omega arith, refl, (refl, tt))
referenced-Counted crc path version size (some e) all new =
    retain-Counted version e (all e refl) (new e refl).0 (new e refl).1

-- A reference by a version that does not hold the file yet, added where nobody holds the mutex, returns with what the
-- upload of the new counts answers. It leaves the mutex free, keeps every count right, as many references as versions, and
-- deletes nothing. Conditions: the counts are right before, the version is not among those of the file, and
-- the count does not reach 2^63.
pub add_reference-AllCounted :
    (upload : List (String × FileRefCount) → Result (Unit {0})) (rcm : RefCountManager)
    (crc path version : String) (size : ℕ)
    → rcm.locked ≡ false
    → AllCounted rcm
    → ((e : FileRefCount)
        → lookup crc rcm.ref_count_map ≡ some e
        → (contains e.versions version ≡ false) × (e.ref_count + 1 < 2 ^ 63))
    → (after : RefCountManager) × (add_reference upload rcm crc path version size
        ≡ returned (upload after.ref_count_map, after))
      × (after.locked ≡ false)
      × AllCounted after
      × (after.delete_calls ≡ rcm.delete_calls)
unfolding add_reference acquire and_run save_to_s3_impl release_lock
add_reference-AllCounted upload rcm crc path version size free all new =
    let entry = referenced crc path version size (lookup crc rcm.ref_count_map) in
    let right =
      referenced-Counted crc path version size (lookup crc rcm.ref_count_map) (all crc) new in
    let after : RefCountManager = record rcm {
      ref_count_map = insert crc entry rcm.ref_count_map;
      locked = false;
    } in
    (
      after,
      rw (free) refl,
      refl,
      λ k e h.
          let at = lookup-insert crc k entry rcm.ref_count_map in
          elim (Bool-cases (str_eq crc k)) [
            | inl s ↦ let same : entry ≡ e = ground arith in subst Counted same right
            | inr s ↦ all k e (ground arith)
          ],
      refl,
    )
