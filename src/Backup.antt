-- ===== src/Backup.antt =====
-- The references that backup versions hold on files: internal/ps/backup/ref_count_manager.go. Times and
-- the client of the object store are left out; writing the counts to it is a parameter, and the calls that delete a file
-- are recorded in their order, since their failure changes nothing here. The mutex of the manager is modelled:
-- a goroutine that locks it a second time waits forever. The queries are what they answer once they have it.
pub mod Count
pub mod Version
pub mod Waits
use vearch.Prelude.{
  ℕ, ◌+◌, String, List, [], ◌∷◌, ◌++◌, Bool, true, false, Option, none, some, Result, ok, err,
  ErrorEnum, if◌then◌else◌, str_eq, ltb, le64, sub64, add64, length,
}
use vearch.Prelude.Assoc.{lookup, insert, erase}

pub record FileRefCount : Type 0 where
  pub crc32 : String
  pub s3_path : String
  pub ref_count : ℕ  -- int
  pub size : ℕ  -- int64
  pub versions : List String

pub record RefCountManager : Type 0 where
  pub ref_count_map : List (String × FileRefCount)
  pub delete_calls : List String  -- the paths that deleteFileFromS3 was called with
  pub locked : Bool  -- rcm.mu, held for writing

-- What a call comes to: it returns, or it waits forever for the mutex, with the manager as it is then.
pub data Run {ℓ} (A : Type ℓ) : Type ℓ where
  returned : A → Run A
  waits : RefCountManager → Run A

unfoldable pub and_run {ℓ κ} : {A : Type ℓ} {B : Type κ} → Run A → (A → Run B) → Run B
and_run (returned a) next = next a
and_run (waits rcm) next = waits rcm

-- rcm.mu.Lock, and rcm.mu.RLock with what is done under it
unfoldable pub acquire : RefCountManager → Run RefCountManager
acquire rcm = if rcm.locked then waits rcm else returned (record rcm { locked = true })

unfoldable pub release_lock : RefCountManager → RefCountManager
release_lock rcm = record rcm { locked = false }

unfoldable pub contains : List String → String → Bool
contains [] item = false
contains (s ∷ slice) item = if str_eq s item then true else contains slice item

unfoldable pub remove_string : List String → String → List String
remove_string [] item = []
remove_string (s ∷ slice) item =
    let rest = remove_string slice item in if str_eq s item then rest else s ∷ rest

-- One more reference to a file that is known.
unfoldable pub retain : String → FileRefCount → FileRefCount
retain version_id e = record {
  crc32 = e.crc32;
  s3_path = e.s3_path;
  ref_count = add64 e.ref_count 1;
  size = e.size;
  versions = if contains e.versions version_id then e.versions else e.versions ++ version_id ∷ [];
}

-- One reference less.
unfoldable pub release : String → FileRefCount → FileRefCount
release version_id e = record {
  crc32 = e.crc32;
  s3_path = e.s3_path;
  ref_count = sub64 e.ref_count 1;
  size = e.size;
  versions = remove_string e.versions version_id;
}

unfoldable pub referenced : String → String → String → ℕ → Option FileRefCount → FileRefCount
referenced crc32 s3_path version_id size none = record {
  crc32 = crc32;
  s3_path = s3_path;
  ref_count = 1;
  size = size;
  versions = version_id ∷ [];
}
referenced crc32 s3_path version_id size (some e) = retain version_id e

-- `released` is the file's entry after the count went down: it goes where no reference is left.
unfoldable pub put_released : String → FileRefCount → RefCountManager → RefCountManager
put_released crc32 released rcm =
    if le64 released.ref_count 0
    then record rcm {
      ref_count_map = erase crc32 rcm.ref_count_map;
      delete_calls = rcm.delete_calls ++ released.s3_path ∷ [];
    }
    else record rcm { ref_count_map = insert crc32 released rcm.ref_count_map }

-- what one call adds to len(errors) of RemoveVersionReferences
unfoldable pub one_failed : Result (Unit {0}) → ℕ
one_failed (ok _) = 0
one_failed (err e) = 1

unfoldable pub files_to_remove : String → List (String × FileRefCount) → List String
files_to_remove version_id [] = []
files_to_remove version_id ((crc32, e) ∷ m) =
    let rest = files_to_remove version_id m in
    if contains e.versions version_id then crc32 ∷ rest else rest

module _ (upload : List (String × FileRefCount) → Result (Unit {0})) where
  -- SaveToS3 as NewRefCountManager sets it: saveToS3Impl reads the map under rcm.mu.RLock.
  unfoldable pub save_to_s3_impl : RefCountManager → Run (Result (Unit {0}))
  save_to_s3_impl rcm = if rcm.locked then waits rcm else returned (upload rcm.ref_count_map)

  -- The mutex is free again before the counts are saved.
  unfoldable pub add_reference :
      RefCountManager → String → String → String → ℕ → Run (Result (Unit {0}) × RefCountManager)
  unfolding acquire and_run save_to_s3_impl release_lock
  add_reference rcm crc32 s3_path version_id file_size = and_run (acquire rcm) λ held.
      let entry = referenced crc32 s3_path version_id file_size (lookup crc32 held.ref_count_map) in
      let after =
        release_lock (record held { ref_count_map = insert crc32 entry held.ref_count_map }) in
      and_run (save_to_s3_impl after) λ answer. returned (answer, after)

  -- RemoveReference once it has the mutex, for the entry that the map has of the file. The mutex is freed when
  -- it returns, after the counts were saved.
  unfoldable pub removed :
      RefCountManager
      → String
      → String
      → Option FileRefCount
      → Run (Result (Unit {0}) × RefCountManager)
  unfolding and_run save_to_s3_impl release_lock put_released
  removed held crc32 version_id none = returned (err ErrorEnum.plain, release_lock held)
  removed held crc32 version_id (some e) =
      let after = put_released crc32 (release version_id e) held in
      and_run (save_to_s3_impl after) λ answer. returned (answer, release_lock after)

  unfoldable pub remove_reference :
      RefCountManager → String → String → Run (Result (Unit {0}) × RefCountManager)
  unfolding acquire and_run removed
  remove_reference rcm crc32 version_id =
      and_run (acquire rcm) λ held. removed held crc32 version_id (lookup crc32 held.ref_count_map)

  -- len(errors) after the loop of RemoveVersionReferences, and the manager
  unfoldable pub remove_loop : List String → String → RefCountManager → Run (ℕ × RefCountManager)
  unfolding and_run remove_reference
  remove_loop [] version_id rcm = returned (0, rcm)
  remove_loop (crc32 ∷ files) version_id rcm =
      and_run (remove_reference rcm crc32 version_id) λ first.
        and_run (remove_loop files version_id first.1)
          λ rest. returned (one_failed first.0 + rest.0, rest.1)

  unfoldable pub remove_version_references :
      RefCountManager → String → Run (Result (Unit {0}) × RefCountManager)
  unfolding acquire and_run remove_loop release_lock
  remove_version_references rcm version_id = and_run (acquire rcm) λ held.
      and_run
        (remove_loop (files_to_remove version_id held.ref_count_map) version_id (release_lock held))
        λ run. returned (if ltb 0 run.0 then err ErrorEnum.plain else ok tt, run.1)

unfoldable pub get_file_info : RefCountManager → String → Option FileRefCount
get_file_info rcm crc32 = lookup crc32 rcm.ref_count_map

unfoldable pub get_total_files : RefCountManager → ℕ
get_total_files rcm = length rcm.ref_count_map

abbrev pub sum_sizes : List (String × FileRefCount) → ℕ
sum_sizes [] = 0
sum_sizes ((k, e) ∷ m) = add64 e.size (sum_sizes m)

unfoldable pub get_total_size : RefCountManager → ℕ
get_total_size rcm = sum_sizes rcm.ref_count_map

unfoldable pub orphans : List (String × FileRefCount) → List FileRefCount
orphans [] = []
orphans ((k, e) ∷ m) = let rest = orphans m in if le64 e.ref_count 0 then e ∷ rest else rest

unfoldable pub list_orphaned_files : RefCountManager → List FileRefCount
list_orphaned_files rcm = orphans rcm.ref_count_map

unfoldable pub files_of_version : String → List (String × FileRefCount) → List FileRefCount
files_of_version version_id [] = []
files_of_version version_id ((k, e) ∷ m) =
    let rest = files_of_version version_id m in
    if contains e.versions version_id then e ∷ rest else rest

unfoldable pub get_version_files : RefCountManager → String → List FileRefCount
get_version_files rcm version_id = files_of_version version_id rcm.ref_count_map
