-- ===== src/Backup/Waits.antt =====
-- When RemoveVersionReferences waits forever: RemoveReference of internal/ps/backup/ref_count_manager.go
-- saves the counts while it holds the mutex that the saving locks.
use vearch.Prelude.{
  String, List, [], ◌∷◌, Bool, true, false, Bool-cases, inl, inr, ◌⊎◌, Option, none, some, Result,
  ok, has_str, str_eq, eq_iff, eq_refl, le64, arith, ◌≡◌, refl, sym, ◌∙◌,
}
use mathlib.Core.Path.{subst}
use vearch.Prelude.Assoc.{lookup}
use vearch.Backup.{
  FileRefCount, RefCountManager, Run, returned, waits, contains, acquire, and_run, save_to_s3_impl,
  release, release_lock, put_released, removed, remove_reference, remove_loop, files_to_remove,
  remove_version_references,
}

-- A Go map: no key stands twice.
abbrev pub IsMap : List (String × FileRefCount) → Type 0
IsMap [] = Unit
IsMap ((k, e) ∷ m) = (lookup k m ≡ none) × IsMap m

-- Whether the file is known and held by the version
unfoldable pub holds : String → Option FileRefCount → Bool
holds version none = false
holds version (some e) = contains e.versions version

has_str-files_to_remove :
    (version k : String) (m : List (String × FileRefCount))
    → IsMap m
    → has_str k (files_to_remove version m) ≡ holds version (lookup k m)
unfolding files_to_remove holds
has_str-files_to_remove version k [] u = refl
has_str-files_to_remove version k ((j, e) ∷ m) u =
    let ih = has_str-files_to_remove version k m u.1 in
    elim (Bool-cases (str_eq j k)) [
      | inl s ↦
          let gone : lookup k m ≡ none = subst (λ i. lookup i m ≡ none) ((eq_iff j k).0 s) u.0 in
          ground (arith, ih)
      | inr s ↦ ground (arith, ih)
    ]

holds-some :
    (version : String) (o : Option FileRefCount)
    → holds version o ≡ true
    → (e : FileRefCount) × (o ≡ some e) × (contains e.versions version ≡ true)
unfolding holds
holds-some version none h = absurd cc
holds-some version (some e) h = (e, refl, h)

put_released-locked :
    (crc : String) (e : FileRefCount) (rcm : RefCountManager)
    → (put_released crc e rcm).locked ≡ rcm.locked
unfolding put_released
put_released-locked crc e rcm = elim (Bool-cases (le64 e.ref_count 0)) [
  | inl s ↦ rw (s) refl
  | inr s ↦ rw (s) refl
]

module _ (upload : List (String × FileRefCount) → Result (Unit {0})) where
  -- The mutex is held where a call waits.
  abbrev pub Waiting : {A : Type 0} → Run A → Type 0
  Waiting run = (after : RefCountManager) × (run ≡ waits after) × (after.locked ≡ true)

  -- RemoveReference of a file that is known
  remove_reference-Waiting :
      (rcm : RefCountManager) (crc version : String) (e : FileRefCount)
      → rcm.locked ≡ false
      → lookup crc rcm.ref_count_map ≡ some e
      → Waiting (remove_reference upload rcm crc version)
  unfolding remove_reference acquire and_run removed save_to_s3_impl
  remove_reference-Waiting rcm crc version e free known =
      let held : RefCountManager = record rcm { locked = true } in
      let after = put_released crc (release version e) held in
      let kept : after.locked ≡ true = put_released-locked crc (release version e) held in
      (after, rw (free, known, kept) refl, kept)

  remove_loop-Waiting :
      (files : List String) (crc version : String) (rcm : RefCountManager) (e : FileRefCount)
      → rcm.locked ≡ false
      → lookup crc rcm.ref_count_map ≡ some e
      → Waiting (remove_loop upload (crc ∷ files) version rcm)
  unfolding remove_loop and_run
  remove_loop-Waiting files crc version rcm e free known =
      let first = remove_reference-Waiting rcm crc version e free known in
      (first.0, rw (first.1) refl, first.2)

  -- The loop waits at its first file, if it has one.
  remove_loop-cases :
      (files : List String) (version : String) (rcm : RefCountManager)
      → rcm.locked ≡ false
      → ((k : String) → has_str k files ≡ holds version (lookup k rcm.ref_count_map))
      → ((crc : String) × (holds version (lookup crc rcm.ref_count_map) ≡ true)
          × Waiting (remove_loop upload files version rcm))
        ⊎ ((remove_loop upload files version rcm ≡ returned (0, rcm))
            × ((k : String) → holds version (lookup k rcm.ref_count_map) ≡ false))
  unfolding remove_loop
  remove_loop-cases [] version rcm free h = inr (refl, λ k. sym (h k))
  remove_loop-cases (crc ∷ files) version rcm free h =
      let here : has_str crc (crc ∷ files) ≡ true = ground (arith, eq_refl crc) in
      let held : holds version (lookup crc rcm.ref_count_map) ≡ true = sym (h crc) ∙ here in
      let known = holds-some version (lookup crc rcm.ref_count_map) held in
      inl (crc, held, remove_loop-Waiting files crc version rcm known.0 free known.1)

  -- RemoveVersionReferences, called where nobody holds the mutex of the manager: if a file is held by the version, the
  -- call never returns, and the mutex stays held for writing, so that every other call waits too; if no file
  -- is, it returns without an error and leaves all as it was. Condition: the map is a map.
  pub remove_version_references_cases :
      (rcm : RefCountManager) (version : String)
      → IsMap rcm.ref_count_map
      → rcm.locked ≡ false
      → ((crc : String) × (holds version (lookup crc rcm.ref_count_map) ≡ true)
          × Waiting (remove_version_references upload rcm version))
        ⊎ ((remove_version_references upload rcm version
              ≡ returned (ok tt, record rcm { locked = false }))
            × ((k : String) → holds version (lookup k rcm.ref_count_map) ≡ false))
  unfolding remove_version_references acquire and_run release_lock
  remove_version_references_cases rcm version m free =
      let files = files_to_remove version rcm.ref_count_map in
      let loop =
        remove_loop-cases files version (record rcm { locked = false }) refl
          (λ k. has_str-files_to_remove version k rcm.ref_count_map m) in
      elim loop [
        | inl (crc, held, (after, stuck, kept)) ↦
            inl (crc, held, (after, rw (free, stuck) refl, kept))
        | inr (run, none_held) ↦ inr (rw (free, run) refl, none_held)
      ]
