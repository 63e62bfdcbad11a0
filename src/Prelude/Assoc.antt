-- ===== src/Prelude/Assoc.antt =====
-- Go maps with string or number keys, as association lists. A key stands at most once in a map that
-- `insert` built; the order of the entries stands for the iteration order, which Go leaves open.
use mathlib.Core.Option.{Option, none, some}
use mathlib.Core.Path.{◌≡◌, refl}
use mathlib.Core.List.{List, [], ◌∷◌}
use Prim.Native.String.{String}
use native.Mathlib.Omega.{arith}
use text.Mathlib.Text.{◌==◌ as str_eq}
use text.Mathlib.TextEquality.{eq_iff}
use vearch.Prelude.Tests.{if◌then◌else◌}

module _ {ℓ} {V : Type ℓ} where
  -- m[k] with its `ok`
  abbrev pub lookup : String → List (String × V) → Option V
  lookup k [] = none
  lookup k ((j, v) ∷ m) = if str_eq j k then some v else lookup k m

  -- delete(m, k)
  abbrev pub erase : String → List (String × V) → List (String × V)
  erase k [] = []
  erase k ((j, w) ∷ m) = let rest = erase k m in if str_eq j k then rest else (j, w) ∷ rest

  -- m[k] = v
  abbrev pub insert : String → V → List (String × V) → List (String × V)
  insert k v [] = (k, v) ∷ []
  insert k v (entry ∷ rest) = if str_eq entry.0 k then (k, v) ∷ rest else entry ∷ insert k v rest

  pub lookup-insert :
      (key other : String) (value : V) (entries : List (String × V))
      → lookup other (insert key value entries)
        ≡ (if str_eq key other then some value else lookup other entries)
  lookup-insert key other value [] = refl
  lookup-insert key other value ((first, held) ∷ entries) =
      let rest = lookup-insert key other value entries in
      ground (arith, eq_iff first key, eq_iff key other, eq_iff first other)

  pub lookup-erase :
      (key other : String) (entries : List (String × V))
      → lookup other (erase key entries) ≡ (if str_eq key other then none else lookup other entries)
  lookup-erase key other [] = ground arith
  lookup-erase key other ((first, held) ∷ entries) =
      let rest = lookup-erase key other entries in
      ground (arith, eq_iff first key, eq_iff key other, eq_iff first other)
