-- ===== src/Prelude/NoRepeat.antt =====
-- Lists of texts without a repetition, and the loops that find one with the set of those seen.
use mathlib.Core.Path.{◌≡◌, refl, sym, ◌∙◌}
use mathlib.Core.Logic.{◌↔◌}
use mathlib.Core.Bool.{false}
use mathlib.Core.List.{List, [], ◌∷◌, ◌++◌}
use Prim.Native.String.{String}
use native.Mathlib.Omega.{arith}
use text.Mathlib.TextEquality.{eq_iff}
use vearch.Prelude.Lists.{has_str, has_num, All}
use Prim.Native.Nat.{ℕ}

-- No text stands twice.
abbrev pub Nodup : List String → Type 0
Nodup [] = Unit
Nodup (x ∷ xs) = (has_str x xs ≡ false) × Nodup xs

-- None is among those seen.
abbrev pub NoneOf : List String → List String → Type 0
NoneOf seen xs = All (λ x. has_str x seen ≡ false) xs

-- Each is fresh when the loop comes to it.
abbrev pub Fresh : List String → List String → Type 0
Fresh seen [] = Unit
Fresh seen (x ∷ xs) = (has_str x seen ≡ false) × Fresh (x ∷ seen) xs

NoneOf-cons :
    (m : String) (seen xs : List String)
    → NoneOf (m ∷ seen) xs ↔ ((has_str m xs ≡ false) × NoneOf seen xs)
NoneOf-cons m seen [] = (λ h. (refl, tt), λ h. tt)
NoneOf-cons m seen (x ∷ xs) =
    let ih = NoneOf-cons m seen xs in
    (
      λ h. let r = ih.0 h.1 in (ground (arith, eq_iff m x, eq_iff x m), (ground arith, r.1)),
      λ h. (ground (arith, eq_iff m x, eq_iff x m), ih.1 (ground arith, h.1.1)),
    )

pub Fresh-iff : (seen xs : List String) → Fresh seen xs ↔ (Nodup xs × NoneOf seen xs)
Fresh-iff seen [] = (λ h. (tt, tt), λ h. tt)
Fresh-iff seen (x ∷ xs) =
    let ih = Fresh-iff (x ∷ seen) xs in
    let at = NoneOf-cons x seen xs in
    (
      λ h. let r = ih.0 h.1 in let s = at.0 r.1 in ((s.0, r.0), (h.0, s.1)),
      λ h. (h.1.0, ih.1 (h.0.1, at.1 (h.0.0, h.1.1))),
    )

NoneOf-nil : (xs : List String) → NoneOf [] xs
NoneOf-nil [] = tt
NoneOf-nil (x ∷ xs) = (refl, NoneOf-nil xs)

pub Fresh-nil : (xs : List String) → Fresh [] xs ↔ Nodup xs
Fresh-nil xs = (λ h. ((Fresh-iff [] xs).0 h).0, λ h. (Fresh-iff [] xs).1 (h, NoneOf-nil xs))

has_str-append-false :
    (k : String) (xs ys : List String)
    → has_str k xs ≡ false
    → has_str k ys ≡ false
    → has_str k (xs ++ ys) ≡ false
has_str-append-false k [] ys a b = b
has_str-append-false k (x ∷ xs) ys a b = let ih = has_str-append-false k xs ys in ground arith

-- Two lists with no text twice and none in common
pub Nodup-append : (xs ys : List String) → Nodup xs → Nodup ys → NoneOf xs ys → Nodup (xs ++ ys)
Nodup-append [] ys d e n = e
Nodup-append (x ∷ xs) ys d e n =
    let parts = (NoneOf-cons x xs ys).0 n in
    (has_str-append-false x xs ys d.0 parts.0, Nodup-append xs ys d.1 e parts.1)

-- The same texts are seen.
pub NoneOf-same :
    (seen others xs : List String)
    → ((k : String) → has_str k seen ≡ has_str k others)
    → NoneOf seen xs
    → NoneOf others xs
NoneOf-same seen others [] same n = tt
NoneOf-same seen others (x ∷ xs) same n = (sym (same x) ∙ n.0, NoneOf-same seen others xs same n.1)

-- The same for numbers
abbrev pub Distinct : List ℕ → Type 0
Distinct [] = Unit
Distinct (x ∷ xs) = (has_num x xs ≡ false) × Distinct xs
