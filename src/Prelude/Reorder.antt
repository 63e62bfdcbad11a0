-- ===== src/Prelude/Reorder.antt =====
-- Lists in another order: the order in which Go goes over a map is left open.
use mathlib.Core.Path.{◌≡◌, refl, sym, ◌∙◌, subst}
use mathlib.Core.Bool.{false}
use mathlib.Core.List.{List, ◌∷◌}
use mathlib.Core.List.{Permᴰ}
use Prim.Native.String.{String}
use native.Mathlib.Omega.{arith}
use text.Mathlib.TextEquality.{eq_iff}
use vearch.Prelude.Lists.{has_str, All}
use vearch.Prelude.NoRepeat.{Nodup}

pub All-perm {ℓ κ} :
    {A : Type ℓ} (P : A → Type κ) {xs ys : List A} → Permᴰ xs ys → All P xs → All P ys
All-perm P Permᴰ.nil h = tt
All-perm P (Permᴰ.cons e p) h = (subst P e h.0, All-perm P p h.1)
All-perm P (Permᴰ.swap {l} d e) h = (subst P e h.1.0, (subst P d h.0, h.1.1))
All-perm P (Permᴰ.trans p q) h = All-perm P q (All-perm P p h)

has_str-perm : (k : String) {xs ys : List String} → Permᴰ xs ys → has_str k xs ≡ has_str k ys
has_str-perm k Permᴰ.nil = refl
has_str-perm k (Permᴰ.cons e p) = let ih = has_str-perm k p in rw (e, ih) refl
has_str-perm k (Permᴰ.swap d e) = rw (d, e) (ground arith)
has_str-perm k (Permᴰ.trans p q) = has_str-perm k p ∙ has_str-perm k q

pub Nodup-perm : {xs ys : List String} → Permᴰ xs ys → Nodup xs → Nodup ys
Nodup-perm Permᴰ.nil h = tt
Nodup-perm (Permᴰ.cons {a} {b} {l₁} {l₂} e p) h =
    (sym (has_str-perm b p) ∙ subst (λ x. has_str x l₁ ≡ false) e h.0, Nodup-perm p h.1)
Nodup-perm (Permᴰ.swap {a} {b} {a'} {b'} {l} d e) h = (
  subst (λ x. has_str x (b' ∷ l) ≡ false) e
      (subst (λ x. has_str b (x ∷ l) ≡ false) d
        (ground (arith, eq_iff b a, eq_iff a b, h.0, h.1.0))),
  (subst (λ x. has_str x l ≡ false) d (ground (arith, h.0)), h.1.1),
)
Nodup-perm (Permᴰ.trans p q) h = Nodup-perm q (Nodup-perm p h)
