-- ===== src/Prelude/Errors.antt =====
-- The error codes of internal/proto/vearchpb that the modelled code raises, and results that may be
-- such an error. The text of a message is not kept.
use mathlib.Core.Bool.{Bool, true, false}
use mathlib.Core.Path.{◌≡◌, refl}
use mathlib.Core.Logic.{◌⊎◌, ◌↔◌, inl, inr}

-- `plain` stands for an error that carries no code of the enumeration (fmt.Errorf, errors.New).
pub data ErrorEnum : Type 0 where
  param_error internal_error authentication_failed role_exist role_not_exist alias_exist
        alias_not_exist user_not_exist partition_is_closed partition_is_invalid partition_not_leader
        master_ps_not_enough_select space_not_exist partition_resource_exhausted plain :
      ErrorEnum

pub data Result {ℓ} (A : Type ℓ) : Type ℓ where
  ok : A → Result A
  err : ErrorEnum → Result A

-- `if test { return err }`
abbrev pub fail_if : Bool → ErrorEnum → Result (Unit {0})
fail_if false code = ok tt
fail_if true code = err code

-- `if err != nil { return err }`, before the rest
infixl 5 ◌>>=◌
abbrev pub ◌>>=◌ {ℓ κ} : {A : Type ℓ} {B : Type κ} → Result A → (A → Result B) → Result B
err code >>= rest = err code
ok value >>= rest = rest value

infixl 5 ◌>>◌
abbrev pub ◌>>◌ {ℓ} : {B : Type ℓ} → Result (Unit {0}) → Result B → Result B
check >> rest = check >>= λ _. rest

-- What a run of Go code comes to where it may also panic or, in the model, use up its fuel.
pub data Outcome {ℓ} (A : Type ℓ) : Type ℓ where
  done : A → Outcome A
  failed : ErrorEnum → Outcome A
  panic : Outcome A
  out_of_fuel : Outcome A

-- Goes on with the value of a run that is done.
abbrev pub and_then {ℓ κ} : {A : Type ℓ} {B : Type κ} → Outcome A → (A → Outcome B) → Outcome B
and_then (done a) f = f a
and_then (failed e) f = failed e
and_then panic f = panic
and_then out_of_fuel f = out_of_fuel

pub Result-cases {ℓ} :
    {A : Type ℓ} (r : Result A) → ((a : A) × (r ≡ ok a)) ⊎ ((e : ErrorEnum) × (r ≡ err e))
Result-cases (ok a) = inl (a, refl)
Result-cases (err e) = inr (e, refl)

-- A chain that succeeds has succeeded at each link.
pub bind-ok {ℓ κ} :
    {From : Type ℓ} {To : Type κ} (first : Result From) (next : From → Result To) {end : To}
    → (first >>= next) ≡ ok end
    → (mid : From) × (first ≡ ok mid) × (next mid ≡ ok end)
bind-ok (err code) next h = cc
bind-ok (ok mid) next h = (mid, refl, h)

-- What it takes for a check, and for two in a row, to pass.
pub fail_if_iff : (b : Bool) (e : ErrorEnum) → (fail_if b e ≡ ok tt) ↔ (b ≡ false)
fail_if_iff true e = (λ h. cc, λ h. cc)
fail_if_iff false e = (λ h. refl, λ h. refl)

pub >>-iff : (m n : Result (Unit {0})) → ((m >> n) ≡ ok tt) ↔ ((m ≡ ok tt) × (n ≡ ok tt))
>>-iff (ok tt) n = (λ h. (refl, h), λ h. h.1)
>>-iff (err e) n = (λ h. absurd cc, λ h. absurd cc)

-- A result in code that may also panic
abbrev pub lift {ℓ} : {A : Type ℓ} → Result A → Outcome A
lift (ok a) = done a
lift (err e) = failed e

pub lift-done {ℓ} : {A : Type ℓ} (r : Result A) {a : A} → lift r ≡ done a → r ≡ ok a
lift-done (ok a) h = cc
lift-done (err e) h = cc

-- A run that is done has done both its parts.
pub and_then-done {ℓ κ} :
    {From : Type ℓ} {To : Type κ} (first : Outcome From) (next : From → Outcome To) {end : To}
    → and_then first next ≡ done end
    → (mid : From) × (first ≡ done mid) × (next mid ≡ done end)
and_then-done (done mid) next h = (mid, refl, h)
and_then-done (failed e) next h = cc
and_then-done panic next h = cc
and_then-done out_of_fuel next h = cc
