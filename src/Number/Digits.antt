-- ===== src/Number/Digits.antt =====
-- The digits to the base 128 that internal/pkg/number/number.go stores, one a byte, and the numbers that it reads.
use vearch.Prelude.{
  ℕ, zero, suc, ◌+◌, ◌-◌, ◌*◌, ◌/◌, ◌%◌, ◌^◌, ◌≤◌, ◌<◌, List, [], ◌∷◌, Bool, true, false,
  Bool-cases, inl, inr, if◌then◌else◌, ltb, leb, All, length, key64, arith, ◌≡◌, refl, sym, ap, ◌∙◌,
}
use mathlib.Core.Path.{subst}
use native.Mathlib.Nat.{pow-suc, one-le-pow, add-mul-div_right, div-lt_iff_lt-mul}
use vearch.Number.{n_chars, store_chars, or_byte, read_bytes}

-- A number of at most n digits
abbrev pub Fits : ℕ → ℕ → Type 0
Fits zero v = v ≡ 0
Fits (suc n) v = Fits n (v / 2 ^ 7)

Fits-zero : (n : ℕ) → Fits n 0
Fits-zero zero = refl
Fits-zero (suc n) = Fits-zero n

-- A number of j bits fits where 7 bits for each digit are enough.
pub Fits-bits : (n j v : ℕ) → j ≤ 7 * n → v < 2 ^ j → Fits n v
Fits-bits zero zero v l h = omega arith
Fits-bits zero (suc j) v l h = absurd (omega arith)
Fits-bits (suc n) (suc (suc (suc (suc (suc (suc (suc j))))))) v l h =
    Fits-bits n j (v / 2 ^ 7) (omega arith) (omega arith)
Fits-bits (suc n) j v l h =
    let none_left : v / 2 ^ 7 ≡ 0 = omega arith in subst (Fits n) (sym none_left) (Fits-zero n)

or_byte-digit :
    (bits digit : ℕ) → digit < 2 ^ 7 → or_byte bits digit ≡ (bits * 2 ^ 7 + digit) % 2 ^ 64
unfolding or_byte
or_byte-digit bits digit h =
    let low : digit / 2 ^ 7 ≡ 0 = omega arith in
    let same : digit % 2 ^ 7 ≡ digit = omega arith in rw (low, same) (omega arith)

pub read_bytes-store_chars :
    (n v : ℕ) (stored : List ℕ)
    → Fits n v
    → read_bytes 0 (store_chars n v stored) ≡ read_bytes (v % 2 ^ 64) stored
unfolding read_bytes store_chars
read_bytes-store_chars zero v stored h = ap (λ w. read_bytes w stored) (omega arith)
read_bytes-store_chars (suc n) v stored h =
    read_bytes-store_chars n (v / 2 ^ 7) (v % 2 ^ 7 ∷ stored) h
    ∙ ap (λ w. read_bytes w stored)
        (or_byte-digit (v / 2 ^ 7 % 2 ^ 64) (v % 2 ^ 7) (omega arith) ∙ omega arith)

-- bytes.Compare: the byte strings in the order of their first difference
abbrev pub goes_before : List ℕ → List ℕ → Bool
goes_before [] [] = false
goes_before [] (y ∷ ys) = true
goes_before (x ∷ xs) [] = false
goes_before (x ∷ xs) (y ∷ ys) =
    if ltb x y then true else if ltb y x then false else goes_before xs ys

pub store_chars-order :
    (n v w : ℕ) (xs ys : List ℕ)
    → Fits n v
    → Fits n w
    → goes_before (store_chars n v xs) (store_chars n w ys)
      ≡ (if ltb v w then true else if ltb w v then false else goes_before xs ys)
unfolding store_chars
store_chars-order zero v w xs ys f g = let q = f ∙ sym g in ground arith
store_chars-order (suc n) v w xs ys f g =
    store_chars-order n (v / 2 ^ 7) (w / 2 ^ 7) (v % 2 ^ 7 ∷ xs) (w % 2 ^ 7 ∷ ys) f g ∙ ground arith

-- The length of what is stored, and 7 bits in each byte
pub store_chars-small :
    (n v : ℕ) (stored : List ℕ)
    → All (λ b. b < 2 ^ 7) stored
    → All (λ b. b < 2 ^ 7) (store_chars n v stored)
      × (length (store_chars n v stored) ≡ n + length stored)
unfolding store_chars
store_chars-small zero v stored h = (h, omega arith)
store_chars-small (suc n) v stored h =
    let rest = store_chars-small n (v / 2 ^ 7) (v % 2 ^ 7 ∷ stored) (omega arith, h) in
    (rest.0, rest.1 ∙ omega arith)

pub power_pos : (n : ℕ) → 0 < 2 ^ n
power_pos n = one-le-pow n 2 (omega arith)

power_add : (a b : ℕ) → 2 ^ a * 2 ^ b ≡ 2 ^ (a + b)
power_add zero b = grind arith
power_add (suc a) b =
    let before = power_add a b in
    let one_more : suc a + b ≡ suc (a + b) = omega arith in rw one_more (grind (arith, pow-suc))

-- A power of two that divides 2 ^ 63
pub power_split : (shift : ℕ) → shift ≤ 63 → 2 ^ (63 - shift) * 2 ^ shift ≡ 2 ^ 63
power_split shift h =
    let a = power_add (63 - shift) shift in
    let b : 63 - shift + shift ≡ 63 = omega arith in a ∙ ap (λ n. 2 ^ n) b

-- The sign bit turned around, without the lowest bits
pub key64-cut :
    (number p half : ℕ)
    → 0 < p
    → half * p ≡ 2 ^ 63
    → number < 2 ^ 64
    → key64 (number / p * p) ≡ key64 number / p * p
key64-cut number p half z e h = elim (Bool-cases (leb (2 ^ 63) number)) [
  | inl big ↦
      let low = number - 2 ^ 63 in
      let whole : number ≡ low + half * p = ground arith in
      let parts : number / p ≡ low / p + half =
        ap (λ n. n / p) whole ∙ add-mul-div_right low half z in
      let spread : (low / p + half) * p ≡ low / p * p + half * p = grind arith in
      let under : low / p * p ≤ low = grind arith in
      let turned : key64 number ≡ low = ground arith in rw (turned, parts, spread) (ground arith)
  | inr small ↦
      let parts : (number + half * p) / p ≡ number / p + half = add-mul-div_right number half z in
      let spread : (number / p + half) * p ≡ number / p * p + half * p = grind arith in
      let under : number / p * p ≤ number = grind arith in
      let turned : key64 number ≡ number + half * p = ground arith in
      rw (turned, parts, spread) (ground arith)
]

pub key64-Fits :
    (number shift : ℕ)
    → shift ≤ 63
    → number < 2 ^ 64
    → Fits (n_chars shift) (key64 number / 2 ^ shift)
unfolding n_chars
key64-Fits number shift l h =
    let split = power_split shift l in
    let pos = power_pos shift in
    let size : key64 number < 2 ^ 64 = omega arith in
    let twice : 2 ^ suc (63 - shift) * 2 ^ shift ≡ 2 ^ 64 =
      ap (λ q. q * 2 ^ shift) (pow-suc 2 (63 - shift)) ∙ grind arith in
    Fits-bits ((63 - shift) / 7 + 1) (suc (63 - shift)) (key64 number / 2 ^ shift) (omega arith)
      ((div-lt_iff_lt-mul pos).1 (rw twice size))
