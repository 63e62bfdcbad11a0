-- ===== src/Number/Float.antt =====
-- What a float64 pattern stands for, by IEEE 754: the order that the coding of internal/pkg/number/number.go keeps.
use vearch.Prelude.{
  ℕ, zero, suc, ◌+◌, ◌-◌, ◌*◌, ◌/◌, ◌%◌, ◌^◌, ◌≤◌, ◌<◌, Bool, false, Bool-cases, inl, inr,
  if◌then◌else◌, ltb, leb, arith, ◌≡◌, ap,
}
use native.Mathlib.Nat.{pow-suc, one-le-pow, pow-le-pow_right, mul-lt-mul_of_pos_right}

-- A fraction with the exponent bits, in units of the smallest positive float: the exponent 0 has no leading 1.
abbrev scaled_up : ℕ → ℕ → ℕ
scaled_up zero fraction = fraction
scaled_up (suc exponent) fraction = (2 ^ 52 + fraction) * 2 ^ exponent

-- The absolute value of a pattern without its sign, in those units
abbrev pub magnitude : ℕ → ℕ
magnitude bits = scaled_up (bits / 2 ^ 52) (bits % 2 ^ 52)

-- No NaN: all exponent bits are set in infinity at most.
abbrev pub IsNumber : ℕ → Type 0
IsNumber bits = bits % 2 ^ 63 ≤ 2047 * 2 ^ 52

-- a < b, as Go compares two floats that are no NaN
abbrev pub float_less : ℕ → ℕ → Bool
float_less a b =
    if leb (2 ^ 63) a
    then (if leb (2 ^ 63) b
        then ltb (magnitude (b - 2 ^ 63)) (magnitude (a - 2 ^ 63))
        else ltb 0 (magnitude (a - 2 ^ 63) + magnitude b))
    else if leb (2 ^ 63) b
    then false
    else ltb (magnitude a) (magnitude b)

scaled_up-below : (e m : ℕ) → m < 2 ^ 52 → scaled_up e m < 2 ^ 52 * 2 ^ e
scaled_up-below zero m h = omega arith
scaled_up-below (suc e) m h =
    let small : 2 ^ 52 + m < 2 ^ 53 = omega arith in
    let pos : 0 < 2 ^ e = one-le-pow e 2 (omega arith) in
    let below : (2 ^ 52 + m) * 2 ^ e < 2 ^ 53 * 2 ^ e = mul-lt-mul_of_pos_right small pos in
    omega (arith, pow-suc 2 e)

scaled_up-same : (e m n : ℕ) → m < n → scaled_up e m < scaled_up e n
scaled_up-same zero m n h = h
scaled_up-same (suc e) m n h =
    let less : 2 ^ 52 + m < 2 ^ 52 + n = omega arith in
    mul-lt-mul_of_pos_right less (one-le-pow e 2 (omega arith))

scaled_up-more : (e f m n : ℕ) → e < f → m < 2 ^ 52 → scaled_up e m < scaled_up f n
scaled_up-more e zero m n h k = absurd (omega arith)
scaled_up-more e (suc f) m n h k =
    let below = scaled_up-below e m k in
    let two : 0 < 2 = omega arith in
    let within : e ≤ f = omega arith in
    let power : 2 ^ e ≤ 2 ^ f = pow-le-pow_right two within in
    let split : (2 ^ 52 + n) * 2 ^ f ≡ 2 ^ 52 * 2 ^ f + n * 2 ^ f = grind arith in
    omega (arith, below, power, split)

magnitude-less : (a b : ℕ) → a < b → magnitude a < magnitude b
magnitude-less a b h = elim (Bool-cases (ltb (a / 2 ^ 52) (b / 2 ^ 52))) [
  | inl less ↦
      scaled_up-more (a / 2 ^ 52) (b / 2 ^ 52) (a % 2 ^ 52) (b % 2 ^ 52) (ground arith)
        (omega arith)
  | inr more ↦
      let same : b / 2 ^ 52 ≡ a / 2 ^ 52 = ground arith in
      rw same (scaled_up-same (a / 2 ^ 52) (a % 2 ^ 52) (b % 2 ^ 52) (omega (arith, same)))
]

pub magnitude-order : (a b : ℕ) → ltb a b ≡ ltb (magnitude a) (magnitude b)
magnitude-order a b = elim (Bool-cases (ltb a b)) [
  | inl less ↦ let l = magnitude-less a b (ground arith) in ground arith
  | inr more ↦ elim (Bool-cases (ltb b a)) [
    | inl turned ↦ let l = magnitude-less b a (ground arith) in ground arith
    | inr other ↦
        let same : a ≡ b = ground arith in
        let equal : magnitude a ≡ magnitude b = ap magnitude same in ground arith
  ]
]

pub magnitude-pos : (a : ℕ) → 0 < a → 0 < magnitude a
magnitude-pos a h = magnitude-less 0 a h
