-- ===== src/Number/Coded.antt =====
-- What the prefix coding of internal/pkg/number/number.go keeps of a number: its leading bits and its order.
use vearch.Prelude.{
  ℕ, suc, ◌+◌, ◌-◌, ◌*◌, ◌/◌, ◌%◌, ◌^◌, ◌≤◌, ◌<◌, List, [], ◌∷◌, Bool, true, false, Bool-cases, inl,
  inr, ok, err, ErrorEnum, ◌>>=◌, done, if◌then◌else◌, ltb, leb, All, length, key64, lt64, arith,
  ◌≡◌, ◌≢◌, refl, sym, ap, ◌∙◌,
}
use native.Mathlib.Nat.{mul-lt-mul_of_pos_right}
use vearch.Number.{
  shift_start_flag, n_chars, store_chars, coded_bytes, new_prefix_coded_int64, or_panic,
  check_shift, shift_of, read_bytes, tail_of, int64_of, turn_low, float64_to_int64,
  int64_to_float64, prefix_coded_float64, float64_of,
}
use vearch.Number.Float.{magnitude-order, magnitude-pos, float_less, IsNumber}
use vearch.Number.Digits.{
  read_bytes-store_chars, goes_before, store_chars-order, store_chars-small, power_split, power_pos,
  key64-cut, key64-Fits,
}

-- The first byte gives the shift back.
shift_of-coded_bytes :
    (number shift : ℕ) → shift < 63 → shift_of (coded_bytes number shift) ≡ ok shift
unfolding shift_of check_shift coded_bytes
shift_of-coded_bytes number shift h =
    let same : ((shift_start_flag + shift) % 2 ^ 8 + 2 ^ 8 - shift_start_flag) % 2 ^ 8 ≡ shift =
      omega arith in
    rw same (ground arith)

read_bytes-coded_bytes :
    (number shift : ℕ)
    → shift ≤ 63
    → number < 2 ^ 64
    → read_bytes 0 (tail_of (coded_bytes number shift)) ≡ key64 number / 2 ^ shift
unfolding tail_of coded_bytes read_bytes
read_bytes-coded_bytes number shift l h =
    let under : key64 number / 2 ^ shift ≤ key64 number = grind arith in
    read_bytes-store_chars (n_chars shift) (key64 number / 2 ^ shift) []
      (key64-Fits number shift l h)
    ∙ omega arith

int64_of-coded_bytes :
    (number shift : ℕ)
    → shift < 63
    → number < 2 ^ 64
    → int64_of (coded_bytes number shift) ≡ ok (number / 2 ^ shift * 2 ^ shift)
unfolding int64_of
int64_of-coded_bytes number shift l h =
    let cut =
      key64-cut number (2 ^ shift) (2 ^ (63 - shift)) (power_pos shift)
        (power_split shift (omega arith)) h in
    let kept = number / 2 ^ shift * 2 ^ shift in
    let under : kept ≤ number = grind arith in
    rw
      (
        shift_of-coded_bytes number shift l,
        read_bytes-coded_bytes number shift (omega arith) h,
        sym cut,
      )
      (ap (λ n. ok n) (omega arith))

-- A number that is coded with a shift below 63 is decoded to the number without its lowest bits, as many as the
-- shift says, and the shift is read back. Conditions: the number is a pattern of 64 bits.
pub int64_of-new_prefix_coded_int64 :
    (number shift : ℕ)
    → shift < 63
    → number < 2 ^ 64
    → (bytes : List ℕ) × (new_prefix_coded_int64 number shift ≡ ok bytes)
      × (shift_of bytes ≡ ok shift)
      × (int64_of bytes ≡ ok (number / 2 ^ shift * 2 ^ shift))
unfolding new_prefix_coded_int64
int64_of-new_prefix_coded_int64 number shift l h = (
  coded_bytes number shift,
  (let within : ltb 63 shift ≡ false = ground arith in rw within refl),
  shift_of-coded_bytes number shift l,
  int64_of-coded_bytes number shift l h,
)

same_head : (x : ℕ) (xs ys : List ℕ) → goes_before (x ∷ xs) (x ∷ ys) ≡ goes_before xs ys
same_head x xs ys = let no : ltb x x ≡ false = ground arith in rw no refl

scaled :
    (v w p : ℕ)
    → 0 < p
    → (if ltb v w then true else if ltb w v then false else false) ≡ ltb (v * p) (w * p)
scaled v w p z = elim (Bool-cases (ltb v w)) [
  | inl less ↦
      let l : v < w = ground arith in
      let m : v * p < w * p = mul-lt-mul_of_pos_right l z in ground arith
  | inr more ↦ let l : w ≤ v = ground arith in let m : w * p ≤ v * p = grind arith in ground arith
]

-- Two numbers that are coded with one shift go as their codes do: the code of one is before that of the other, byte
-- by byte, exactly if its number without the lowest bits, as many as the shift says, is the smaller int64.
-- Conditions: the shift is at most 63, and both are patterns of 64 bits.
pub coded_bytes-order :
    (a b shift : ℕ)
    → shift ≤ 63
    → a < 2 ^ 64
    → b < 2 ^ 64
    → goes_before (coded_bytes a shift) (coded_bytes b shift)
      ≡ lt64 (a / 2 ^ shift * 2 ^ shift) (b / 2 ^ shift * 2 ^ shift)
unfolding coded_bytes
coded_bytes-order a b shift l h k =
    let p = 2 ^ shift in
    let cut_a = key64-cut a p (2 ^ (63 - shift)) (power_pos shift) (power_split shift l) h in
    let cut_b = key64-cut b p (2 ^ (63 - shift)) (power_pos shift) (power_split shift l) k in
    let digits =
      store_chars-order (n_chars shift) (key64 a / p) (key64 b / p) [] [] (key64-Fits a shift l h)
        (key64-Fits b shift l k) in
    rw (cut_a, cut_b)
      (same_head ((shift_start_flag + shift) % 2 ^ 8) (store_chars (n_chars shift) (key64 a / p) [])
          (store_chars (n_chars shift) (key64 b / p) [])
        ∙ digits
        ∙ scaled (key64 a / p) (key64 b / p) p (power_pos shift))

-- Every code has one byte for the shift and one for each 7 bits that are left of 64, each below 128, so that it is
-- valid UTF-8. Condition: the shift is at most 63.
pub coded_bytes-small :
    (number shift : ℕ)
    → shift ≤ 63
    → All (λ b. b < 2 ^ 7) (coded_bytes number shift)
      × (length (coded_bytes number shift) ≡ (63 - shift) / 7 + 2)
unfolding coded_bytes n_chars
coded_bytes-small number shift l =
    let rest = store_chars-small ((63 - shift) / 7 + 1) (key64 number / 2 ^ shift) [] tt in
    ((omega arith, rest.0), ap suc rest.1 ∙ omega arith)

-- A number that is coded with the shift 63, the greatest that the coder accepts, is refused by the decoder.
pub int64_of-last_shift :
    (number : ℕ)
    → (new_prefix_coded_int64 number 63 ≡ ok (coded_bytes number 63))
      × (int64_of (coded_bytes number 63) ≡ err ErrorEnum.plain)
unfolding new_prefix_coded_int64 int64_of shift_of check_shift coded_bytes
int64_of-last_shift number = (refl, refl)

turn_low-twice : (bits : ℕ) → bits < 2 ^ 64 → turn_low (turn_low bits) ≡ bits
unfolding turn_low
turn_low-twice bits h = ground arith

turn_low-pattern : (bits : ℕ) → bits < 2 ^ 64 → turn_low bits < 2 ^ 64
unfolding turn_low
turn_low-pattern bits h = ground arith

-- A float64 that is coded with the shift 0 is decoded to itself, bit by bit. Condition: it is a pattern of 64 bits.
pub float64_of-prefix_coded_float64 :
    (bits : ℕ)
    → bits < 2 ^ 64
    → (bytes : List ℕ) × (prefix_coded_float64 bits 0 ≡ done bytes) × (float64_of bytes ≡ ok bits)
unfolding prefix_coded_float64 or_panic new_prefix_coded_int64 float64_of float64_to_int64
    int64_to_float64
float64_of-prefix_coded_float64 bits h =
    let number = turn_low bits in
    let whole : number / 2 ^ 0 * 2 ^ 0 ≡ number = omega arith in
    (
      coded_bytes number 0,
      refl,
      ap (λ r. r >>= λ i64. ok (turn_low i64))
            (int64_of-coded_bytes number 0 (omega arith) (turn_low-pattern bits h)
              ∙ ap (λ n. ok n) whole)
          ∙ ap (λ n. ok n) (turn_low-twice bits h),
    )

-- The patterns by sign and size, in which the negative zero is below the positive
abbrev float_before : ℕ → ℕ → Bool
float_before a b =
    if leb (2 ^ 63) a
    then (if leb (2 ^ 63) b then ltb b a else true)
    else if leb (2 ^ 63) b
    then false
    else ltb a b

turn_low-order :
    (a b : ℕ) → a < 2 ^ 64 → b < 2 ^ 64 → lt64 (turn_low a) (turn_low b) ≡ float_before a b
unfolding turn_low
turn_low-order a b h k = ground arith

float_before-less :
    (a b : ℕ) → a < 2 ^ 64 → b < 2 ^ 64 → a ≢ 2 ^ 63 → float_before a b ≡ float_less a b
float_before-less a b h k n = elim (Bool-cases (leb (2 ^ 63) a)) [
  | inl minus ↦ elim (Bool-cases (leb (2 ^ 63) b)) [
    | inl less ↦ let order = magnitude-order (b - 2 ^ 63) (a - 2 ^ 63) in ground arith
    | inr more ↦
        let low : 0 < a - 2 ^ 63 = ground (arith, n) in
        let big = magnitude-pos (a - 2 ^ 63) low in ground arith
  ]
  | inr plus ↦ let order = magnitude-order a b in ground arith
]

-- Of two floats, the first is less than the second exactly if the int64 value it is turned into is, and exactly if
-- its code with the shift 0 is before that of the second, byte by byte. The floats are compared by the real
-- numbers that IEEE 754 lets them stand for, the infinities beyond all others. Conditions: both are patterns of
-- 64 bits, neither is a NaN, and the first is not the negative zero, which equals the positive as a float and goes
-- before it as an int64.
pub float64_to_int64-order :
    (a b : ℕ)
    → a < 2 ^ 64
    → b < 2 ^ 64
    → IsNumber a
    → IsNumber b
    → a ≢ 2 ^ 63
    → (lt64 (float64_to_int64 a) (float64_to_int64 b) ≡ float_less a b)
      × (goes_before (coded_bytes (float64_to_int64 a) 0) (coded_bytes (float64_to_int64 b) 0)
          ≡ float_less a b)
unfolding float64_to_int64
float64_to_int64-order a b h k _ _ n =
    let both = turn_low-order a b h k ∙ float_before-less a b h k n in
    let whole = λ (n : ℕ). let r : n / 2 ^ 0 * 2 ^ 0 ≡ n = omega arith in r in
    (
      both,
      coded_bytes-order (turn_low a) (turn_low b) 0 (omega arith) (turn_low-pattern a h)
            (turn_low-pattern b k)
          ∙ ap (λ n. lt64 n (turn_low b / 2 ^ 0 * 2 ^ 0)) (whole (turn_low a))
          ∙ ap (λ n. lt64 (turn_low a) n) (whole (turn_low b))
          ∙ both,
    )
