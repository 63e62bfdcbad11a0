-- ===== src/Examples/Number.antt =====
-- Numbers under the prefix coding of internal/pkg/number/number.go, and the theorems at them.
use vearch.Prelude.{
  ℕ, ◌-◌, ◌*◌, ◌/◌, ◌^◌, List, [], ◌∷◌, ok, err, ErrorEnum, lt64, arith, ◌≡◌, ◌≢◌, refl,
}
use vearch.Number.{coded_bytes, new_prefix_coded_int64, shift_of, int64_of, float64_to_int64}
use vearch.Number.Digits.{goes_before}
use vearch.Number.Float.{float_less}
use vearch.Number.Coded.{int64_of-new_prefix_coded_int64, coded_bytes-order, float64_to_int64-order}

-- -2 and 300
abbrev minus_two : ℕ
minus_two = 2 ^ 64 - 2

-- 300 without its four lowest bits
coded_run : coded_bytes 300 4 ≡ 36 ∷ 8 ∷ 0 ∷ 0 ∷ 0 ∷ 0 ∷ 0 ∷ 0 ∷ 0 ∷ 18 ∷ []
unfolding coded_bytes
coded_run = refl

decoded_run : int64_of (36 ∷ 8 ∷ 0 ∷ 0 ∷ 0 ∷ 0 ∷ 0 ∷ 0 ∷ 0 ∷ 18 ∷ []) ≡ ok 288
unfolding int64_of
decoded_run = refl

-- The shift 63 is coded and not decoded.
last_shift_run :
    (new_prefix_coded_int64 300 63 ≡ ok (95 ∷ 1 ∷ []))
    × (int64_of (95 ∷ 1 ∷ []) ≡ err ErrorEnum.plain)
unfolding new_prefix_coded_int64 int64_of
last_shift_run = (refl, refl)

int64_of-new_prefix_coded_int64_example :
    (bytes : List ℕ) × (new_prefix_coded_int64 300 4 ≡ ok bytes)
    × (shift_of bytes ≡ ok 4)
    × (int64_of bytes ≡ ok (300 / 2 ^ 4 * 2 ^ 4))
int64_of-new_prefix_coded_int64_example =
    int64_of-new_prefix_coded_int64 300 4 (omega arith) (omega arith)

coded_bytes-order_example :
    goes_before (coded_bytes minus_two 4) (coded_bytes 300 4)
    ≡ lt64 (minus_two / 2 ^ 4 * 2 ^ 4) (300 / 2 ^ 4 * 2 ^ 4)
coded_bytes-order_example =
    coded_bytes-order minus_two 300 4 (omega arith) (omega arith) (omega arith)

-- 1.0 and -1.0
abbrev one : ℕ
one = 1023 * 2 ^ 52

abbrev minus_one : ℕ
minus_one = 3071 * 2 ^ 52

minus_one-nonzero : minus_one ≢ 2 ^ 63
minus_one-nonzero h = absurd (omega arith)

float64_to_int64-order_example :
    (lt64 (float64_to_int64 minus_one) (float64_to_int64 one) ≡ float_less minus_one one)
    × (goes_before
          (coded_bytes (float64_to_int64 minus_one) 0)
          (coded_bytes (float64_to_int64 one) 0)
        ≡ float_less minus_one one)
float64_to_int64-order_example =
    float64_to_int64-order minus_one one (omega arith) (omega arith) (omega arith) (omega arith)
      minus_one-nonzero
