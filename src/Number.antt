-- ===== src/Number.antt =====
-- The prefix coding of numbers: internal/pkg/number/number.go. An int64 and a float64 are their bit patterns, a byte is
-- a number below 256. The exclusive or with 0x8000000000000000 is key64, which turns the sign bit around.
pub mod Digits
pub mod Float
pub mod Coded
use vearch.Prelude.{
  ℕ, zero, suc, ◌+◌, ◌-◌, ◌*◌, ◌/◌, ◌%◌, ◌^◌, List, [], ◌∷◌, Result, ok, err, ErrorEnum, ◌>>=◌,
  Outcome, done, panic, if◌then◌else◌, ltb, leb, key64,
}

abbrev pub shift_start_flag : ℕ
shift_start_flag = 32

-- nChars
unfoldable pub n_chars : ℕ → ℕ
n_chars shift = (63 - shift) / 7 + 1

-- The loop that stores 7 bits per byte, from the last byte on, before the bytes that are stored
unfoldable pub store_chars : ℕ → ℕ → List ℕ → List ℕ
store_chars zero sort_bits stored = stored
store_chars (suc n) sort_bits stored =
    store_chars n (sort_bits / 2 ^ 7) (sort_bits % 2 ^ 7 ∷ stored)

-- The bytes that NewPrefixCodedInt64 makes once the shift is checked
unfoldable pub coded_bytes : ℕ → ℕ → List ℕ
unfolding n_chars store_chars
coded_bytes number shift =
    (shift_start_flag + shift) % 2 ^ 8 ∷ store_chars (n_chars shift) (key64 number / 2 ^ shift) []

unfoldable pub new_prefix_coded_int64 : ℕ → ℕ → Result (List ℕ)
unfolding coded_bytes
new_prefix_coded_int64 number shift =
    if ltb 63 shift then err ErrorEnum.plain else ok (coded_bytes number shift)

unfoldable pub or_panic {ℓ} : {A : Type ℓ} → Result A → Outcome A
or_panic (err e) = panic
or_panic (ok a) = done a

unfoldable pub prefix_coded_int64 : ℕ → ℕ → Outcome (List ℕ)
unfolding new_prefix_coded_int64 or_panic
prefix_coded_int64 number shift = or_panic (new_prefix_coded_int64 number shift)

-- Value.Shift
unfoldable pub check_shift : ℕ → Result ℕ
check_shift shift = if ltb shift 63 then ok shift else err ErrorEnum.plain

unfoldable pub shift_of : List ℕ → Result ℕ
unfolding check_shift
shift_of [] = err ErrorEnum.plain
shift_of (byte ∷ bytes) = check_shift ((byte + 2 ^ 8 - shift_start_flag) % 2 ^ 8)

-- sortableBits <<= 7 and sortableBits |= int64(inbyte): the top bit of the byte meets the lowest bit of sortableBits.
unfoldable pub or_byte : ℕ → ℕ → ℕ
or_byte sortable_bits byte =
    ((sortable_bits + byte / 2 ^ 7 * ((sortable_bits + 1) % 2)) * 2 ^ 7 + byte % 2 ^ 7) % 2 ^ 64

unfoldable pub read_bytes : ℕ → List ℕ → ℕ
unfolding or_byte
read_bytes sortable_bits [] = sortable_bits
read_bytes sortable_bits (byte ∷ bytes) = read_bytes (or_byte sortable_bits byte) bytes

-- p[1:]
unfoldable pub tail_of : List ℕ → List ℕ
tail_of [] = []
tail_of (byte ∷ bytes) = bytes

-- Value.Int64
unfoldable pub int64_of : List ℕ → Result ℕ
unfolding shift_of read_bytes tail_of
int64_of bytes =
    shift_of bytes >>= λ shift. ok (key64 (read_bytes 0 (tail_of bytes) * 2 ^ shift % 2 ^ 64))

-- The exclusive or with 0x7fffffffffffffff of a negative pattern
unfoldable pub turn_low : ℕ → ℕ
turn_low bits = if leb (2 ^ 63) bits then key64 (2 ^ 64 - 1 - bits) else bits

-- Float64ToInt64 and Int64ToFloat64 on patterns, where math.Float64bits and its inverse are the identity
unfoldable pub float64_to_int64 : ℕ → ℕ
unfolding turn_low
float64_to_int64 bits = turn_low bits

unfoldable pub int64_to_float64 : ℕ → ℕ
unfolding turn_low
int64_to_float64 bits = turn_low bits

unfoldable pub prefix_coded_float64 : ℕ → ℕ → Outcome (List ℕ)
unfolding new_prefix_coded_int64 float64_to_int64 or_panic
prefix_coded_float64 bits shift = or_panic (new_prefix_coded_int64 (float64_to_int64 bits) shift)

-- Value.Float64
unfoldable pub float64_of : List ℕ → Result ℕ
unfolding int64_of int64_to_float64
float64_of bytes = int64_of bytes >>= λ i64. ok (int64_to_float64 i64)
