-- ===== src/Prelude/Int64.antt =====
-- Go's int64 as a bit pattern below 2^64: addition and multiplication wrap, and two patterns are
-- compared by their keys, which turn the sign bit around.
use vearch.Prelude.Tests.{ltb, leb}
use mathlib.Core.Bool.{Bool}
use Prim.Native.Nat.{ℕ, ◌+◌, ◌-◌, ◌*◌, ◌%◌, ◌^◌}

abbrev pub key64 : ℕ → ℕ
key64 x = (x + 2 ^ 63) % 2 ^ 64

abbrev pub lt64 : ℕ → ℕ → Bool
lt64 a b = ltb (key64 a) (key64 b)

abbrev pub le64 : ℕ → ℕ → Bool
le64 a b = leb (key64 a) (key64 b)

abbrev pub mul64 : ℕ → ℕ → ℕ
mul64 a b = (a * b) % 2 ^ 64

abbrev pub sub64 : ℕ → ℕ → ℕ
sub64 a b = (a + 2 ^ 64 - b) % 2 ^ 64

abbrev pub minus_one64 : ℕ
minus_one64 = 2 ^ 64 - 1

abbrev pub add64 : ℕ → ℕ → ℕ
add64 a b = (a + b) % 2 ^ 64
