-- ===== src/Prelude/Words.antt =====
-- Go's fixed-width integers as their bit patterns. A `uint32` is a number below 2 ^ 32; an `int64`
-- is a number below 2 ^ 64 whose upper half stands for the negative values, so the conversions
-- between `int64`, `int` and `uint64` are the identity (on a 64-bit platform).
use Prim.Native.Nat.{ℕ, ◌+◌, ◌-◌, ◌*◌, ◌%◌, ◌^◌}
use mathlib.Core.Bool.{Bool}
use libhfs.Prelude.Tests.{ltb, leb}

abbrev pub add32 : ℕ → ℕ → ℕ
add32 a b = (a + b) % 2 ^ 32

abbrev pub sub32 : ℕ → ℕ → ℕ
sub32 a b = (a + 2 ^ 32 - b) % 2 ^ 32

abbrev pub add64 : ℕ → ℕ → ℕ
add64 a b = (a + b) % 2 ^ 64

abbrev pub sub64 : ℕ → ℕ → ℕ
sub64 a b = (a + 2 ^ 64 - b) % 2 ^ 64

abbrev pub mul64 : ℕ → ℕ → ℕ
mul64 a b = (a * b) % 2 ^ 64

-- The largest `int64`.
abbrev pub max_int64 : ℕ
max_int64 = 2 ^ 63 - 1

-- `a < 0`
abbrev pub is_neg64 : ℕ → Bool
is_neg64 a = leb (2 ^ 63) a

-- `a < b` and `a <= b` on signed patterns: moving both by 2 ^ 63 turns them into unsigned tests.
abbrev pub slt64 : ℕ → ℕ → Bool
slt64 a b = ltb ((a + 2 ^ 63) % 2 ^ 64) ((b + 2 ^ 63) % 2 ^ 64)

abbrev pub sle64 : ℕ → ℕ → Bool
sle64 a b = leb ((a + 2 ^ 63) % 2 ^ 64) ((b + 2 ^ 63) % 2 ^ 64)
