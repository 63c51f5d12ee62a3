-- ===== src/Base/Word.antt =====
-- Fixed-width arithmetic. A value of a w-bit type is its bit pattern, a number below 2 ^ w; an
-- `int` or `s32` is a 32-bit pattern in two's complement.
use Prim.Native.Nat.{ℕ, ◌+◌, ◌-◌, ◌*◌, ◌%◌, ◌^◌}
use mathlib.Core.Bool.{Bool}
use android_device_axion_com.Base.Tests.{ltb, if◌then◌else◌}

abbrev pub u8 : ℕ → ℕ
u8 n = n % 2 ^ 8

abbrev pub u16 : ℕ → ℕ
u16 n = n % 2 ^ 16

abbrev pub u32 : ℕ → ℕ
u32 n = n % 2 ^ 32

abbrev pub u48 : ℕ → ℕ
u48 n = n % 2 ^ 48

abbrev pub u64 : ℕ → ℕ
u64 n = n % 2 ^ 64

-- a + b and a - b in 32 bits, for `u32` and `int` alike.
abbrev pub add32 : ℕ → ℕ → ℕ
add32 a b = u32 (a + b)

abbrev pub sub32 : ℕ → ℕ → ℕ
sub32 a b = u32 (a + 2 ^ 32 - b)

abbrev pub mul32 : ℕ → ℕ → ℕ
mul32 a b = u32 (a * b)

-- ~x
abbrev pub not32 : ℕ → ℕ
not32 x = 2 ^ 32 - 1 - x

-- -x
abbrev pub neg32 : ℕ → ℕ
neg32 x = u32 (2 ^ 32 - x)

-- x >> 31 of an `int`: the sign bit in every place.
abbrev pub sar31 : ℕ → ℕ
sar31 x = if ltb x (2 ^ 31) then 0 else 2 ^ 32 - 1

-- a < b of two `int`.
abbrev pub lt_s32 : ℕ → ℕ → Bool
lt_s32 a b = ltb (u32 (a + 2 ^ 31)) (u32 (b + 2 ^ 31))
