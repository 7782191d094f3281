-- ===== src/Common/Word.antt =====
-- Machine words of the kernel: `u32`, `u64`, and an `int` kept as its 32-bit pattern.
use Prim.Native.Nat.{ℕ, ◌+◌, ◌-◌, ◌*◌, ◌/◌, ◌%◌, ◌^◌, min, max}
use starlink_tcp.Common.Tests.{ltb, if◌then◌else◌}

abbrev pub u32_mod : ℕ
u32_mod = 2 ^ 32

abbrev pub u64_mod : ℕ
u64_mod = 2 ^ 64

-- The casts `(u32)x` and `(u64)x` of an unsigned value.
abbrev pub u32 : ℕ → ℕ
u32 n = n % u32_mod

abbrev pub u64 : ℕ → ℕ
u64 n = n % u64_mod

-- `-` on ℕ stops at 0, so the modulus is added first; the operands are below it.
abbrev pub add32 : ℕ → ℕ → ℕ
add32 a b = u32 (a + b)

abbrev pub sub32 : ℕ → ℕ → ℕ
sub32 a b = u32 (a + u32_mod - b)

abbrev pub mul32 : ℕ → ℕ → ℕ
mul32 a b = u32 (a * b)

abbrev pub add64 : ℕ → ℕ → ℕ
add64 a b = u64 (a + b)

abbrev pub sub64 : ℕ → ℕ → ℕ
sub64 a b = u64 (a + u64_mod - b)

abbrev pub mul64 : ℕ → ℕ → ℕ
mul64 a b = u64 (a * b)

-- `(u64)x` of an `int` with the bit pattern `x`: sign extension.
abbrev pub u64_of_int : ℕ → ℕ
u64_of_int x = if ltb x (2 ^ 31) then x else x + (2 ^ 64 - 2 ^ 32)

-- `clamp_t`: `min_t(type, max_t(type, val, lo), hi)`.
abbrev pub clamp : ℕ → ℕ → ℕ → ℕ
clamp x lo hi = min (max x lo) hi

-- `ALIGN(x, a)` on `u32`, that is `(x + (a - 1)) & ~(a - 1)`, for a power of two `a`.
abbrev pub align32 : ℕ → ℕ → ℕ
align32 x a = add32 x (a - 1) / a * a
