-- ===== src/Common/Int.antt =====
-- The kernel's `int`, as an integer, with the conversions and roundings that the window code uses.
use mathlib.Core.Path.{◌≡◌}
use native.Mathlib.Omega.{arith}
use Prim.Native.Nat.{◌≤◌, ℕ, suc, ◌+◌, ◌-◌, ◌*◌, ◌/◌, ◌^◌}
use mathlib.Core.Bool.{Bool}
use starlink_tcp.Common.Tests.{ltb, leb, if◌then◌else◌}

-- `negsuc n` is -(n + 1).
pub data ℤ : Type 0 where
  pos : ℕ → ℤ
  negsuc : ℕ → ℤ

abbrev pub pos_part : ℤ → ℕ
pos_part (pos n) = n
pos_part (negsuc n) = 0

abbrev pub neg_part : ℤ → ℕ
neg_part (pos n) = 0
neg_part (negsuc n) = suc n

-- a - b, as an integer.
abbrev pub sub_ℕ : ℕ → ℕ → ℤ
sub_ℕ a b = if leb b a then pos (a - b) else negsuc (b - a - 1)

abbrev pub ltb_ℤ : ℤ → ℤ → Bool
ltb_ℤ a b = ltb (pos_part a + neg_part b) (pos_part b + neg_part a)

abbrev pub leb_ℤ : ℤ → ℤ → Bool
leb_ℤ a b = leb (pos_part a + neg_part b) (pos_part b + neg_part a)

infixl 65 ◌+ℤ◌ ◌-ℤ◌
abbrev pub ◌+ℤ◌ : ℤ → ℤ → ℤ
a +ℤ b = sub_ℕ (pos_part a + pos_part b) (neg_part a + neg_part b)

abbrev pub ◌-ℤ◌ : ℤ → ℤ → ℤ
a -ℤ b = sub_ℕ (pos_part a + neg_part b) (neg_part a + pos_part b)

-- `x >> k` of an `int`: division by `2 ^ k`, downwards.
abbrev pub shr_ℤ : ℤ → ℕ → ℤ
shr_ℤ (pos n) k = pos (n / 2 ^ k)
shr_ℤ (negsuc n) k = negsuc (n / 2 ^ k)

-- `round_down(x, a)`, that is `x & ~(a - 1)`, for a power of two `a`: down to a multiple.
abbrev pub round_down : ℤ → ℕ → ℤ
round_down (pos n) a = pos (n / a * a)
round_down (negsuc n) a = negsuc ((n / a + 1) * a - 1)

-- `rounddown(x, y)`, that is `x - x % y`: towards 0.
abbrev pub rounddown : ℤ → ℕ → ℤ
rounddown (pos n) y = pos (n / y * y)
rounddown (negsuc n) y = sub_ℕ 0 ((n + 1) / y * y)

-- `ALIGN(x, a)` of an `int`.
abbrev pub align_ℤ : ℤ → ℕ → ℤ
align_ℤ x a = round_down (x +ℤ pos (a - 1)) a

-- The conversions between `u32` and `int`.
abbrev pub int_of_u32 : ℕ → ℤ
int_of_u32 n = if ltb n (2 ^ 31) then pos n else negsuc (2 ^ 32 - 1 - n)

abbrev pub u32_of_int : ℤ → ℕ
u32_of_int (pos n) = n
u32_of_int (negsuc n) = 2 ^ 32 - 1 - n

pub sub-pos : (a b : ℕ) → b ≤ a → (pos a -ℤ pos b) ≡ pos (a - b)
sub-pos a b h = ground arith

pub ltb_ℤ-sub : (a b : ℕ) → ltb_ℤ (pos 0) (pos a -ℤ pos b) ≡ ltb b a
ltb_ℤ-sub a b = ground arith
