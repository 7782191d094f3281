-- ===== src/Leo/Target/Ramp.antt =====
-- The straight ramp of redhat_kernel/tcp_redhat.c: `d` bytes over `p` microseconds, after `e`.
use starlink_tcp.Common.{ℕ, ◌*◌, ◌/◌, ◌^◌, ◌≤◌, ◌<◌, ◌≡◌, arith, min}

abbrev pub ramp : ℕ → ℕ → ℕ → ℕ
ramp d p e = d * min e p / p

pub product_fits : (a b : ℕ) → a < 2 ^ 32 → b < 2 ^ 32 → a * b < 2 ^ 64
product_fits a b h k = grind arith

pub ramp-le : (d p e : ℕ) → ramp d p e ≤ d
ramp-le d p e = grind arith

pub ramp_full : (d p e : ℕ) → 0 < p → p ≤ e → ramp d p e ≡ d
ramp_full d p e h le = let m : min e p ≡ p = omega arith in rw m (grind arith)

pub ramp_start : (d p : ℕ) → 0 < p → ramp d p 0 ≡ 0
ramp_start d p h = grind arith

div_mono : (a b k : ℕ) → a ≤ b → a / k ≤ b / k
div_mono a b k h = grind arith

mul_mono : (d a b : ℕ) → a ≤ b → d * a ≤ d * b
mul_mono d a b h = grind arith

pub ramp_mono : (d p e later : ℕ) → e ≤ later → ramp d p e ≤ ramp d p later
ramp_mono d p e later h = div_mono _ _ p (mul_mono d (min e p) (min later p) (omega arith))
