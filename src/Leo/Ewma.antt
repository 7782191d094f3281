-- ===== src/Leo/Ewma.antt =====
-- The moving averages of redhat_kernel/tcp_redhat.c.
pub mod Bounds
use starlink_tcp.Common.{ℕ, ◌/◌, ◌^◌, ◌==◌, if◌then◌else◌, add32, sub32, add64, sub64, clamp}

pub leo_ewma_u32 : ℕ → ℕ → ℕ → ℕ
leo_ewma_u32 old sample shift =
    if old == 0
    then sample
    else (let k = 2 ^ clamp shift 1 8 in add32 (sub32 old (old / k)) (sample / k))

pub leo_ewma_u64 : ℕ → ℕ → ℕ → ℕ
leo_ewma_u64 old sample shift =
    if old == 0
    then sample
    else (let k = 2 ^ clamp shift 1 8 in add64 (sub64 old (old / k)) (sample / k))
