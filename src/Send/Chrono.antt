-- ===== src/Send/Chrono.antt =====
-- How long the sender was busy, and why: the chronograph of redhat_kernel/tcp_output.c, with the
-- fields of redhat_kernel/tcp.h.
pub mod Account
use starlink_tcp.Common.{ℕ, Bool, true, false, ltb, ◌==◌, if◌then◌else◌, add32, sub32}

-- `enum tcp_chrono` of the kernel's headers; the number is the priority.
pub data Chrono : Type 0 where
  unspec busy rwnd_limited sndbuf_limited : Chrono

abbrev pub rank : Chrono → ℕ
rank unspec = 0
rank busy = 1
rank rwnd_limited = 2
rank sndbuf_limited = 3

-- `chrono_type`, `chrono_start`, and the three of `chrono_stat`.
pub record Chronos : Type 0 where
  pub chrono_type : Chrono
  pub chrono_start : ℕ
  pub stat_busy : ℕ
  pub stat_rwnd : ℕ
  pub stat_sndbuf : ℕ

-- `chrono_stat[old - 1] += now - chrono_start`, unless `old` is TCP_CHRONO_UNSPEC.
unfoldable pub add_stat : Chrono → ℕ → Chronos → Chronos
add_stat unspec d c = c
add_stat busy d c = record c { stat_busy = add32 c.stat_busy d }
add_stat rwnd_limited d c = record c { stat_rwnd = add32 c.stat_rwnd d }
add_stat sndbuf_limited d c = record c { stat_sndbuf = add32 c.stat_sndbuf d }

unfoldable pub tcp_chrono_set : ℕ → Chrono → Chronos → Chronos
unfolding add_stat
tcp_chrono_set now new c = record (add_stat c.chrono_type (sub32 now c.chrono_start) c) {
  chrono_start = now;
  chrono_type = new;
}

unfoldable pub tcp_chrono_start : ℕ → Chrono → Chronos → Chronos
unfolding tcp_chrono_set
tcp_chrono_start now type c =
    if ltb (rank c.chrono_type) (rank type) then tcp_chrono_set now type c else c

-- `empty`: nothing is queued or in flight.
unfoldable pub tcp_chrono_stop : ℕ → Bool → Chrono → Chronos → Chronos
unfolding tcp_chrono_set
tcp_chrono_stop now empty type c =
    if empty
    then tcp_chrono_set now unspec c
    else if rank type == rank c.chrono_type
    then tcp_chrono_set now busy c
    else c
